-- ===== src/Tool/Decompress.antt =====
-- compress/compress.cc: the rounds of the loop of `decompress_stream`, on any streams.
use ndzip.Base.{ℕ, leb, if◌then◌else◌, suc, ◌-◌, ◌≡◌, ◌≢◌, eq→==, ne→==, some}
use ndzip.Memory.{Memory}
use ndzip.Io.{Outcome, returned, aborted}
use ndzip.Tool.{Streams, decompress_loop}

-- The client of the output stream.
abbrev pub restorer :
    (Memory → ℕ → Memory → ℕ × Memory) → ℕ → Memory → ℕ → Memory → Outcome (ℕ × ℕ × Memory)
restorer decompress array_chunk_length chunk bytes_in_chunk buffer =
    let (n, filled) = decompress chunk bytes_in_chunk buffer in
    if leb n bytes_in_chunk then returned (n, array_chunk_length, filled) else aborted

module _ {I O : Type 0} (io : Streams I O) (decompress : Memory → ℕ → Memory → ℕ × Memory)
    (array_chunk_length fuel compressed_bytes_left : ℕ) (in_stream : I) (out_stream : O)
    (chunk : Memory) (bytes_in_chunk : ℕ) (in_stream' : I)
    (read : io.read_some compressed_bytes_left in_stream
      ≡ returned (chunk, bytes_in_chunk, in_stream')) where
  pub decompress_loop_end :
      bytes_in_chunk ≡ 0
      → decompress_loop io decompress array_chunk_length
          (suc fuel)
          compressed_bytes_left
          in_stream
          out_stream
        ≡ some (returned out_stream)
  unfolding decompress_loop
  decompress_loop_end e = rw (read, eq→== bytes_in_chunk 0 e, decompress_loop)

  pub decompress_loop_chunk :
      (n : ℕ) (out_stream' : O)
      → bytes_in_chunk ≢ 0
      → io.produce (restorer decompress array_chunk_length chunk bytes_in_chunk) out_stream
        ≡ returned (n, out_stream')
      → decompress_loop io decompress array_chunk_length
          (suc fuel)
          compressed_bytes_left
          in_stream
          out_stream
        ≡ decompress_loop io decompress array_chunk_length fuel
            (bytes_in_chunk - n)
            in_stream'
            out_stream'
  unfolding decompress_loop
  decompress_loop_chunk n out_stream' ne produced =
      rw (read, ne→== bytes_in_chunk 0 ne, produced, decompress_loop)
