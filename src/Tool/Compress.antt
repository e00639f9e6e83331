-- ===== src/Tool/Compress.antt =====
-- compress/compress.cc: the rounds of the loop of `compress_stream`, on any streams.
use ndzip.Base.{ℕ, leb, if◌then◌else◌, suc, ◌+◌, ◌≡◌, none, some}
use ndzip.Memory.{Memory}
use ndzip.Io.{Outcome, returned, io_error, aborted}
use ndzip.Tool.{Streams, Totals, compress_loop}

-- The client of the output stream, and the variables after a chunk.
abbrev pub client : (Memory → Memory → ℕ × Memory) → ℕ → Memory → Memory → Outcome (ℕ × ℕ × Memory)
client compress max_length chunk buffer =
    let (n, filled) = compress chunk buffer in
    if leb n max_length then returned (n, n, filled) else aborted

abbrev pub counted : {O : Type 0} → Totals O → ℕ → O → Totals O
counted t n out_stream = record {
  out_stream = out_stream;
  compressed_length = t.compressed_length + n;
  n_chunks = t.n_chunks + 1;
}

module _ {I O : Type 0} (io : Streams I O) (compress : Memory → Memory → ℕ × Memory)
    (max_length fuel : ℕ) (in_stream : I) (t : Totals O) where
  pub compress_loop_end :
      (in_stream' : I)
      → io.read_exact in_stream ≡ returned (none, in_stream')
      → compress_loop io compress max_length (suc fuel) in_stream t ≡ some (returned t)
  unfolding compress_loop
  compress_loop_end in_stream' e = rw (e, compress_loop)

  pub compress_loop_error :
      io.read_exact in_stream ≡ io_error
      → compress_loop io compress max_length (suc fuel) in_stream t ≡ some io_error
  unfolding compress_loop
  compress_loop_error e = rw (e, compress_loop)

  pub compress_loop_chunk :
      (chunk : Memory) (in_stream' : I) (n : ℕ) (out_stream : O)
      → io.read_exact in_stream ≡ returned (some chunk, in_stream')
      → io.produce (client compress max_length chunk) t.out_stream ≡ returned (n, out_stream)
      → compress_loop io compress max_length (suc fuel) in_stream t
        ≡ compress_loop io compress max_length fuel in_stream' (counted t n out_stream)
  unfolding compress_loop
  compress_loop_chunk chunk in_stream' n out_stream e produced = rw (e, produced, compress_loop)
