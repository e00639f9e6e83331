-- ===== src/Tool.antt =====
-- compress/compress.cc: the loops of the compress tool over the chunks of a file. The streams and the
-- encoder are an interface; a `for (;;)` or `while` loop runs on fuel, and gives nothing without it.
pub mod Mapped
pub mod Compress
pub mod Files
pub mod Codec
pub mod Encoding
pub mod Committed
pub mod Written
pub mod Decompress
pub mod Restoring
pub mod RoundTrip
pub mod Lossless
use ndzip.Base.{
  ℕ, zero, suc, ◌+◌, ◌-◌, ◌*◌, ◌==◌, if◌then◌else◌, leb, Bool, true, false, Option, none, some,
}
use ndzip.Memory.{Memory}
use ndzip.Io.{Outcome, returned, io_error, aborted}

-- What the loops call: `read_exact` and `read_some` of the input stream, and on the output stream
-- `get_write_buffer`, a client that fills the buffer, and `commit_chunk`. The client has a result,
-- the number of bytes to commit and what it makes of the buffer, if no assert of it fails.
pub record Streams (I O : Type 0) : Type 0 where
  pub read_exact : I → Outcome (Option Memory × I)
  pub read_some : ℕ → I → Outcome (Memory × ℕ × I)
  pub produce : (Memory → Outcome (ℕ × ℕ × Memory)) → O → Outcome (ℕ × O)

-- The variables of `compress_stream`.
pub record Totals (O : Type 0) : Type 0 where
  pub out_stream : O
  pub compressed_length : ℕ
  pub n_chunks : ℕ

module _ {I O : Type 0} (io : Streams I O) where
  -- `compress_stream` on open streams; `compress` is `encoder.compress` on the bytes of a chunk and
  -- the write buffer, and the assert on the compressed length is part of what fills it.
  unfoldable pub compress_loop :
      (Memory → Memory → ℕ × Memory) → ℕ → ℕ → I → Totals O → Option (Outcome (Totals O))
  compress_loop compress max_compressed_chunk_length zero in_stream t = none
  compress_loop compress max_compressed_chunk_length (suc fuel) in_stream t =
      elim (io.read_exact in_stream) [
        | io_error ↦ some io_error
        | aborted ↦ some aborted
        | returned (none, in_stream') ↦ some (returned t)
        | returned (some chunk, in_stream') ↦
            elim (io.produce
              (λ buffer.
                let (n, filled) = compress chunk buffer in
                if leb n max_compressed_chunk_length then returned (n, n, filled) else aborted)
              t.out_stream) [
                | io_error ↦ some io_error
                | aborted ↦ some aborted
                | returned (compressed_chunk_length, out_stream) ↦
                    compress_loop compress max_compressed_chunk_length fuel in_stream' (record {
                      out_stream = out_stream;
                      compressed_length = t.compressed_length + compressed_chunk_length;
                      n_chunks = t.n_chunks + 1;
                    })
              ]
      ]

  unfoldable pub compress_stream :
      (Memory → Memory → ℕ × Memory) → ℕ → ℕ → I → O → Option (Outcome (Totals O))
  unfolding compress_loop
  compress_stream compress max_compressed_chunk_length fuel in_stream out_stream =
      compress_loop compress max_compressed_chunk_length fuel in_stream
        (record { out_stream = out_stream; compressed_length = 0; n_chunks = 0 })

  -- `decompress_stream`; `decompress` is `encoder.decompress` on a chunk, its size and the write
  -- buffer, and gives the compressed size and the buffer.
  unfoldable pub decompress_loop :
      (Memory → ℕ → Memory → ℕ × Memory) → ℕ → ℕ → ℕ → I → O → Option (Outcome O)
  decompress_loop decompress array_chunk_length zero compressed_bytes_left in_stream out_stream =
      none
  decompress_loop decompress array_chunk_length (suc fuel) compressed_bytes_left in_stream
        out_stream =
      elim (io.read_some compressed_bytes_left in_stream) [
        | io_error ↦ some io_error
        | aborted ↦ some aborted
        | returned (chunk, bytes_in_chunk, in_stream') ↦ elim (bytes_in_chunk == 0) [
          | true ↦ some (returned out_stream)
          | false ↦
              elim (io.produce
                (λ buffer.
                  let (n, filled) = decompress chunk bytes_in_chunk buffer in
                  if leb n bytes_in_chunk
                  then returned (n, array_chunk_length, filled)
                  else aborted)
                out_stream) [
                  | io_error ↦ some io_error
                  | aborted ↦ some aborted
                  | returned (compressed_size, out_stream') ↦
                      decompress_loop decompress array_chunk_length fuel
                        (bytes_in_chunk - compressed_size) in_stream' out_stream'
                ]
        ]
      ]

  unfoldable pub decompress_stream :
      (Memory → ℕ → Memory → ℕ × Memory) → ℕ → ℕ → I → O → Option (Outcome O)
  unfolding decompress_loop
  decompress_stream decompress array_chunk_length fuel in_stream out_stream =
      decompress_loop decompress array_chunk_length fuel 0 in_stream out_stream
