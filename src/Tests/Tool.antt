-- ===== src/Tests/Tool.antt =====
-- Files of two bytes for each chunk, and an encoder that keeps the first byte of each.
use ndzip.Tests.Systems.{working, working-Works, full_at}
use ndzip.Base.{ℕ, ◌≤◌, ◌+◌, ◌≡◌, refl, arith, ◌==◌, if◌then◌else◌, false, Option, none, some}
use ndzip.Memory.{Memory}
use ndzip.Io.{Outcome, returned, io_error, aborted, MmapInput}
use ndzip.Io.Output.{MmapOutput}
use ndzip.Tool.{Totals, compress_stream}
use ndzip.Tool.Mapped.{mmap_streams}
use ndzip.Tool.Files.{compress_stream_whole, compress_stream_rest}

abbrev keep_first : Memory → Memory → ℕ × Memory
keep_first chunk buffer = (1, λ a. if a == 0 then chunk 0 else buffer a)

keep_first-le : (chunk buffer : Memory) → (keep_first chunk buffer).0 ≤ 4
keep_first-le chunk buffer = omega arith

abbrev bytes_in : ℕ → MmapInput
bytes_in n = record { max_chunk_size = 2; map = λ a. a + 10; size = n; offset = 0 }

abbrev nothing_yet : MmapOutput
nothing_yet = record {
  file = record { contents = λ a. 0; length = 0 };
  max_chunk_size = 4;
  size = 0;
  mapped = false;
}

compress_stream_whole_example :
    (t : Totals MmapOutput) × (compress_stream
        (mmap_streams working)
        keep_first
        4
        4
        (bytes_in 6)
        nothing_yet
      ≡ some (returned t))
    × (t.n_chunks ≡ 3)
    × (t.out_stream.size ≡ t.compressed_length)
compress_stream_whole_example =
    compress_stream_whole working working-Works keep_first 4 keep_first-le (bytes_in 6) nothing_yet
      3 4 refl (omega arith) (omega arith) refl refl

compress_stream_rest_example :
    compress_stream (mmap_streams working) keep_first 4 4 (bytes_in 7) nothing_yet ≡ some io_error
compress_stream_rest_example =
    compress_stream_rest working working-Works keep_first 4 keep_first-le (bytes_in 7) nothing_yet 3
      4 refl (omega arith) 1 (omega arith) (omega arith) refl

-- The first bytes of the chunks, one after the other.
abbrev byte_at : ℕ → Option (Outcome (Totals MmapOutput)) → ℕ
byte_at a (some (returned t)) = t.out_stream.file.contents a
byte_at a (some io_error) = 0
byte_at a (some aborted) = 0
byte_at a none = 0

third_byte :
    byte_at 2 (compress_stream (mmap_streams working) keep_first 4 4 (bytes_in 6) nothing_yet) ≡ 14
unfolding compress_stream mmap_streams
third_byte = refl

-- The second chunk does not fit on the disk.
full_disk :
    compress_stream (mmap_streams (full_at 4)) keep_first 4 4 (bytes_in 6) nothing_yet
    ≡ some io_error
unfolding compress_stream mmap_streams
full_disk = refl

-- A compressed chunk above the bound.
too_long :
    compress_stream (mmap_streams working) keep_first 0 4 (bytes_in 6) nothing_yet ≡ some aborted
unfolding compress_stream mmap_streams
too_long = refl
