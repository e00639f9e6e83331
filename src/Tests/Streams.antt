-- ===== src/Tests/Streams.antt =====
-- Reading a file of ten bytes in chunks of four.
use ndzip.Base.{ℕ, ◌+◌, ◌-◌, ◌<◌, ◌≡◌, refl, arith, min, inr}
use ndzip.Memory.{Memory}
use ndzip.Io.{
  Outcome, returned, io_error, aborted, StdioInput, MmapInput, stdio_read_some, mmap_read_some,
}
use ndzip.Io.Chunks.{
  mmap_read_some_contiguous, stdio_read_some-eq-mmap_read_some, stdio_read_some_front,
}

abbrev bytes : Memory
bytes a = a + 100

-- Both streams behind the first chunk.
abbrev mapped : MmapInput
mapped = record { max_chunk_size = 4; map = bytes; size = 10; offset = 4 }

abbrev opened : StdioInput
opened = record {
  file = record { contents = bytes; length = 10; broken = 10; position = 4 };
  chunk_size = 4;
  chunk = bytes;
  n_chunks = 1;
}

abbrev front : Outcome (ℕ × StdioInput) → ℕ
front io_error = 0
front aborted = 0
front (returned (n, s)) = s.chunk 0

-- With one byte left, the last of the chunk is 103.
stale : front (stdio_read_some 1 opened) ≡ 101
unfolding stdio_read_some
stale = refl

address : (mmap_read_some 1 mapped).0 ≡ 3
unfolding mmap_read_some
address = refl

held : (i : ℕ) → i < 4 → bytes i ≡ bytes (4 - 4 + i)
held i h = omega arith

mmap_read_some_contiguous_example :
    let (address, bytes_in_chunk, s') = mmap_read_some 1 mapped in
    let (address', bytes_in_chunk', s'') = mmap_read_some 2 s' in
    (address' ≡ address + (bytes_in_chunk - 2)) × (bytes_in_chunk' ≡ min 4 (10 - address'))
unfolding mmap_read_some
mmap_read_some_contiguous_example =
    mmap_read_some_contiguous mapped 1 2 (omega arith) (omega arith) (omega arith)

stdio_read_some-eq-mmap_read_some_example :
    let (address, bytes_in_chunk, m') = mmap_read_some 2 mapped in
    (s' : StdioInput) × (stdio_read_some 2 opened ≡ returned (bytes_in_chunk, s'))
    × ((i : ℕ) → i < bytes_in_chunk → s'.chunk i ≡ bytes (address + i))
    × (s'.file.position ≡ m'.offset)
stdio_read_some-eq-mmap_read_some_example =
    stdio_read_some-eq-mmap_read_some opened mapped (omega arith) (λ a. refl) refl refl refl 4 2
      held (omega arith) (omega arith) (omega arith) (omega arith) (inr refl)

stdio_read_some_front_example :
    (s' : StdioInput) × (stdio_read_some 1 opened ≡ returned ((mmap_read_some 1 mapped).1, s'))
    × (s'.chunk 0 ≡ bytes (4 - 4 + (1 + 0)))
    × ((mmap_read_some 1 mapped).0 + 0 ≡ 4 - 1 + 0)
stdio_read_some_front_example =
    stdio_read_some_front opened mapped (omega arith) (λ a. refl) refl refl refl 4 1 held
      (omega arith) (omega arith) (omega arith) (omega arith) 0 (omega arith) (omega arith)
