-- ===== src/Io.antt =====
-- io/io.cc: the input streams of the compress tool, on an open file.
pub mod Chunks
pub mod Output
use ndzip.Base.{
  ℕ, ◌+◌, ◌-◌, ◌*◌, ◌==◌, ltb, leb, if◌then◌else◌, Bool, true, false, ◌&&◌, min, Option, none, some,
}
use ndzip.Memory.{Memory}

-- What an operation does: it returns, throws `io_error`, or stops the program at a failed assert.
pub data Outcome {ℓ} (A : Type ℓ) : Type ℓ where
  returned : A → Outcome A
  io_error : Outcome A
  aborted : Outcome A

infixl 5 ◌>>=◌
abbrev pub ◌>>=◌ {ℓ κ} : {A : Type ℓ} {B : Type κ} → Outcome A → (A → Outcome B) → Outcome B
returned a >>= f = f a
io_error >>= f = io_error
aborted >>= f = aborted

-- A `FILE` on `length` bytes; reading fails from the byte `broken` on, if there is one so far.
pub record File : Type 0 where
  pub contents : Memory
  pub length : ℕ
  pub broken : ℕ
  pub position : ℕ

-- How many bytes `fread` reads, and `ferror` after it fell short.
abbrev pub fread_count : File → ℕ → ℕ
fread_count file n = min n (min file.length file.broken - file.position)

abbrev pub ferror : File → Bool
ferror file = ltb file.broken file.length

abbrev pub advance : File → ℕ → File
advance file n = record {
  contents = file.contents;
  length = file.length;
  broken = file.broken;
  position = file.position + n;
}

-- `stdio_input_stream`.
pub record StdioInput : Type 0 where
  pub file : File
  pub chunk_size : ℕ
  pub chunk : Memory
  pub n_chunks : ℕ

-- `memmove(chunk, chunk + from, n)` and `fread(chunk + to, 1, n, file)`, on the chunk.
unfoldable pub memmove_front : ℕ → ℕ → Memory → Memory
memmove_front from n chunk = λ a. if ltb a n then chunk (from + a) else chunk a

unfoldable pub fread_into : ℕ → ℕ → File → Memory → Memory
fread_into to n file chunk =
    λ a. if leb to a && ltb a (to + n) then file.contents (file.position + (a - to)) else chunk a

-- `stdio_input_stream::read_some`: the number of bytes in the chunk, and the stream.
unfoldable pub stdio_read_some : ℕ → StdioInput → Outcome (ℕ × StdioInput)
unfolding memmove_front fread_into
stdio_read_some remainder s =
    let bytes_to_read = s.chunk_size - remainder in
    let moved = memmove_front remainder remainder s.chunk in
    let bytes_read = fread_count s.file bytes_to_read in
    let chunk = fread_into remainder bytes_read s.file moved in
    let bytes_in_chunk = remainder + bytes_read in
    if ltb bytes_read bytes_to_read && ferror s.file
    then io_error
    else returned (
      bytes_in_chunk,
      record {
        file = advance s.file bytes_read;
        chunk_size = s.chunk_size;
        chunk = chunk;
        n_chunks = if ltb 0 bytes_in_chunk then s.n_chunks + 1 else s.n_chunks;
      },
    )

-- `mmap_input_stream`, with the mapping of the whole file.
pub record MmapInput : Type 0 where
  pub max_chunk_size : ℕ
  pub map : Memory
  pub size : ℕ
  pub offset : ℕ

-- `mmap_input_stream::read_some`: the address of the chunk, its size, and the stream.
unfoldable pub mmap_read_some : ℕ → MmapInput → ℕ × ℕ × MmapInput
mmap_read_some remainder s =
    let offset = s.offset - remainder in
    (
      offset,
      min s.max_chunk_size (s.size - offset),
      record {
        max_chunk_size = s.max_chunk_size;
        map = s.map;
        size = s.size;
        offset = min s.size (offset + s.max_chunk_size);
      },
    )

-- `read_exact`, on what `read_some` returned: the chunk, or a null pointer at the end.
unfoldable pub exact_chunk {ℓ} : {A : Type ℓ} → ℕ → ℕ → A → Outcome (Option A)
exact_chunk chunk_size bytes_read chunk =
    if bytes_read == chunk_size
    then returned (some chunk)
    else if bytes_read == 0
    then returned none
    else io_error

-- `mmap_input_stream::read_exact`: the address of the chunk, and the stream.
unfoldable pub mmap_read_exact : MmapInput → Outcome (Option ℕ) × MmapInput
unfolding mmap_read_some exact_chunk
mmap_read_exact s =
    let (address, bytes_read, s') = mmap_read_some 0 s in
    (exact_chunk s.max_chunk_size bytes_read address, s')

-- `stdio_input_stream::read_exact`: the chunk, and the stream.
unfoldable pub stdio_read_exact : StdioInput → Outcome (Option Memory × StdioInput)
unfolding stdio_read_some exact_chunk
stdio_read_exact s = stdio_read_some 0 s >>= λ (bytes_read, s').
    exact_chunk s.chunk_size bytes_read s'.chunk >>= λ chunk. returned (chunk, s')
