-- ===== src/Io/Output.antt =====
-- io/io.cc: the output streams, on an open file, and a client that fills the buffer between the
-- calls.
pub mod Working
pub mod Rounds
use ndzip.Base.{ℕ, ◌≡◌, ◌+◌, ◌-◌, ◌*◌, ◌==◌, ltb, leb, if◌then◌else◌, Bool, true, false, ◌&&◌, min}
use ndzip.Memory.{Memory}
use ndzip.Io.{Outcome, returned, io_error, aborted, ◌>>=◌}

pub record OutFile : Type 0 where
  pub contents : Memory
  pub length : ℕ

-- Which calls of the C library and the operating system fail, on a file: `fwrite` and `ftruncate`
-- with a length, `mmap` and `munmap` of the whole file.
pub record Os : Type 0 where
  pub fwrite_fails : ℕ → OutFile → Bool
  pub ftruncate_fails : ℕ → OutFile → Bool
  pub mmap_fails : OutFile → Bool
  pub munmap_fails : OutFile → Bool

-- No call fails.
pub record Works (os : Os) : Type 0 where
  pub fwrite_works : (n : ℕ) (file : OutFile) → os.fwrite_fails n file ≡ false
  pub ftruncate_works : (n : ℕ) (file : OutFile) → os.ftruncate_fails n file ≡ false
  pub mmap_works : (file : OutFile) → os.mmap_fails file ≡ false
  pub munmap_works : (file : OutFile) → os.munmap_fails file ≡ false

-- `stdio_output_stream`.
pub record StdioOutput : Type 0 where
  pub file : OutFile
  pub max_chunk_length : ℕ
  pub buffer : Memory
  pub should_zero_buffer : Bool

-- `get_write_buffer`, which zeroes the buffer after a commit.
unfoldable pub stdio_get_write_buffer : StdioOutput → StdioOutput
stdio_get_write_buffer s = record {
  file = s.file;
  max_chunk_length = s.max_chunk_length;
  buffer =
      if s.should_zero_buffer
      then (λ a. if ltb a s.max_chunk_length then 0 else s.buffer a)
      else s.buffer;
  should_zero_buffer = false;
}

-- `fwrite(buffer, length, 1, file)` appends the bytes.
abbrev pub append : Memory → ℕ → OutFile → OutFile
append buffer length file = record {
  contents = λ a. if ltb a file.length then file.contents a else buffer (a - file.length);
  length = file.length + length;
}

-- `commit_chunk`; `fwrite` of an object without bytes returns 0, which the stream takes for an error.
unfoldable pub stdio_commit_chunk : Os → ℕ → StdioOutput → Outcome StdioOutput
stdio_commit_chunk os length s =
    if length == 0
    then io_error
    else if os.fwrite_fails length s.file
    then io_error
    else returned (record {
      file = append s.buffer length s.file;
      max_chunk_length = s.max_chunk_length;
      buffer = s.buffer;
      should_zero_buffer = true;
    })

-- `mmap_output_stream`; the capacity is the length of the file.
pub record MmapOutput : Type 0 where
  pub file : OutFile
  pub max_chunk_size : ℕ
  pub size : ℕ
  pub mapped : Bool

-- `ftruncate` cuts the file, or fills it up with zeros.
abbrev pub ftruncate : ℕ → OutFile → OutFile
ftruncate n file = record {
  contents = λ a. if ltb a (min n file.length) then file.contents a else 0;
  length = n;
}

module _ (os : Os) where
  unfoldable pub unmap_if_mapped : MmapOutput → Outcome MmapOutput
  unmap_if_mapped m =
      if m.mapped
      then (if os.munmap_fails m.file then io_error else returned (record m { mapped = false }))
      else returned (record m { mapped = false })

  unfoldable pub truncate : ℕ → MmapOutput → Outcome MmapOutput
  unfolding unmap_if_mapped
  truncate new_capacity m = unmap_if_mapped m >>= λ m.
      if os.ftruncate_fails new_capacity m.file
      then io_error
      else returned (record m { file = ftruncate new_capacity m.file })

  unfoldable pub map : MmapOutput → Outcome MmapOutput
  map m =
      if m.mapped
      then aborted
      else if os.mmap_fails m.file
      then io_error
      else returned (record m { mapped = true })

  -- `get_write_buffer`; the buffer is the mapped file from `size` on.
  unfoldable pub mmap_get_write_buffer : MmapOutput → Outcome MmapOutput
  unfolding truncate map
  mmap_get_write_buffer m =
      if m.mapped then returned m else truncate (m.size + m.max_chunk_size) m >>= map

  unfoldable pub mmap_commit_chunk : ℕ → MmapOutput → Outcome MmapOutput
  unfolding unmap_if_mapped truncate
  mmap_commit_chunk length m =
      unmap_if_mapped m >>= λ m. truncate (m.size + length) (record m { size = m.size + length })

-- The client writes the first `n` bytes of `chunk` to the buffer that starts at `from`.
abbrev pub filled : Memory → ℕ → ℕ → Memory → Memory
filled chunk n from x = λ a. if leb from a && ltb a (from + n) then chunk (a - from) else x a
