-- ===== src/Io/Output/Rounds.antt =====
-- Both output streams build the same file.
use ndzip.Base.{
  ℕ, ◌+◌, ◌-◌, ◌≤◌, ◌<◌, ◌≡◌, refl, ap, ◌≢◌, ◌∙◌, sym, arith, if◌then◌else◌, Bool, true, false,
  ne→==,
}
use ndzip.Memory.{Memory}
use ndzip.Io.{Outcome, returned, ◌>>=◌}
use ndzip.Io.Output.Working.{
  mmap_opened, mmap_committed, mmap_get_write_buffer-eq, mmap_commit_chunk-eq,
}
use ndzip.Io.Output.{
  Os, Works, StdioOutput, MmapOutput, stdio_get_write_buffer, stdio_commit_chunk, append,
  mmap_get_write_buffer, mmap_commit_chunk, ftruncate, filled,
}

-- The client's writes through the buffer of each stream.
abbrev pub stdio_filled : Memory → ℕ → StdioOutput → StdioOutput
stdio_filled chunk n s = record {
  file = s.file;
  max_chunk_length = s.max_chunk_length;
  buffer = filled chunk n 0 s.buffer;
  should_zero_buffer = s.should_zero_buffer;
}

abbrev pub mmap_filled : Memory → ℕ → MmapOutput → MmapOutput
mmap_filled chunk n m = record {
  file = record { contents = filled chunk n m.size m.file.contents; length = m.file.length };
  max_chunk_size = m.max_chunk_size;
  size = m.size;
  mapped = m.mapped;
}

-- A chunk of `n` bytes through each stream: the buffer, the client's writes, and the commit.
abbrev pub stdio_round : Os → Memory → ℕ → StdioOutput → Outcome StdioOutput
stdio_round os chunk n s = stdio_commit_chunk os n (stdio_filled chunk n (stdio_get_write_buffer s))

abbrev pub mmap_round : Os → Memory → ℕ → MmapOutput → Outcome MmapOutput
mmap_round os chunk n m =
    mmap_get_write_buffer os m >>= λ opened. mmap_commit_chunk os n (mmap_filled chunk n opened)

module _ (os : Os) (works : Works os) (s : StdioOutput) (m : MmapOutput) (chunk : Memory) (n : ℕ)
    (hn : 0 < n) (room : n ≤ s.max_chunk_length) (fits : n ≤ m.max_chunk_size)
    (closed : m.mapped ≡ false) (size : m.size ≡ m.file.length)
    (length : s.file.length ≡ m.file.length)
    (same : (a : ℕ) → a < m.file.length → s.file.contents a ≡ m.file.contents a) where
  -- The mapped stream with its buffer, and both streams after the commit.
  abbrev opened : MmapOutput
  opened = record {
    file = ftruncate (m.size + m.max_chunk_size) m.file;
    max_chunk_size = m.max_chunk_size;
    size = m.size;
    mapped = true;
  }

  opened-eq : opened ≡ mmap_opened m
  unfolding mmap_opened
  opened-eq = sym (ap (λ (b : Bool). if b then m else opened) closed)

  abbrev s1 : StdioOutput
  s1 = stdio_filled chunk n (stdio_get_write_buffer s)

  abbrev written : StdioOutput
  written = record {
    file = append s1.buffer n s1.file;
    max_chunk_length = s1.max_chunk_length;
    buffer = s1.buffer;
    should_zero_buffer = true;
  }

  committed : stdio_commit_chunk os n s1 ≡ returned written
  unfolding stdio_commit_chunk
  committed = rw (ne→== n 0 (let no : n ≢ 0 = omega arith in no), works.fwrite_works) refl

  same_file :
      (a : ℕ)
      → a < m.size + n
      → written.file.contents a ≡ (mmap_committed n (mmap_filled chunk n opened)).file.contents a
  unfolding stdio_get_write_buffer mmap_committed
  same_file a ha =
      let e : a - s.file.length - 0 ≡ a - m.size = omega arith in ground (arith, same a, ap chunk e)

  abbrev Same : StdioOutput → MmapOutput → Type 0
  Same s' m' =
      (s'.file.length ≡ m'.file.length)
      × (m'.size ≡ m'.file.length)
      × (m'.mapped ≡ false)
      × ((a : ℕ) → a < m'.file.length → s'.file.contents a ≡ m'.file.contents a)

  written-Same : Same written (mmap_committed n (mmap_filled chunk n opened))
  unfolding mmap_committed stdio_get_write_buffer
  written-Same = (omega arith, refl, refl, same_file)

  mmap_round-eq : mmap_round os chunk n m ≡ returned (mmap_committed n (mmap_filled chunk n opened))
  mmap_round-eq =
      ap (λ o. o >>= λ opened. mmap_commit_chunk os n (mmap_filled chunk n opened))
        (mmap_get_write_buffer-eq os works m ∙ ap returned (sym opened-eq))
      ∙ mmap_commit_chunk-eq os works (mmap_filled chunk n opened) n

  -- When no call of the operating system fails, from files with the same bytes, with no chunk
  -- begun: a chunk of at least one byte and at most the sizes of both buffers, written to the
  -- buffer and committed, leaves both streams, without an error, with files of the same length and
  -- the same bytes, and no chunk begun.
  pub stdio_output-eq-mmap_output :
      (s' : StdioOutput) × (m' : MmapOutput) × (stdio_round os chunk n s ≡ returned s')
      × (mmap_round os chunk n m ≡ returned m')
      × (s'.file.length ≡ m'.file.length)
      × (m'.size ≡ m'.file.length)
      × (m'.mapped ≡ false)
      × ((a : ℕ) → a < m'.file.length → s'.file.contents a ≡ m'.file.contents a)
  stdio_output-eq-mmap_output =
      let (length', size', closed', same') = written-Same in
      (
        written,
        mmap_committed n (mmap_filled chunk n opened),
        committed,
        mmap_round-eq,
        length',
        size',
        closed',
        same',
      )
