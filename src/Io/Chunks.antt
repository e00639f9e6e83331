-- ===== src/Io/Chunks.antt =====
-- The chunks that the input streams return.
use ndzip.Base.{
  ℕ, ◌+◌, ◌-◌, ◌≤◌, ◌<◌, ◌≡◌, refl, ap, subst, sym, ◌∙◌, ◌⊎◌, arith, ltb, if◌then◌else◌, Bool, true,
  false, min, ◌&&◌, le→ltb,
}
use native.Mathlib.Decide.{dec_lt}
use ndzip.Io.{
  returned, io_error, StdioInput, MmapInput, fread_count, ferror, advance, stdio_read_some,
  mmap_read_some, memmove_front, fread_into,
}

and_false : (a : Bool) → (a && false) ≡ false
and_false true = refl
and_false false = refl

-- The stream after a read without an error.
abbrev after : ℕ → StdioInput → StdioInput
after r s =
    let n = fread_count s.file (s.chunk_size - r) in
    record {
      file = advance s.file n;
      chunk_size = s.chunk_size;
      chunk = fread_into r n s.file (memmove_front r r s.chunk);
      n_chunks = if ltb 0 (r + n) then s.n_chunks + 1 else s.n_chunks;
    }

stdio_read_some-returned :
    (r : ℕ) (s : StdioInput)
    → s.file.length ≤ s.file.broken
    → stdio_read_some r s ≡ returned (r + fread_count s.file (s.chunk_size - r), after r s)
unfolding stdio_read_some
stdio_read_some-returned r s whole =
    let n = fread_count s.file (s.chunk_size - r) in
    let fine : ferror s.file ≡ false = le→ltb s.file.broken s.file.length whole in
    let go : (ltb n (s.chunk_size - r) && ferror s.file) ≡ false =
      ap (λ (b : Bool). ltb n (s.chunk_size - r) && b) fine
      ∙ and_false (ltb n (s.chunk_size - r)) in
    ap (λ (b : Bool). if b then io_error else returned (r + n, after r s)) go

module _ (r : ℕ) (s : StdioInput) where
  chunk-front : (i : ℕ) → i < r → (after r s).chunk i ≡ s.chunk (r + i)
  unfolding fread_into memmove_front
  chunk-front i hi = ground arith

  chunk-read :
      (i : ℕ)
      → r ≤ i
      → i < r + fread_count s.file (s.chunk_size - r)
      → (after r s).chunk i ≡ s.file.contents (s.file.position + (i - r))
  unfolding fread_into
  chunk-read i lo hi = ground arith

-- For a mapped file whose offset is within it, and a remainder of at most the last chunk: the next
-- chunk starts behind the bytes of the last one that were used, and has as many bytes as the
-- file has from there on, up to the size of a chunk.
pub mmap_read_some_contiguous :
    (s : MmapInput) (r rest : ℕ)
    → r ≤ s.offset
    → s.offset ≤ s.size
    → rest ≤ (mmap_read_some r s).1
    → let (address, bytes_in_chunk, s') = mmap_read_some r s in
      let (address', bytes_in_chunk', s'') = mmap_read_some rest s' in
      (address' ≡ address + (bytes_in_chunk - rest))
      × (bytes_in_chunk' ≡ min s.max_chunk_size (s.size - address'))
unfolding mmap_read_some
mmap_read_some_contiguous s r rest hr ho hrest = (grind arith, refl)

module _ (s : StdioInput) (m : MmapInput) (whole : s.file.length ≤ s.file.broken)
    (same_bytes : (a : ℕ) → s.file.contents a ≡ m.map a) (same_length : s.file.length ≡ m.size)
    (same_position : s.file.position ≡ m.offset) (same_size : s.chunk_size ≡ m.max_chunk_size)
    (last r : ℕ) (held : (i : ℕ) → i < last → s.chunk i ≡ m.map (m.offset - last + i))
    (hl : last ≤ m.offset) (ho : m.offset ≤ m.size) (hr : r ≤ last)
    (room : last ≤ m.max_chunk_size) where
  same_count : r + fread_count s.file (s.chunk_size - r) ≡ (mmap_read_some r m).1
  unfolding mmap_read_some
  same_count = grind arith

  -- For a file that can be read to its end, and the two streams at the same place after a chunk of
  -- `last` bytes: if nothing is left of that chunk, or half of it is, then both streams read on
  -- alike: the same number of bytes, the same bytes, and the same place after them.
  pub stdio_read_some-eq-mmap_read_some :
      (r ≡ 0) ⊎ (r + r ≡ last)
      → let (address, bytes_in_chunk, m') = mmap_read_some r m in
        (s' : StdioInput) × (stdio_read_some r s ≡ returned (bytes_in_chunk, s'))
        × ((i : ℕ) → i < bytes_in_chunk → s'.chunk i ≡ m.map (address + i))
        × (s'.file.position ≡ m'.offset)
  unfolding mmap_read_some
  stdio_read_some-eq-mmap_read_some half = (
    after r s,
    stdio_read_some-returned r s whole ∙ ap (λ (n : ℕ). returned (n, after r s)) same_count,
    (λ i hi. elim (dec_lt i r) [
      | yes front ↦
          chunk-front r s i front
          ∙ held (r + i) (grind arith)
          ∙ ap m.map (let e : m.offset - last + (r + i) ≡ m.offset - r + i = grind arith in e)
      | no ge ↦
          chunk-read r s i (omega arith) (subst (λ (n : ℕ). i < n) (sym same_count) hi)
          ∙ same_bytes (s.file.position + (i - r))
          ∙ ap m.map (let e : s.file.position + (i - r) ≡ m.offset - r + i = omega arith in e)
    ]),
    (grind arith),
  )

  -- In the same situation, if more than the remainder was used: the front of the next chunk of the
  -- stdio stream has the bytes that stand `r` bytes behind the start of the last chunk, and not
  -- those before the file's position, which the mapped stream has there.
  pub stdio_read_some_front :
      (i : ℕ)
      → r + r ≤ last
      → i < r
      → (s' : StdioInput) × (stdio_read_some r s ≡ returned ((mmap_read_some r m).1, s'))
        × (s'.chunk i ≡ m.map (m.offset - last + (r + i)))
        × ((mmap_read_some r m).0 + i ≡ m.offset - r + i)
  unfolding mmap_read_some
  stdio_read_some_front i hl' hi = (
    after r s,
    stdio_read_some-returned r s whole ∙ ap (λ (n : ℕ). returned (n, after r s)) same_count,
    chunk-front r s i hi ∙ held (r + i) (omega arith),
    refl,
  )
