-- ===== src/Tool/Restoring.antt =====
-- compress/compress.cc: one round of the loop of `decompress_stream`, from a mapped file to a
-- mapped file.
use ndzip.Base.{
  Bool, if◌then◌else◌, le→leb, ℕ, suc, ◌+◌, ◌-◌, ◌≤◌, ◌<◌, ◌≡◌, ◌≢◌, refl, ap, subst, sym, ◌∙◌,
  arith, min,
}
use ndzip.Memory.{Memory}
use ndzip.Io.{returned, aborted, MmapInput, mmap_read_some}
use ndzip.Io.Output.{Os, Works, MmapOutput}
use ndzip.Io.Output.Working.{mmap_opened, mmap_committed}
use ndzip.Tool.{decompress_loop}
use ndzip.Tool.Mapped.{mmap_client, mmap_produce, mmap_produce-eq, mmap_some, mmap_streams}
use ndzip.Tool.Decompress.{restorer, decompress_loop_chunk}
use ndzip.Tool.Files.{next, chunk_of}
use ndzip.Tool.Codec.{Codec, AreBytes}
use ndzip.Tool.Committed.{
  IsClosed, committed-IsClosed, committed-size, committed-max, committed_before, committed_chunk,
}
use ndzip.Tool.Written.{Chunks, Chunks-le}

-- The stream after `read_some`, the chunk that it returns and the chunk's length.
abbrev pub later : ℕ → MmapInput → MmapInput
later left z = record {
  max_chunk_size = z.max_chunk_size;
  map = z.map;
  size = z.size;
  offset = min z.size (z.offset - left + z.max_chunk_size);
}

abbrev pub rest_of : ℕ → MmapInput → Memory
rest_of left z a = z.map (z.offset - left + a)

abbrev pub bytes_of : ℕ → MmapInput → ℕ
bytes_of left z = min z.max_chunk_size (z.size - (z.offset - left))

pub some-read :
    (left : ℕ) (z : MmapInput)
    → mmap_some left z ≡ returned (rest_of left z, bytes_of left z, later left z)
unfolding mmap_some mmap_read_some
some-read left z = refl

module _ {L bound : ℕ} (c : Codec L bound) where
  module _ (left : ℕ) (z : MmapInput) (o : MmapOutput) where
    abbrev opened : MmapOutput
    opened = mmap_opened o

    abbrev pub decoded : ℕ × Memory
    decoded =
        c.decompress (rest_of left z) (bytes_of left z)
          (λ a. opened.file.contents (opened.size + a))

    abbrev pub restored : MmapOutput
    restored = mmap_committed L (mmap_client decoded.1 opened)

    produced :
        (os : Os)
        → Works os
        → decoded.0 ≤ bytes_of left z
        → mmap_produce os (restorer c.decompress L (rest_of left z) (bytes_of left z)) o
          ≡ returned (decoded.0, restored)
    produced os works h =
        mmap_produce-eq os works (restorer c.decompress L (rest_of left z) (bytes_of left z)) o
          decoded.0 L decoded.1
          (ap (λ (b : Bool). if b then returned (decoded.0, L, decoded.1) else aborted)
            (le→leb decoded.0 (bytes_of left z) h))

  -- One round, at a compressed chunk of the input.
  module _ (k left : ℕ) (s z : MmapInput) (o : MmapOutput) (are : AreBytes s.map)
      (hl : left ≤ z.offset) (hz : z.max_chunk_size ≡ bound)
      (holds : Chunks c (suc k) s z.map (z.offset - left) z.size) where
    abbrev pub n : ℕ
    n = (c.compress (chunk_of s) holds.0).0

    inside : z.offset - left + n ≤ z.size
    inside = Chunks-le c k (next s) z.map (z.offset - left + n) z.size holds.2

    enough : n ≤ bytes_of left z
    enough =
        let b : n ≤ bound = c.compress_bound (chunk_of s) holds.0 in let i = inside in grind arith

    decoded-size : (decoded left z o).0 ≡ n
    decoded-size =
        c.decompress_size (chunk_of s) holds.0 (rest_of left z)
          (λ a. (opened left z o).file.contents ((opened left z o).size + a)) (bytes_of left z)
          (λ i. are _) enough holds.1

    pub decoded-chunk : (i : ℕ) → i < L → (decoded left z o).1 i ≡ chunk_of s i
    decoded-chunk =
        c.decompress_chunk (chunk_of s) holds.0 (rest_of left z)
          (λ a. (opened left z o).file.contents ((opened left z o).size + a)) (bytes_of left z)
          (λ i. are _) enough holds.1

    pub step :
        (os : Os)
        → Works os
        → (fuel : ℕ)
        → decompress_loop (mmap_streams os) c.decompress L (suc fuel) left z o
          ≡ decompress_loop
              (mmap_streams os)
              c.decompress
              L
              fuel
              (bytes_of left z - n)
              (later left z)
              (restored left z o)
    unfolding mmap_streams
    step os works fuel =
        let p : 0 < n = c.compress_positive (chunk_of s) holds.0 in
        let e = enough in
        decompress_loop_chunk (mmap_streams os) c.decompress L fuel left z o (rest_of left z)
          (bytes_of left z) (later left z) (some-read left z) (decoded left z o).0
          (restored left z o) (let ne : bytes_of left z ≢ 0 = omega arith in ne)
          (produced left z o os works (subst (λ (m : ℕ). m ≤ bytes_of left z) (sym decoded-size) e))
        ∙ ap
            (λ (m : ℕ).
              decompress_loop (mmap_streams os) c.decompress L fuel (bytes_of left z - m)
                (later left z) (restored left z o))
            decoded-size

    pub later-offset : (later left z).offset - (bytes_of left z - n) ≡ z.offset - left + n
    later-offset = let i = inside in let e = enough in grind arith

    pub later-le : bytes_of left z - n ≤ (later left z).offset
    later-le = let i = inside in let e = enough in grind arith

  module _ (left : ℕ) (z : MmapInput) (o : MmapOutput) (closed : IsClosed o)
      (max : o.max_chunk_size ≡ L) where
    fits : L ≤ o.max_chunk_size
    fits = omega arith

    pub restored-IsClosed : IsClosed (restored left z o)
    restored-IsClosed = committed-IsClosed o closed (decoded left z o).1 L fits

    pub restored-size : (restored left z o).size ≡ o.size + L
    restored-size = committed-size o closed (decoded left z o).1 L fits

    pub restored-max : (restored left z o).max_chunk_size ≡ L
    restored-max = committed-max o closed (decoded left z o).1 L fits ∙ max

    pub restored_before :
        (a : ℕ) → a < o.size → (restored left z o).file.contents a ≡ o.file.contents a
    restored_before = committed_before o closed (decoded left z o).1 L fits

    pub restored_chunk :
        (i : ℕ) → i < L → (restored left z o).file.contents (o.size + i) ≡ (decoded left z o).1 i
    restored_chunk = committed_chunk o closed (decoded left z o).1 L fits
