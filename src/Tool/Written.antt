-- ===== src/Tool/Written.antt =====
-- compress/compress.cc: the file that `compress_stream` writes, chunk by chunk.
use ndzip.Base.{ℕ, zero, suc, ◌+◌, ◌*◌, ◌≤◌, ◌<◌, ◌≡◌, refl, subst, sym, ◌∙◌, arith, some}
use ndzip.Memory.{Memory}
use ndzip.Io.{returned, MmapInput}
use ndzip.Io.Output.{Os, Works, MmapOutput}
use ndzip.Tool.{Totals, compress_loop}
use ndzip.Tool.Mapped.{mmap_streams}
use ndzip.Tool.Compress.{compress_loop_end}
use ndzip.Tool.Files.{next, chunk_of, encoded, committed, opened, moved, round, exact-end}
use ndzip.Tool.Codec.{Codec}
use ndzip.Tool.Committed.{
  IsClosed, committed-IsClosed, committed-size, committed-max, committed_before, committed_chunk,
}

module _ {L bound : ℕ} (c : Codec L bound) where
  -- From `p` to `q`, the file has the next `k` chunks of the input, compressed.
  abbrev pub Chunks : ℕ → MmapInput → Memory → ℕ → ℕ → Type 0
  Chunks zero s file p q = p ≡ q
  Chunks (suc k) s file p q =
      (buffer : Memory) × ((i : ℕ)
        → i < (c.compress (chunk_of s) buffer).0
        → file (p + i) ≡ (c.compress (chunk_of s) buffer).1 i)
      × Chunks k (next s) file (p + (c.compress (chunk_of s) buffer).0) q

  pub Chunks-le : (k : ℕ) (s : MmapInput) (file : Memory) (p q : ℕ) → Chunks k s file p q → p ≤ q
  Chunks-le zero s file p q h = omega arith
  Chunks-le (suc k) s file p q (buffer, same, rest) =
      let le = Chunks-le k (next s) file (p + (c.compress (chunk_of s) buffer).0) q rest in
      omega arith

  module _ (s : MmapInput) (o : MmapOutput) (closed : IsClosed o)
      (max : o.max_chunk_size ≡ bound) where
    abbrev n : ℕ
    n = (encoded c.compress (chunk_of s) o).0

    abbrev after : MmapOutput
    after = committed c.compress (chunk_of s) o

    fits : n ≤ o.max_chunk_size
    fits =
        subst (λ (b : ℕ). n ≤ b) (sym max)
          (c.compress_bound (chunk_of s) (λ a.
            (opened c.compress (chunk_of s) o).file.contents
              ((opened c.compress (chunk_of s) o).size + a)))

    after-IsClosed : IsClosed after
    after-IsClosed = committed-IsClosed o closed (encoded c.compress (chunk_of s) o).1 n fits

    after-size : after.size ≡ o.size + n
    after-size = committed-size o closed (encoded c.compress (chunk_of s) o).1 n fits

    after-max : after.max_chunk_size ≡ bound
    after-max = committed-max o closed (encoded c.compress (chunk_of s) o).1 n fits ∙ max

    after_before : (a : ℕ) → a < o.size → after.file.contents a ≡ o.file.contents a
    after_before = committed_before o closed (encoded c.compress (chunk_of s) o).1 n fits

    after_chunk :
        (i : ℕ) → i < n → after.file.contents (o.size + i) ≡ (encoded c.compress (chunk_of s) o).1 i
    after_chunk = committed_chunk o closed (encoded c.compress (chunk_of s) o).1 n fits

  pub loop_written :
      (os : Os)
      → Works os
      → (k fuel : ℕ) (s : MmapInput) (t : Totals MmapOutput) → 0 < s.max_chunk_size
      → s.offset + k * s.max_chunk_size ≡ s.size
      → k < fuel
      → IsClosed t.out_stream
      → t.out_stream.max_chunk_size ≡ bound
      → (t' : Totals MmapOutput) × (compress_loop (mmap_streams os) c.compress bound fuel s t
          ≡ some (returned t'))
        × IsClosed t'.out_stream
        × ((a : ℕ)
            → a < t.out_stream.size
            → t'.out_stream.file.contents a ≡ t.out_stream.file.contents a)
        × Chunks k s t'.out_stream.file.contents t.out_stream.size t'.out_stream.size
  unfolding mmap_streams
  loop_written os works k zero s t hL h hf closed max = absurd (let no : ⊥ = omega arith in no)
  loop_written os works zero (suc fuel) s t hL h hf closed max = (
    t,
    compress_loop_end (mmap_streams os) c.compress bound fuel s t (next s)
        (exact-end s (omega arith) hL),
    closed,
    (λ a ha. refl),
    refl,
  )
  loop_written os works (suc k) (suc fuel) s t hL h hf closed max =
      let o = t.out_stream in
      let room : s.offset + s.max_chunk_size ≤ s.size = grind arith in
      let size = after-size s o closed max in
      let (t', e, closed', before, rest) =
        loop_written os works k fuel (next s) (moved c.compress s t) hL (grind arith) (omega arith)
          (after-IsClosed s o closed max) (after-max s o closed max) in
      (
        t',
        round os works c.compress bound c.compress_bound fuel s t room ∙ e,
        closed',
        (λ a ha.
            before a (subst (λ (q : ℕ). a < q) (sym size) (omega arith))
            ∙ after_before s o closed max a ha),
        (
          (λ a.
              (opened c.compress (chunk_of s) o).file.contents
                ((opened c.compress (chunk_of s) o).size + a)),
          (λ i hi.
              before (o.size + i) (subst (λ (q : ℕ). o.size + i < q) (sym size) (omega arith))
              ∙ after_chunk s o closed max i hi),
          subst (λ (p : ℕ). Chunks k (next s) t'.out_stream.file.contents p t'.out_stream.size) size
              rest,
        ),
      )
