-- ===== src/ZeroBit/Transpose.antt =====
-- `transpose_bits_trivial` transposes the square matrix of a chunk's bits, and is its own inverse.
use Prim.Native.Nat.{bit_or}
use native.Mathlib.Decide.{ℕ_discrete, dec_lt}
use native.Mathlib.Nat.{mod-lt}
use ndzip.Base.{
  ℕ, zero, suc, ◌+◌, ◌-◌, ◌*◌, ◌^◌, ◌≤◌, ◌<◌, ◌≡◌, ◌≢◌, refl, ap, ◌∙◌, ◌⊎◌, arith, leb, ◌==◌,
  if◌then◌else◌, for_up, for_up_inv, pow2-pos,
}
use ndzip.Base.Bits.{
  bit, bit_ext, zero-bit, bit-ge, bit-bit_or, bit-eq, bit-mod_pow2, bit-mul_pow2, bit-mul_pow2_low,
}
use ndzip.Word.{IsWord, shl, shr}
use ndzip.Word.Laws.{bit_or-IsWord}
use ndzip.Memory.{Memory, update, update_self, update_ne}
use ndzip.ZeroBit.{low_bit, transpose_round, transpose_row, transpose_bits_trivial}

-- The bits of one bit `b` that is shifted to place `s`.
bit-shl-bit : (w b s t : ℕ) → b < 2 → t < w → bit (shl w b s) t ≡ (if t == s then b else 0)
bit-shl-bit w b s t hb ht = bit-mod_pow2 w t (b * 2 ^ s) ht ∙ place
  where
    high : (k : ℕ) → s + k ≡ t → bit (b * 2 ^ s) t ≡ (if t == s then b else 0)
    high zero e = rw (← e) (bit-mul_pow2 s 0 b ∙ ground arith)
    high (suc k) e =
        let none : bit b (suc k) ≡ 0 = bit-ge 1 b (suc k) (omega arith) (omega arith) in
        rw (← e) (bit-mul_pow2 s (suc k) b ∙ none ∙ ground arith)

    place : bit (b * 2 ^ s) t ≡ (if t == s then b else 0)
    place = elim (dec_lt t s) [
      | yes lt ↦ bit-mul_pow2_low s t b lt ∙ ground arith
      | no ge ↦ high (t - s) (omega arith)
    ]

module _ (w : ℕ) (vs : Memory) (q : ℕ) where
  -- Row `i` of the transpose: its bit `t` is the bit `w - 1 - i` of the word `w - 1 - t`.
  abbrev pub IsRow : ℕ → ℕ → Type 0
  IsRow i v = IsWord w v × ((t : ℕ) → t < w → bit v t ≡ bit (vs (w - 1 - t)) (w - 1 - i))

  abbrev pub IsTranspose : Memory → Type 0
  IsTranspose out = (i : ℕ) → i < w → IsRow i (out (q + i))

  module _ (i : ℕ) (hi : i < w) (out : Memory) where
    -- The row after `c` rounds: the bits from the top that the first `c` words give.
    abbrev RowUpTo : ℕ → Memory → Type 0
    RowUpTo c y =
        ((a : ℕ) → a ≢ q + i → y a ≡ out a)
        × IsWord w (y (q + i))
        × ((t : ℕ)
            → t < w
            → bit (y (q + i)) t ≡ (if leb w (t + c) then bit (vs (w - 1 - t)) (w - 1 - i) else 0))

    RowUpTo-suc :
        (c : ℕ) (y : Memory) → c < w → RowUpTo c y → RowUpTo (suc c) (transpose_round w vs q i c y)
    unfolding transpose_round
    RowUpTo-suc c y hc (others, word, bits) =
        let b = low_bit (shr (vs c) (w - 1 - i)) in
        let new = bit_or (y (q + i)) (shl w b (w - 1 - c)) in
        let here = update_self y (q + i) new (q + i) refl in
        (
          (λ a ne. update_ne y (q + i) new a ne ∙ others a ne),
          rw here (bit_or-IsWord w _ _ word (mod-lt _ (pow2-pos w))),
          (λ t ht. rw here (
              bit-bit_or (y (q + i)) (shl w b (w - 1 - c)) t
              ∙ ground (
                arith,
                bits t ht,
                bit-shl-bit w b (w - 1 - c) t,
                bit-eq (vs c) (w - 1 - i),
                ap (λ (s : ℕ). bit (vs s) (w - 1 - i)) {x = w - 1 - t} {y = c},
              ))),
        )

    -- A round of the outer loop makes row `i`, and touches no other word.
    transpose_row-IsRow :
        ((a : ℕ) → a ≢ q + i → transpose_row w vs q i out a ≡ out a)
        × IsRow i (transpose_row w vs q i out (q + i))
    unfolding transpose_row
    transpose_row-IsRow =
        let cleared = update out (q + i) 0 in
        let self = update_self out (q + i) 0 (q + i) refl in
        let all : RowUpTo w (for_up 0 w 1 (transpose_round w vs q i) cleared) =
          for_up_inv RowUpTo w 0 w 1 (transpose_round w vs q i) cleared (omega arith) (omega arith)
            (λ c y lt h. let e : 0 + c * 1 ≡ c = omega arith in rw e (RowUpTo-suc c y lt h))
            (
              (λ a ne. update_ne out (q + i) 0 a ne),
              rw self (pow2-pos w),
              (λ t ht. rw self (zero-bit t ∙ ground arith)),
            ) in
        (all.0, (all.1, λ t ht. all.2 t ht ∙ ground arith))

  -- `out` after the rows below `c`.
  abbrev RowsUpTo : Memory → ℕ → Memory → Type 0
  RowsUpTo out c y =
      ((a : ℕ) → (a < q) ⊎ (q + w ≤ a) → y a ≡ out a) × ((i : ℕ) → i < c → IsRow i (y (q + i)))

  RowsUpTo-suc :
      (out : Memory) (c : ℕ) (y : Memory)
      → c < w
      → RowsUpTo out c y
      → RowsUpTo out (suc c) (transpose_row w vs q c y)
  RowsUpTo-suc out c y hc (others, rows) =
      let (kept, row) = transpose_row-IsRow c hc y in
      (
        (λ a h. kept a (omega arith) ∙ others a h),
        (λ i hi. elim (ℕ_discrete i c) [
          | yes e ↦ rw e row
          | no ne ↦ rw (kept (q + i) (omega arith)) (rows i (omega arith))
        ]),
      )

  transpose_bits_trivial-RowsUpTo :
      (out : Memory) → RowsUpTo out w (transpose_bits_trivial w vs q out)
  unfolding transpose_bits_trivial
  transpose_bits_trivial-RowsUpTo out =
      for_up_inv (RowsUpTo out) w 0 w 1 (transpose_row w vs q) out (omega arith) (omega arith)
        (λ c y lt h. let e : 0 + c * 1 ≡ c = omega arith in rw e (RowsUpTo-suc out c y lt h))
        ((λ a h. refl), (λ i h. elim h [ ]))

  -- The words from `q` on become the transpose of the words of `vs`.
  pub transpose_bits_trivial-IsTranspose :
      (out : Memory) → IsTranspose (transpose_bits_trivial w vs q out)
  transpose_bits_trivial-IsTranspose out = (transpose_bits_trivial-RowsUpTo out).1

  pub transpose_bits_trivial_outside :
      (out : Memory) (a : ℕ) → (a < q) ⊎ (q + w ≤ a) → transpose_bits_trivial w vs q out a ≡ out a
  transpose_bits_trivial_outside out = (transpose_bits_trivial-RowsUpTo out).0

-- The transpose of a transpose has the words of the chunk.
pub IsTranspose-twice :
    (w q : ℕ) (vs mid out : Memory)
    → ((i : ℕ) → i < w → IsWord w (vs i))
    → IsTranspose w vs 0 mid
    → IsTranspose w mid q out
    → (i : ℕ) → i < w
    → out (q + i) ≡ vs i
IsTranspose-twice w q vs mid out words there back i hi =
    bit_ext w (out (q + i)) (vs i) (back i hi).0 (words i hi) λ t ht.
      let e : w - 1 - (w - 1 - i) ≡ i = omega arith in
      let f : w - 1 - (w - 1 - t) ≡ t = omega arith in
      (back i hi).1 t ht
      ∙ ap (λ (a : ℕ). bit (mid a) (w - 1 - i))
          (let z : w - 1 - t ≡ 0 + (w - 1 - t) = omega arith in z)
      ∙ (there (w - 1 - t) (omega arith)).1 (w - 1 - i) (omega arith)
      ∙ rw (e, f)
