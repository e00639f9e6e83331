-- ===== src/ZeroBit/ZeroMap.antt =====
-- `generate_zero_map` has exactly the bits that some word of the chunk has.
use Prim.Native.Nat.{bit_or}
use ndzip.Base.{ℕ, suc, ◌+◌, ◌-◌, ◌*◌, ◌<◌, ◌≡◌, ap, ◌∙◌, sym, ◌↔◌, arith, for_up_inv, pow2-pos}
use native.Mathlib.Decide.{ℕ_discrete}
use ndzip.Base.Bits.{bit, bit_ext, zero-bit, bit-bit_or}
use ndzip.Word.{IsWord}
use ndzip.Word.Laws.{bit_or-IsWord}
use ndzip.Memory.{Memory}
use ndzip.ZeroBit.{generate_zero_map}
use ndzip.ZeroBit.Transpose.{IsTranspose}

module _ (w : ℕ) (u : Memory) (words : (j : ℕ) → j < w → IsWord w (u j)) where
  -- The map of the first `c` words.
  abbrev Covers : ℕ → ℕ → Type 0
  Covers c z = IsWord w z × ((t : ℕ) → (bit z t ≡ 0) ↔ ((j : ℕ) → j < c → bit (u j) t ≡ 0))

  Covers-suc : (c z : ℕ) → c < w → Covers c z → Covers (suc c) (bit_or z (u c))
  Covers-suc c z hc (word, bits) = (
    bit_or-IsWord w z (u c) word (words c hc),
    λ t. (
      (λ h j hj. elim (ℕ_discrete j c) [
        | yes e ↦ rw e (omega (arith, bit-bit_or z (u c) t))
        | no ne ↦ (bits t).0 (omega (arith, bit-bit_or z (u c) t)) j (omega arith)
      ]),
      (λ h.
          omega (
            arith,
            bit-bit_or z (u c) t,
            h c (omega arith),
            (bits t).1 (λ j hj. h j (omega arith)),
          )),
    ),
  )

  generate_zero_map-Covers : Covers w (generate_zero_map w u)
  unfolding generate_zero_map
  generate_zero_map-Covers =
      for_up_inv Covers w 0 w 1 (λ j z. bit_or z (u j)) 0 (omega arith) (omega arith)
        (λ c z lt h. let e : 0 + c * 1 ≡ c = omega arith in rw e (Covers-suc c z lt h))
        (pow2-pos w, λ t. ((λ h j hj. elim hj [ ]), (λ h. zero-bit t)))

  pub generate_zero_map-IsWord : IsWord w (generate_zero_map w u)
  generate_zero_map-IsWord = generate_zero_map-Covers.0

  -- For a chunk of words, the map is 0 exactly if every word of the chunk is.
  pub generate_zero_map-eq-zero : (generate_zero_map w u ≡ 0) ↔ ((j : ℕ) → j < w → u j ≡ 0)
  generate_zero_map-eq-zero = (
    (λ e j hj.
        bit_ext w (u j) 0 (words j hj) (pow2-pos w)
          λ t ht. (generate_zero_map-Covers.1 t).0 (rw e (zero-bit t)) j hj ∙ sym (zero-bit t)),
    (λ h. bit_ext w _ 0 generate_zero_map-IsWord (pow2-pos w) λ t ht.
        (generate_zero_map-Covers.1 t).1 (λ j hj. rw (h j hj) (zero-bit t)) ∙ sym (zero-bit t)),
  )

  -- A row of the transpose is 0 exactly if the map lacks its bit.
  pub transposed-eq-zero_iff :
      (q : ℕ) (out : Memory)
      → IsTranspose w u q out
      → (i : ℕ) → i < w
      → (bit (generate_zero_map w u) (w - 1 - i) ≡ 0) ↔ (out (q + i) ≡ 0)
  transposed-eq-zero_iff q out h i hi = (
    (λ e. bit_ext w (out (q + i)) 0 (h i hi).0 (pow2-pos w) λ t ht.
        (h i hi).1 t ht
        ∙ (generate_zero_map-Covers.1 (w - 1 - i)).0 e (w - 1 - t) (omega arith)
        ∙ sym (zero-bit t)),
    (λ e. (generate_zero_map-Covers.1 (w - 1 - i)).1 λ j hj.
        let f : w - 1 - (w - 1 - j) ≡ j = omega arith in
        let g : bit (out (q + i)) (w - 1 - j) ≡ 0 =
          ap (λ (t : ℕ). bit t (w - 1 - j)) e ∙ zero-bit (w - 1 - j) in
        ap (λ (t : ℕ). bit (u t) (w - 1 - i)) (sym f)
        ∙ sym ((h i hi).1 (w - 1 - j) (omega arith))
        ∙ g),
  )
