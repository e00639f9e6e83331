-- ===== src/Word/Complement.antt =====
-- `complement_negative` is its own inverse: it keeps the sign bit and flips the others under it.
use Prim.Native.Nat.{bit_xor, differ}
use ndzip.Base.{
  ℕ, zero, suc, ◌-◌, ◌*◌, ◌/◌, ◌^◌, ◌<◌, ◌≡◌, ◌≢◌, refl, ap, ◌∙◌, ◌⊎◌, inl, inr, arith, pow2-suc,
  pow2-pos, eq→==, ne→==,
}
use ndzip.Base.Bits.{bit, bit-lt, bit-eq, bit_ext, bit-bit_xor, bit-ge}
use ndzip.Word.{IsWord, shr, all_ones, complement_negative}
use ndzip.Word.Laws.{bit_xor-IsWord}
use native.Mathlib.Nat.{div-lt_iff_lt-mul}

differ-differ : (x y : ℕ) → x < 2 → y < 2 → differ (differ x y) y ≡ x
differ-differ zero zero h k = refl
differ-differ zero (suc zero) h k = refl
differ-differ (suc zero) zero h k = refl
differ-differ (suc zero) (suc zero) h k = refl
differ-differ x (suc (suc y)) h k = absurd (omega arith)
differ-differ (suc (suc x)) y h k = absurd (omega arith)

module _ (m : ℕ) where
  place : suc m - 1 ≡ m
  place = omega arith

  -- `~T{} >> 1`, the ones under the sign bit.
  mask : ℕ
  mask = shr (all_ones (suc m)) 1

  mask-lt : mask < 2 ^ m
  unfolding mask
  mask-lt = omega (arith, pow2-suc m, pow2-pos m)

  sign-eq : (v : ℕ) → IsWord (suc m) v → v / 2 ^ m ≡ bit v m
  sign-eq v h =
      let below : v < 2 ^ m * 2 = omega (arith, pow2-suc m) in
      omega (
        arith,
        bit-eq v m,
        (div-lt_iff_lt-mul {k = 2 ^ m} {x = v} {y = 2} (pow2-pos m)).1 (omega arith),
      )

  -- The two branches.
  complement_positive : (v : ℕ) → IsWord (suc m) v → bit v m ≡ 0 → complement_negative (suc m) v ≡ v
  unfolding complement_negative
  complement_positive v h e =
      let zero_sign : v / 2 ^ m ≡ 0 = omega (arith, sign-eq v h) in rw (place, eq→== _ _ zero_sign)

  complement_flip :
      (v : ℕ) → IsWord (suc m) v → bit v m ≡ 1 → complement_negative (suc m) v ≡ bit_xor v mask
  unfolding complement_negative mask
  complement_flip v h e =
      let nonzero : v / 2 ^ m ≢ 0 = omega (arith, sign-eq v h) in rw (place, ne→== _ _ nonzero)

  bit-mask : bit mask m ≡ 0
  bit-mask = bit-ge m mask m mask-lt (omega arith)

  xor-IsWord : (v : ℕ) → IsWord (suc m) v → IsWord (suc m) (bit_xor v mask)
  xor-IsWord v h = bit_xor-IsWord (suc m) v mask h (omega (arith, mask-lt, pow2-suc m))

  sign_cases : (v : ℕ) → (bit v m ≡ 0) ⊎ (bit v m ≡ 1)
  sign_cases v = grind (arith, bit-lt v m)

  pub complement_negative-IsWord :
      (v : ℕ) → IsWord (suc m) v → IsWord (suc m) (complement_negative (suc m) v)
  complement_negative-IsWord v h = elim (sign_cases v) [
    | inl e ↦ rw (complement_positive v h e) h
    | inr e ↦ rw (complement_flip v h e) (xor-IsWord v h)
  ]

  xor_twice : (v : ℕ) → IsWord (suc m) v → bit_xor (bit_xor v mask) mask ≡ v
  xor_twice v h = bit_ext (suc m) _ v (xor-IsWord _ (xor-IsWord v h)) h λ k lt.
      bit-bit_xor (bit_xor v mask) mask k
      ∙ ap (λ (t : ℕ). differ t (bit mask k)) (bit-bit_xor v mask k)
      ∙ differ-differ (bit v k) (bit mask k) (bit-lt v k) (bit-lt mask k)

  differ-zero : (x : ℕ) → differ x 0 ≡ x
  differ-zero zero = refl
  differ-zero (suc x) = refl

  -- For a word of at least one bit, two complements give the word again.
  pub complement_negative_twice :
      (v : ℕ) → IsWord (suc m) v → complement_negative (suc m) (complement_negative (suc m) v) ≡ v
  complement_negative_twice v h = elim (sign_cases v) [
    | inl e ↦ rw (complement_positive v h e) (complement_positive v h e)
    | inr e ↦
        let sign : bit (bit_xor v mask) m ≡ 1 =
          bit-bit_xor v mask m
          ∙ ap (λ (t : ℕ). differ (bit v m) t) bit-mask
          ∙ differ-zero (bit v m)
          ∙ e in
        rw (complement_flip v h e) (complement_flip _ (xor-IsWord v h) sign ∙ xor_twice v h)
  ]
