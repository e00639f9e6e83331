-- ===== src/Word/Rotate.antt =====
-- `rotate_left_1` and `rotate_right_1` are inverse permutations of the words.
use ndzip.Base.{ℕ, zero, suc, ◌+◌, ◌-◌, ◌*◌, ◌/◌, ◌%◌, ◌^◌, ◌<◌, ◌≡◌, ap, ◌∙◌, arith, pow2-pos}
use ndzip.Base.Bits.{bit, bit_ext, bit-ge, bit-bit_or}
use ndzip.Base.Bits.{bit-mul_pow2, bit-mul_pow2_low, bit-div_pow2, bit-mod_pow2}
use ndzip.Word.{IsWord, rotate_left_1, rotate_right_1}
use ndzip.Word.Laws.{bit_or-IsWord}
use native.Mathlib.Decide.{ℕ_discrete}
use native.Mathlib.Nat.{mod-lt, div-le_self}

-- A word has at least one bit: the width is `suc m`, and `m` is the place of the sign.
module _ (m : ℕ) where
  pub rotate_left_1-IsWord : (v : ℕ) → IsWord (suc m) v → IsWord (suc m) (rotate_left_1 (suc m) v)
  unfolding rotate_left_1
  rotate_left_1-IsWord v h =
      bit_or-IsWord (suc m) _ _ (mod-lt _ (pow2-pos (suc m)))
        (omega (arith, div-le_self v (2 ^ (suc m - 1))))

  pub rotate_right_1-IsWord : (v : ℕ) → IsWord (suc m) v → IsWord (suc m) (rotate_right_1 (suc m) v)
  unfolding rotate_right_1
  rotate_right_1-IsWord v h = bit_or-IsWord (suc m) _ _ (omega arith) (mod-lt _ (pow2-pos (suc m)))

  place : suc m - 1 ≡ m
  place = omega arith

  bit-rotate_left_1 :
      (v : ℕ)
      → IsWord (suc m) v
      → (bit (rotate_left_1 (suc m) v) 0 ≡ bit v m)
        × ((t : ℕ) → t < m → bit (rotate_left_1 (suc m) v) (suc t) ≡ bit v t)
  unfolding rotate_left_1
  bit-rotate_left_1 v h = (
    rw place (
        omega (
          arith,
          bit-bit_or (v * 2 ^ 1 % 2 ^ suc m) (v / 2 ^ m) 0,
          bit-mod_pow2 (suc m) 0 (v * 2 ^ 1) (omega arith),
          bit-mul_pow2_low 1 0 v (omega arith),
          ap (λ (t : ℕ). bit v t) (let e : m + 0 ≡ m = omega arith in e),
          bit-div_pow2 m 0 v,
        )),
    λ t lt. rw place (
        omega (
          arith,
          bit-bit_or (v * 2 ^ 1 % 2 ^ suc m) (v / 2 ^ m) (suc t),
          bit-mod_pow2 (suc m) (suc t) (v * 2 ^ 1) (omega arith),
          ap (λ (s : ℕ). bit (v * 2 ^ 1) s) (let e : 1 + t ≡ suc t = omega arith in e),
          bit-mul_pow2 1 t v,
          bit-div_pow2 m (suc t) v,
          bit-ge (suc m) v (m + suc t) h (omega arith),
        )),
  )

  bit-rotate_right_1 :
      (v : ℕ)
      → IsWord (suc m) v
      → (bit (rotate_right_1 (suc m) v) m ≡ bit v 0)
        × ((t : ℕ) → t < m → bit (rotate_right_1 (suc m) v) t ≡ bit v (suc t))
  unfolding rotate_right_1
  bit-rotate_right_1 v h = (
    rw place (
        omega (
          arith,
          bit-bit_or (v / 2 ^ 1) (v * 2 ^ m % 2 ^ suc m) m,
          bit-div_pow2 1 m v,
          bit-ge (suc m) v (1 + m) h (omega arith),
          bit-mod_pow2 (suc m) m (v * 2 ^ m) (omega arith),
          ap (λ (t : ℕ). bit (v * 2 ^ m) t) (let e : m + 0 ≡ m = omega arith in e),
          bit-mul_pow2 m 0 v,
        )),
    λ t lt. rw place (
        omega (
          arith,
          bit-bit_or (v / 2 ^ 1) (v * 2 ^ m % 2 ^ suc m) t,
          bit-div_pow2 1 t v,
          ap (λ (s : ℕ). bit v s) (let e : 1 + t ≡ suc t = omega arith in e),
          bit-mod_pow2 (suc m) t (v * 2 ^ m) (omega arith),
          bit-mul_pow2_low m t v lt,
        )),
  )

  pub rotate_right_1-rotate_left_1 :
      (v : ℕ) → IsWord (suc m) v → rotate_right_1 (suc m) (rotate_left_1 (suc m) v) ≡ v
  rotate_right_1-rotate_left_1 v h = bit_ext (suc m) _ v (rotate_right_1-IsWord u hu) h same
    where
      u : ℕ
      u = rotate_left_1 (suc m) v

      hu : IsWord (suc m) u
      hu = rotate_left_1-IsWord v h

      same : (t : ℕ) → t < suc m → bit (rotate_right_1 (suc m) u) t ≡ bit v t
      same t lt = elim (ℕ_discrete t m) [
        | yes e ↦ rw e ((bit-rotate_right_1 u hu).0 ∙ (bit-rotate_left_1 v h).0)
        | no ne ↦
            let below : t < m = omega arith in
            (bit-rotate_right_1 u hu).1 t below ∙ (bit-rotate_left_1 v h).1 t below
      ]

  pub rotate_left_1-rotate_right_1 :
      (v : ℕ) → IsWord (suc m) v → rotate_left_1 (suc m) (rotate_right_1 (suc m) v) ≡ v
  rotate_left_1-rotate_right_1 v h = bit_ext (suc m) _ v (rotate_left_1-IsWord u hu) h same
    where
      u : ℕ
      u = rotate_right_1 (suc m) v

      hu : IsWord (suc m) u
      hu = rotate_right_1-IsWord v h

      same : (t : ℕ) → t < suc m → bit (rotate_left_1 (suc m) u) t ≡ bit v t
      same zero lt = (bit-rotate_left_1 u hu).0 ∙ (bit-rotate_right_1 v h).0
      same (suc t) lt =
          (bit-rotate_left_1 u hu).1 t (omega arith) ∙ (bit-rotate_right_1 v h).1 t (omega arith)

  -- For a word of at least one bit, rotating to the left and back to the right gives the word
  -- again, and so does rotating to the right and back to the left.
  pub rotations_undo_each_other :
      (v : ℕ)
      → IsWord (suc m) v
      → (rotate_right_1 (suc m) (rotate_left_1 (suc m) v) ≡ v)
        × (rotate_left_1 (suc m) (rotate_right_1 (suc m) v) ≡ v)
  rotations_undo_each_other v h =
      (rotate_right_1-rotate_left_1 v h, rotate_left_1-rotate_right_1 v h)
