-- ===== src/Gpu/Banks.antt =====
-- The cells of a hypercube do not share banks.
use ndzip.Base.{
  ℕ, ◌+◌, ◌*◌, ◌/◌, ◌≤◌, ◌<◌, ◌≡◌, ◌≢◌, refl, ap, subst, sym, ◌∙◌, arith, ◌⊎◌, inl, inr, ◌%◌, ◌^◌,
  ◌==◌, if◌then◌else◌, eq→==, ne→==,
}
use native.Mathlib.Decide.{dec_lt}
use native.Mathlib.Decide.{ℕ_discrete}
use ndzip.Memory.{Memory, update, update_self, update_ne}
use ndzip.Gpu.{Layout, forward_1, forward_2, inverse_2, both_3, pad, load, store}

pub pad_apart_1 : (layout : Layout) (i j : ℕ) → i < j → pad layout 1 i + 1 ≤ pad layout 1 j
unfolding pad
pad_apart_1 forward_1 i j h = omega arith
pad_apart_1 forward_2 i j h = omega arith
pad_apart_1 inverse_2 i j h = omega arith
pad_apart_1 both_3 i j h = omega arith

pub pad_apart_2 : (layout : Layout) (i j : ℕ) → i < j → pad layout 2 i + 2 ≤ pad layout 2 j
unfolding pad
pad_apart_2 forward_1 i j h = omega arith
pad_apart_2 forward_2 i j h = omega arith
pad_apart_2 inverse_2 i j h = omega arith
pad_apart_2 both_3 i j h = omega arith

-- The banks of two cells of two banks each.
abbrev AreApart : ℕ → ℕ → Type 0
AreApart p q = (q ≢ p) × (q ≢ p + 1) × (q + 1 ≢ p) × (q + 1 ≢ p + 1)

module _ (layout : Layout) (i j : ℕ) where
  apart_1 : j ≢ i → pad layout 1 j ≢ pad layout 1 i
  apart_1 ne = elim (dec_lt i j) [
    | yes lt ↦ let h = pad_apart_1 layout i j lt in omega arith
    | no ge ↦ let h = pad_apart_1 layout j i (omega arith) in omega arith
  ]

  pad-AreApart : j ≢ i → AreApart (pad layout 2 i) (pad layout 2 j)
  pad-AreApart ne = elim (dec_lt i j) [
    | yes lt ↦
        let h = pad_apart_2 layout i j lt in (omega arith, omega arith, omega arith, omega arith)
    | no ge ↦
        let h = pad_apart_2 layout j i (omega arith) in
        (omega arith, omega arith, omega arith, omega arith)
  ]

module _ (layout : Layout) (memory : Memory) (i j bits : ℕ) where
  load-store_1 :
      load layout 1 (store layout 1 i bits memory) j
      ≡ (if j == i then bits else load layout 1 memory j)
  unfolding load store
  load-store_1 = elim (ℕ_discrete j i) [
    | yes e ↦
        update_self memory (pad layout 1 i) bits (pad layout 1 j) (ap (pad layout 1) e)
        ∙ rw (eq→== j i e) refl
    | no ne ↦
        update_ne memory (pad layout 1 i) bits (pad layout 1 j) (apart_1 layout i j ne)
        ∙ rw (ne→== j i ne) refl
  ]

two_banks : {a a' b b' : ℕ} → a ≡ a' → b ≡ b' → a + b * 2 ^ 32 ≡ a' + b' * 2 ^ 32
two_banks h h' = omega arith

module _ (memory : Memory) (p lower upper : ℕ) where
  abbrev stored : Memory
  stored = update (update memory p lower) (p + 1) upper

  stored-lower : (q : ℕ) → q ≡ p → stored q ≡ lower
  stored-lower q e =
      update_ne (update memory p lower) (p + 1) upper q (omega arith)
      ∙ update_self memory p lower q e

  stored-upper : (q : ℕ) → q ≡ p + 1 → stored q ≡ upper
  stored-upper q e = update_self (update memory p lower) (p + 1) upper q e

  stored_ne : (q : ℕ) → q ≢ p → q ≢ p + 1 → stored q ≡ memory q
  stored_ne q ne ne' =
      update_ne (update memory p lower) (p + 1) upper q ne' ∙ update_ne memory p lower q ne

module _ (layout : Layout) (memory : Memory) (i j bits : ℕ) where
  load-store_2 :
      bits < 2 ^ 64
      → load layout 2 (store layout 2 i bits memory) j
        ≡ (if j == i then bits else load layout 2 memory j)
  unfolding load store
  load-store_2 fits =
      let p = pad layout 2 i in
      let q = pad layout 2 j in
      let lower = bits % 2 ^ 32 in
      let upper = bits / 2 ^ 32 in
      elim (ℕ_discrete j i) [
        | yes e ↦
            two_banks (stored-lower memory p lower upper q (ap (pad layout 2) e))
              (stored-upper memory p lower upper (q + 1) (ap (λ (c : ℕ). pad layout 2 c + 1) e))
            ∙ (let whole : lower + upper * 2 ^ 32 ≡ bits = omega arith in whole)
            ∙ rw (eq→== j i e) refl
        | no ne ↦
            let (a, b, c, d) = pad-AreApart layout i j ne in
            two_banks (stored_ne memory p lower upper q a b)
              (stored_ne memory p lower upper (q + 1) c d)
            ∙ rw (ne→== j i ne) refl
      ]

  -- For values of 32 or of 64 bits, one or two banks wide, in every layout: a cell that was stored is
  -- loaded as it was, and every other cell is loaded as before the store.
  pub load-store :
      (value_width : ℕ)
      → (value_width ≡ 1) ⊎ (value_width ≡ 2)
      → bits < 2 ^ (32 * value_width)
      → load layout value_width (store layout value_width i bits memory) j
        ≡ (if j == i then bits else load layout value_width memory j)
  load-store value_width (inl e) fits =
      subst
        (λ (w : ℕ).
          load layout w (store layout w i bits memory) j
          ≡ (if j == i then bits else load layout w memory j))
        (sym e) (load-store_1 layout memory i j bits)
  load-store value_width (inr e) fits =
      subst
        (λ (w : ℕ).
          load layout w (store layout w i bits memory) j
          ≡ (if j == i then bits else load layout w memory j))
        (sym e) (load-store_2 (subst (λ (w : ℕ). bits < 2 ^ (32 * w)) e fits))
