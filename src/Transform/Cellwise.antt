-- ===== src/Transform/Cellwise.antt =====
-- `for_each_cell` applies its function to each cell, and touches no other.
use ndzip.Base.{ℕ, suc, ◌+◌, ◌*◌, ◌≡◌, refl, ◌∙◌, arith, ltb, if◌then◌else◌, for_up_inv}
use native.Mathlib.Decide.{ℕ_discrete}
use ndzip.Memory.{Memory, update, update_self, update_ne}
use ndzip.Transform.{for_each_cell}

module _ (f : ℕ → ℕ) (x : Memory) where
  abbrev Reached : ℕ → Memory → Type 0
  Reached c y = (a : ℕ) → y a ≡ (if ltb a c then f (x a) else x a)

  Reached-suc : (c : ℕ) (y : Memory) → Reached c y → Reached (suc c) (update y c (f (y c)))
  Reached-suc c y h a = elim (ℕ_discrete a c) [
    | yes e ↦ rw e (update_self y c _ c refl ∙ ground (arith, h c))
    | no ne ↦ update_ne y c _ a ne ∙ ground (arith, h a)
  ]

  pub for_each_cell-eq :
      (cells a : ℕ) → for_each_cell cells f x a ≡ (if ltb a cells then f (x a) else x a)
  unfolding for_each_cell
  for_each_cell-eq cells =
      for_up_inv Reached cells 0 cells 1 (λ i y. update y i (f (y i))) x (omega arith) (omega arith)
        (λ c y lt h. let e : 0 + c * 1 ≡ c = omega arith in rw e (Reached-suc c y h))
        (λ a. ground arith)
