-- ===== src/Extent/Pointwise.antt =====
-- The operators that assign each component in turn, as functions of the component.
use native.Mathlib.Decide.{ℕ_discrete}
use ndzip.Base.{
  ℕ, suc, ◌+◌, ◌*◌, ◌/◌, ◌≡◌, refl, ◌∙◌, arith, ltb, if◌then◌else◌, for_up, for_up_inv,
}
use ndzip.Word.{u32}
use ndzip.Memory.{update, update_self, update_ne}
use ndzip.Extent.{Extent, mul_extent, div_extent}

module _ (g : ℕ → ℕ → ℕ) (left : Extent) where
  abbrev Assigned : ℕ → Extent → Type 0
  Assigned c e = (d : ℕ) → e d ≡ (if ltb d c then g d (left d) else left d)

  Assigned-suc : (c : ℕ) (e : Extent) → Assigned c e → Assigned (suc c) (update e c (g c (e c)))
  Assigned-suc c e h d = elim (ℕ_discrete d c) [
    | yes same ↦ rw same (update_self e c _ c refl ∙ ground (arith, h c))
    | no ne ↦ update_ne e c _ d ne ∙ ground (arith, h d)
  ]

  pub assign-eq :
      (dims d : ℕ)
      → for_up 0 dims 1 (λ d e. update e d (g d (e d))) left d
        ≡ (if ltb d dims then g d (left d) else left d)
  assign-eq dims =
      for_up_inv Assigned dims 0 dims 1 (λ d e. update e d (g d (e d))) left (omega arith)
        (omega arith)
        (λ c e lt h. let at : 0 + c * 1 ≡ c = omega arith in rw at (Assigned-suc c e h))
        (λ d. ground arith)

pub div_extent-at :
    (dims : ℕ) (left : Extent) (other d : ℕ)
    → div_extent dims left other d ≡ (if ltb d dims then left d / other else left d)
unfolding div_extent
div_extent-at dims left other = assign-eq (λ d v. v / other) left dims

pub mul_extent-at :
    (dims : ℕ) (left : Extent) (other d : ℕ)
    → mul_extent dims left other d ≡ (if ltb d dims then u32 (left d * other) else left d)
unfolding mul_extent
mul_extent-at dims left other = assign-eq (λ d v. u32 (v * other)) left dims
