-- ===== src/Border/Scan.antt =====
-- What the loop that looks for the last dimension with a border finds.
use native.Mathlib.Decide.{ℕ_discrete}
use ndzip.Base.{
  ℕ, zero, suc, ◌+◌, ◌/◌, ◌%◌, ◌==◌, ◌≤◌, ◌<◌, ◌≡◌, ◌≢◌, inl, inr, arith, Option, none, some, false,
  Bool-cases, ne→==,
}
use ndzip.Extent.{Extent}
use ndzip.Border.{BorderScan, whole_array, with_border, border_scan}

-- The scan stops at a dimension without hypercubes, or at a dimension not before `e`.
abbrev pub Finds : ℕ → ℕ → BorderScan → Type 0
Finds e dims whole_array = Unit
Finds e dims (with_border none) = ⊥
Finds e dims (with_border (some last)) = (e ≤ last) × (last < dims)

Finds-le : (e e' dims : ℕ) (scan : BorderScan) → e' ≤ e → Finds e dims scan → Finds e' dims scan
Finds-le e e' dims whole_array h f = tt
Finds-le e e' dims (with_border none) h f = f
Finds-le e e' dims (with_border (some last)) h (le, lt) = (omega arith, lt)

module _ (size : Extent) (side : ℕ) where
  border_scan_kept :
      (left d k : ℕ) → k < d → Finds k (d + left) (border_scan size side left d (some k))
  unfolding border_scan
  border_scan_kept zero d k h = (omega arith, omega arith)
  border_scan_kept (suc left) d k h =
      let e : d + 1 + left ≡ d + suc left = omega arith in
      elim (Bool-cases (size d / side == 0)) [
        | inl whole ↦ rw whole tt
        | inr more ↦ elim (Bool-cases (size d % side == 0)) [
          | inl even ↦ rw (more, even, ← e) (border_scan_kept left (d + 1) k (omega arith))
          | inr odd ↦
              rw (more, odd, ← e)
                (Finds-le d k _ _ (omega arith) (border_scan_kept left (d + 1) d (omega arith)))
        ]
      ]

  pub border_scan-Finds :
      (left d e : ℕ) (small : Option ℕ)
      → d ≤ e
      → e < d + left
      → size e % side ≢ 0
      → Finds e (d + left) (border_scan size side left d small)
  unfolding border_scan
  border_scan-Finds zero d e small lo hi h = absurd (omega arith)
  border_scan-Finds (suc left) d e small lo hi h =
      let at : d + 1 + left ≡ d + suc left = omega arith in
      elim (Bool-cases (size d / side == 0)) [
        | inl whole ↦ rw whole tt
        | inr more ↦ elim (ℕ_discrete e d) [
          | yes here ↦
              let odd : (size d % side == 0) ≡ false = rw here at (ne→== (size e % side) 0 h) in
              rw (here, more, odd, ← at) (border_scan_kept left (d + 1) d (omega arith))
          | no ne ↦
              rw (more, ← at) (border_scan-Finds left (d + 1) e _ (omega arith) (omega arith) h)
        ]
      ]
