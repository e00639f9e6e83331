-- ===== src/Gpu/Scan/Blocks.antt =====
-- The scan of a block folds the items of the range.
use ndzip.Base.{
  ℕ, zero, suc, ◌+◌, ◌-◌, ◌*◌, ◌/◌, ◌%◌, ◌^◌, ◌≤◌, ◌<◌, ◌≡◌, refl, ap, ◌∙◌, arith, ltb,
  if◌then◌else◌, lt→ltb, le→leb, lt→leb,
}
use native.Mathlib.Decide.{dec_lt}
use ndzip.Stream.{div_ceil}
use ndzip.Gpu.Scan.{fine, scan_level, inclusive_scan}
use ndzip.Gpu.Scan.Folds.{fold_back, fold_back-cong, fold_back-append, fold_back-blocks}
use ndzip.Gpu.Scan.Warps.{warp_inclusive_scan-eq-fold_back}

module _ {A : Type 0} (op : A → A → A) (assoc : (a b c : A) → op (op a b) c ≡ op a (op b c))
    (nothing : A) where
  -- An item of the range has the fold of its warp's items.
  fine-eq-fold_back :
      (range : ℕ) (acc : ℕ → A) (item : ℕ)
      → item < range
      → fine op nothing range acc item ≡ fold_back op acc item (item % 32)
  unfolding fine
  fine-eq-fold_back range acc item h =
      let lanes : ℕ → A =
        λ lane. let i = item / 32 * 32 + lane in if ltb i range then acc i else nothing in
      warp_inclusive_scan-eq-fold_back op assoc lanes (item % 32) (omega arith)
      ∙ fold_back-cong op lanes acc (item % 32) item (item % 32) (λ j hj.
        let at : item / 32 * 32 + (item % 32 - j) ≡ item - j = omega arith in
        rw (at, lt→ltb (item - j) range (omega arith)) refl)

  first_warp :
      (range : ℕ) (acc : ℕ → A) (item : ℕ)
      → item < range
      → item < 32
      → fine op nothing range acc item ≡ fold_back op acc item item
  first_warp range acc item h first =
      fine-eq-fold_back range acc item h
      ∙ ap (fold_back op acc item) (let lane : item % 32 ≡ item = omega arith in lane)

  -- The fold of the warps before, and that of the item's warp.
  joined :
      (range : ℕ) (acc : ℕ → A) (item : ℕ)
      → item < range
      → 32 ≤ item
      → (coarse : ℕ → A)
      → ((v : ℕ)
          → v < item / 32
          → coarse v ≡ fold_back op (λ warp. fine op nothing range acc (warp * 32 + 31)) v v)
      → op (fine op nothing range acc item) (coarse (item / 32 - 1)) ≡ fold_back op acc item item
  joined range acc item h later coarse scanned =
      let v = item / 32 - 1 in
      let last : v * 32 + 31 ≡ item - suc (item % 32) = omega arith in
      let warps : coarse v ≡ fold_back op acc (v * 32 + 31) (v * 32 + 31) =
        scanned v (omega arith)
        ∙ fold_back-cong op (λ warp. fine op nothing range acc (warp * 32 + 31))
            (λ warp. fold_back op acc (warp * 32 + 31) 31) v v v
            (λ j hj.
              let lane : ((v - j) * 32 + 31) % 32 ≡ 31 = omega arith in
              rw lane at (fine-eq-fold_back range acc ((v - j) * 32 + 31) (omega arith)))
        ∙ fold_back-blocks op assoc acc 31 v v (omega arith) in
      let all : suc (item % 32) + (v * 32 + 31) ≡ item = omega arith in
      ap (λ a. op a (coarse v)) (fine-eq-fold_back range acc item h)
      ∙ ap (op (fold_back op acc item (item % 32)))
          (warps ∙ ap (λ n. fold_back op acc n (v * 32 + 31)) last)
      ∙ fold_back-append op assoc acc item (item % 32) (v * 32 + 31)
      ∙ ap (fold_back op acc item) all

  scan_level-eq-fold_back :
      (fuel range : ℕ) (acc : ℕ → A)
      → range ≤ fuel
      → range + 32 ≤ 2 ^ 32
      → (item : ℕ) → item < range
      → scan_level op nothing fuel range acc item ≡ fold_back op acc item item
  unfolding scan_level
  scan_level-eq-fold_back zero range acc enough small item h =
      absurd (let no : ⊥ = omega arith in no)
  scan_level-eq-fold_back (suc fuel) range acc enough small item h = elim (dec_lt 32 range) [
    | no one_warp ↦
        rw (le→leb range 32 (omega arith), lt→ltb item range h, scan_level)
          (first_warp range acc item h (omega arith))
    | yes more ↦
        rw (lt→leb range 32 more, lt→ltb item range h, scan_level)
          (elim (dec_lt item 32) [
            | yes first ↦ rw (lt→leb 32 item first) (first_warp range acc item h first)
            | no later ↦ rw (le→leb 32 item (omega arith)) (
                joined range acc item h (omega arith)
                  (scan_level op nothing fuel (div_ceil range 32)
                    (λ warp. fine op nothing range acc (warp * 32 + 31)))
                  (λ v hv.
                    scan_level-eq-fold_back fuel (div_ceil range 32) _ (omega arith) (omega arith) v
                      (omega arith)))
          ])
  ]

  pub inclusive_scan-eq-fold_back :
      (range : ℕ) (acc : ℕ → A)
      → range + 32 ≤ 2 ^ 32
      → (item : ℕ) → item < range
      → inclusive_scan op nothing range acc item ≡ fold_back op acc item item
  unfolding inclusive_scan
  inclusive_scan-eq-fold_back range acc small item h =
      scan_level-eq-fold_back range range acc (omega arith) small item h
