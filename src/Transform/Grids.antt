-- ===== src/Transform/Grids.antt =====
-- `differences` and `sums` in one, two and three dimensions, pass by pass.
use ndzip.Base.{
  ℕ, ◌+◌, ◌*◌, ◌<◌, ◌≡◌, refl, ap, ◌∙◌, ◌&&◌, arith, ltb, ◌==◌, if◌then◌else◌, for_up, fun_ext,
  ne→==,
}
use native.Mathlib.Decide.{ℕ_discrete}
use ndzip.Memory.{Memory}
use ndzip.Transform.{block_transform_step, inverse_block_transform_step, differences}
use ndzip.Transform.Regions.{Combines}
use ndzip.Transform.Cells.{cell, block, line, has_prev}
use ndzip.Transform.Steps.{
  difference, running_sum, block_transform_step-Combines, inverse_block_transform_step-Combines,
}
use ndzip.Transform.Passes.{one_block-Passes, blocks-Passes, rows-Passes}
use ndzip.Transform.Axes.{axis_difference}

-- The differences along every axis, in the order of the source.
unfoldable pub grid_differences : ℕ → ℕ → ℕ → Memory → Memory
unfolding axis_difference
grid_differences w dims n x =
    if dims == 1
    then axis_difference w n 1 1 x
    else if dims == 2
    then axis_difference w n n 1 (axis_difference w n 1 n x)
    else if dims == 3
    then axis_difference w n (n * n) 1 (axis_difference w n 1 (n * n) (axis_difference w n n n x))
    else x

-- The six passes of either direction, as combinations along the lines of stride `s`.
module _ (n : ℕ) (hn : 0 < n) (combine : ℕ → ℕ → ℕ → ℕ) (step : ℕ → ℕ → Memory → Memory)
    (acts : (s i j p : ℕ)
      → j < s
      → p ≡ cell n s i 0 j
      → Combines s
          (has_prev n s)
          combine
          (λ a. block n s a == i && line n s a == j)
          (step p s)) where
  square-pos : 0 < n * n
  square-pos = grind arith

  pub single_line : Combines 1 (has_prev n 1) combine (λ a. ltb (block n 1 a) 1) (step 0 1)
  single_line x a = ground (arith, acts 1 0 0 0 (omega arith) (omega arith) x a)

  pub rows :
      (outer limit : ℕ)
      → limit ≡ outer * n
      → Combines 1
          (has_prev n 1)
          combine
          (λ a. ltb (block n 1 a) outer)
          (for_up 0 limit n (λ i. step i 1))
  rows outer limit e =
      rows-Passes n 1 combine (λ p. step p 1) hn (omega arith) (acts 1) outer limit refl e

  pub columns :
      Combines n (has_prev n n) combine (λ a. ltb (block n n a) 1) (for_up 0 n 1 (λ i. step i n))
  columns = one_block-Passes n n combine (λ p. step p n) hn hn (acts n) (λ j. j) (λ j. refl)

  pub planes :
      Combines
        (n * n)
        (has_prev n (n * n))
        combine
        (λ a. ltb (block n (n * n) a) 1)
        (for_up 0 (n * n) 1 (λ i. step i (n * n)))
  planes =
      one_block-Passes n (n * n) combine (λ p. step p (n * n)) hn square-pos (acts (n * n)) (λ j. j)
        (λ j. refl)

  pub plane_columns :
      Combines n
        (has_prev n n)
        combine
        (λ a. ltb (block n n a) n)
        (for_up 0 (n * n * n) (n * n) (λ i. for_up 0 n 1 (λ j. step (i + j) n)))
  plane_columns =
      blocks-Passes n n combine (λ p. step p n) hn hn (acts n) n (n * n * n) (n * n) refl
        (omega arith)

module _ (w n : ℕ) (hn : 0 < n) where
  abbrev pub step : ℕ → ℕ → Memory → Memory
  step p s = block_transform_step w p n s

  abbrev pub inverse_step : ℕ → ℕ → Memory → Memory
  inverse_step p s = inverse_block_transform_step w p n s

  pub acts :
      (s i j p : ℕ)
      → j < s
      → p ≡ cell n s i 0 j
      → Combines s
          (has_prev n s)
          (difference w)
          (λ a. block n s a == i && line n s a == j)
          (step p s)
  acts s i j p hj e = block_transform_step-Combines w n s i j hn hj p e

  pub inverse_acts :
      (s i j p : ℕ)
      → j < s
      → p ≡ cell n s i 0 j
      → Combines s
          (has_prev n s)
          (running_sum w)
          (λ a. block n s a == i && line n s a == j)
          (inverse_step p s)
  inverse_acts s i j p hj e = inverse_block_transform_step-Combines w n s i j hn hj p e

  -- A pass of differences is the axis difference.
  pub eq-axis_difference :
      (s outer : ℕ) (f : Memory → Memory)
      → Combines s (has_prev n s) (difference w) (λ a. ltb (block n s a) outer) f
      → (x : Memory) → f x ≡ axis_difference w n s outer x
  unfolding axis_difference
  eq-axis_difference s outer f acts x = fun_ext λ a. acts x a

  pub rows-eq :
      (outer limit : ℕ)
      → limit ≡ outer * n
      → (x : Memory) → for_up 0 limit n (λ i. step i 1) x ≡ axis_difference w n 1 outer x
  rows-eq outer limit e =
      eq-axis_difference 1 outer _ (rows n hn (difference w) step acts outer limit e)

  columns-eq : (x : Memory) → for_up 0 n 1 (λ i. step i n) x ≡ axis_difference w n n 1 x
  columns-eq = eq-axis_difference n 1 _ (columns n hn (difference w) step acts)

  planes-eq :
      (x : Memory) → for_up 0 (n * n) 1 (λ i. step i (n * n)) x ≡ axis_difference w n (n * n) 1 x
  planes-eq = eq-axis_difference (n * n) 1 _ (planes n hn (difference w) step acts)

  plane_columns-eq :
      (x : Memory)
      → for_up 0 (n * n * n) (n * n) (λ i. for_up 0 n 1 (λ j. step (i + j) n)) x
        ≡ axis_difference w n n n x
  plane_columns-eq = eq-axis_difference n n _ (plane_columns n hn (difference w) step acts)

  -- With a side that is not 0, the passes of the transform compute the differences along all axes
  -- of the grid, each cell from the cells of the array before the pass.
  pub differences-eq :
      (dims : ℕ) (x : Memory) → differences w dims n x ≡ grid_differences w dims n x
  unfolding differences grid_differences
  differences-eq dims x = elim (ℕ_discrete dims 1) [
    | yes e ↦ rw e (eq-axis_difference 1 1 _ (single_line n hn (difference w) step acts) x)
    | no one ↦ elim (ℕ_discrete dims 2) [
      | yes e ↦ rw e (ap (for_up 0 n 1 (λ i. step i n)) (rows-eq n (n * n) refl x) ∙ columns-eq _)
      | no two ↦ elim (ℕ_discrete dims 3) [
        | yes e ↦ rw e (
            ap
              (λ y.
                for_up 0 (n * n) 1 (λ i. step i (n * n)) (for_up 0 (n * n * n) n (λ i. step i 1) y))
              (plane_columns-eq x)
            ∙ ap (for_up 0 (n * n) 1 (λ i. step i (n * n))) (rows-eq (n * n) (n * n * n) refl _)
            ∙ planes-eq _)
        | no three ↦ rw (ne→== dims 1 one, ne→== dims 2 two, ne→== dims 3 three)
      ]
    ]
  ]
