-- ===== src/Transform/Inverse.antt =====
-- `inverse_block_transform` undoes `block_transform`.
use native.Mathlib.Decide.{ℕ_discrete}
use native.Mathlib.Nat.{pow-suc, pow-zero}
use ndzip.Base.{ℕ, ◌+◌, ◌*◌, ◌^◌, ◌<◌, ◌≡◌, refl, ap, ◌∙◌, arith, ltb, for_up, ne→==}
use ndzip.Memory.{Memory}
use ndzip.Transform.{differences, sums}
use ndzip.Transform.Regions.{Combines}
use ndzip.Transform.Cells.{block, has_prev}
use ndzip.Transform.Steps.{running_sum}
use ndzip.Transform.Axes.{
  Words, axis_difference, axis_difference-Words, running_sum-axis_difference,
}
use ndzip.Transform.Grids.{
  grid_differences, differences-eq, inverse_step, inverse_acts, single_line, rows, columns, planes,
  plane_columns,
}

module _ (w n : ℕ) (hn : 0 < n) where
  pub pow-one : n ^ 1 ≡ n
  pow-one = pow-suc n 0 ∙ ap (λ (t : ℕ). t * n) (pow-zero n) ∙ omega arith

  pub pow-two : n ^ 2 ≡ n * n
  pow-two = pow-suc n 1 ∙ ap (λ (t : ℕ). t * n) pow-one

  pub pow-three : n ^ 3 ≡ n * n * n
  pow-three = pow-suc n 2 ∙ ap (λ (t : ℕ). t * n) pow-two

  -- A pass of running sums undoes one axis difference.
  pub undo :
      (s outer size : ℕ) (f : Memory → Memory)
      → 0 < s
      → Combines s (has_prev n s) (running_sum w) (λ a. ltb (block n s a) outer) f
      → size ≡ outer * (n * s)
      → (x : Memory) → Words w size x
      → (f (axis_difference w n s outer x) ≡ x) × Words w size (axis_difference w n s outer x)
  undo s outer size f hs acts e x h = (
    running_sum-axis_difference w n s outer hn hs f acts x (rw (← e) h),
    rw e (axis_difference-Words w n s outer hn hs x (rw (← e) h)),
  )

  sums-two : (x : Memory) → Words w (n * n) x → sums w 2 n (grid_differences w 2 n x) ≡ x
  unfolding sums grid_differences
  sums-two x h =
      let first =
        undo 1 n (n * n) _ (omega arith)
          (rows n hn (running_sum w) (inverse_step w n hn) (inverse_acts w n hn) n (n * n) refl)
          (omega arith) x h in
      let second =
        undo n 1 (n * n) _ hn
          (columns n hn (running_sum w) (inverse_step w n hn) (inverse_acts w n hn)) (omega arith) _
          first.1 in
      ap (for_up 0 (n * n) n (λ i. inverse_step w n hn i 1)) second.0 ∙ first.0

  sums-one : (x : Memory) → Words w n x → sums w 1 n (grid_differences w 1 n x) ≡ x
  unfolding sums grid_differences
  sums-one x h =
      (undo 1 1 n _ (omega arith)
        (single_line n hn (running_sum w) (inverse_step w n hn) (inverse_acts w n hn)) (omega arith)
        x h).0

  sums-three : (x : Memory) → Words w (n * n * n) x → sums w 3 n (grid_differences w 3 n x) ≡ x
  unfolding sums grid_differences
  sums-three x h =
      let first =
        undo n n (n * n * n) _ hn
          (plane_columns n hn (running_sum w) (inverse_step w n hn) (inverse_acts w n hn))
          (omega arith) x h in
      let second =
        undo 1 (n * n) (n * n * n) _ (omega arith)
          (rows n hn (running_sum w) (inverse_step w n hn) (inverse_acts w n hn) (n * n) (n * n * n)
            refl)
          (omega arith) _ first.1 in
      let third =
        undo (n * n) 1 (n * n * n) _ (grind arith)
          (planes n hn (running_sum w) (inverse_step w n hn) (inverse_acts w n hn)) (omega arith) _
          second.1 in
      ap
        (λ y.
          for_up 0 (n * n * n) (n * n) (λ i. for_up 0 n 1 (λ j. inverse_step w n hn (i + j) n))
            (for_up 0 (n * n * n) n (λ i. inverse_step w n hn i 1) y))
        third.0
      ∙ ap (for_up 0 (n * n * n) (n * n) (λ i. for_up 0 n 1 (λ j. inverse_step w n hn (i + j) n)))
          second.0
      ∙ first.0

  -- The sums undo the differences, in every number of dimensions.
  pub sums-differences :
      (dims : ℕ) (x : Memory) → Words w (n ^ dims) x → sums w dims n (differences w dims n x) ≡ x
  unfolding sums differences
  sums-differences dims x h = elim (ℕ_discrete dims 1) [
    | yes e ↦ rw (differences-eq w n hn dims x, e) (sums-one x (rw (e, pow-one) at h))
    | no one ↦ elim (ℕ_discrete dims 2) [
      | yes e ↦ rw (differences-eq w n hn dims x, e) (sums-two x (rw (e, pow-two) at h))
      | no two ↦ elim (ℕ_discrete dims 3) [
        | yes e ↦ rw (differences-eq w n hn dims x, e) (sums-three x (rw (e, pow-three) at h))
        | no three ↦ rw (ne→== dims 1 one, ne→== dims 2 two, ne→== dims 3 three)
      ]
    ]
  ]

  axis_step :
      (s outer size : ℕ)
      → 0 < s
      → size ≡ outer * (n * s)
      → (x : Memory) → Words w size x
      → Words w size (axis_difference w n s outer x)
  axis_step s outer size hs e x h = rw e (axis_difference-Words w n s outer hn hs x (rw (← e) h))

  grid_differences-Words :
      (dims : ℕ) (x : Memory)
      → Words w (n ^ dims) x
      → Words w (n ^ dims) (grid_differences w dims n x)
  unfolding grid_differences
  grid_differences-Words dims x h = elim (ℕ_discrete dims 1) [
    | yes e ↦ rw (e, pow-one) (axis_step 1 1 n (omega arith) (omega arith) x (rw (e, pow-one) at h))
    | no one ↦ elim (ℕ_discrete dims 2) [
      | yes e ↦
          rw (e, pow-two)
            (axis_step n 1 (n * n) hn (omega arith) _
              (axis_step 1 n (n * n) (omega arith) (omega arith) x (rw (e, pow-two) at h)))
      | no two ↦ elim (ℕ_discrete dims 3) [
        | yes e ↦
            rw (e, pow-three)
              (axis_step (n * n) 1 (n * n * n) (grind arith) (omega arith) _ (
                axis_step 1 (n * n) (n * n * n) (omega arith) (omega arith) _
                  (axis_step n n (n * n * n) hn (omega arith) x (rw (e, pow-three) at h))))
        | no three ↦ rw (ne→== dims 1 one, ne→== dims 2 two, ne→== dims 3 three) h
      ]
    ]
  ]

  -- Differences of words are words.
  pub differences-Words :
      (dims : ℕ) (x : Memory) → Words w (n ^ dims) x → Words w (n ^ dims) (differences w dims n x)
  differences-Words dims x h = rw (differences-eq w n hn dims x) (grid_differences-Words dims x h)
