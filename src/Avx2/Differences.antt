-- ===== src/Avx2/Differences.antt =====
-- `block_transform_avx2` takes the differences along all axes of the grid.
use native.Mathlib.Decide.{ℕ_discrete}
use ndzip.Base.{ℕ, ◌*◌, ◌^◌, ◌<◌, ◌≡◌, ap, ◌∙◌, sym, fun_ext, arith, for_up, ne→==}
use ndzip.Memory.{Memory}
use ndzip.Transform.{differences}
use ndzip.Transform.Cells.{has_prev}
use ndzip.Transform.Steps.{difference}
use ndzip.Transform.Axes.{Words, axis_difference}
use ndzip.Transform.Grids.{grid_differences, differences-eq, eq-axis_difference}
use ndzip.Transform.Passes.{Combines_cong}
use ndzip.Transform.Inverse.{pow-one, pow-two, pow-three}
use ndzip.Avx2.{
  words_per_256bit_lane, n_256bit_lanes, block_transform_vertical_avx2, block_transform_planes_avx2,
  differences_avx2,
}
use ndzip.Avx2.Horizontal.{horizontal-row, horizontal_rows}
use ndzip.Avx2.Passes.{vertical-Combines, vertical_all-Combines, planes-Combines}
use ndzip.Avx2.Swap.{axis_swap}

module _ (w n : ℕ) (hn : 0 < n) (full : n_256bit_lanes w n * words_per_256bit_lane w ≡ n) where
  one_row : (x : Memory) → Words w n x → differences_avx2 w 1 n x ≡ grid_differences w 1 n x
  unfolding axis_difference grid_differences differences_avx2
  one_row x words =
      fun_ext λ a. horizontal-row w n 0 0 x hn full (omega arith) (words 0 hn) a ∙ ground arith

  one_plane : (x : Memory) → block_transform_vertical_avx2 w n 0 x ≡ axis_difference w n n 1 x
  one_plane = eq-axis_difference w n hn n 1 _ (
      Combines_cong n (has_prev n n) (difference w) _ _ _ (λ a. ground arith)
        (vertical-Combines w n hn full 0 0 (omega arith)))

  two : (x : Memory) → Words w (n * n) x → differences_avx2 w 2 n x ≡ grid_differences w 2 n x
  unfolding differences_avx2 grid_differences
  two x words =
      ap (block_transform_vertical_avx2 w n 0) (
        horizontal_rows w n n 0 n 1 (λ i. i * n) x hn full (omega arith) (omega arith)
          (λ i. omega arith) words)
      ∙ one_plane _

  three : (x : Memory) → Words w (n * n * n) x → differences_avx2 w 3 n x ≡ grid_differences w 3 n x
  unfolding differences_avx2 grid_differences
  three x words =
      ap
        (λ y.
          block_transform_planes_avx2 w n
            (for_up 0 (n * n * n) (n * n) (block_transform_vertical_avx2 w n) y))
        (horizontal_rows w n (n * n) 0 (n * n * n) n (λ i. i) x hn full hn (omega arith)
          (λ i. omega arith) words)
      ∙ ap (block_transform_planes_avx2 w n)
          (eq-axis_difference w n hn n n _ (vertical_all-Combines w n hn full) _)
      ∙ eq-axis_difference w n hn (n * n) 1 _ (planes-Combines w n hn full) _
      ∙ ap (axis_difference w n (n * n) 1) (
          sym (
            axis_swap w n 1 n 1 (n * n) n hn (omega arith) (omega arith) (omega arith) (omega arith)
              x (let size : n * n * (n * 1) ≡ n * n * n = omega arith in rw size words)))

  -- On words, the AVX2 passes give the differences of the portable passes.
  pub differences_avx2-eq :
      (dims : ℕ) (x : Memory)
      → Words w (n ^ dims) x
      → differences_avx2 w dims n x ≡ differences w dims n x
  unfolding differences_avx2 differences
  differences_avx2-eq dims x words = elim (ℕ_discrete dims 1) [
    | yes e ↦ rw (differences-eq w n hn dims x, e) (one_row x (rw (e, pow-one w n hn) at words))
    | no one ↦ elim (ℕ_discrete dims 2) [
      | yes e ↦ rw (differences-eq w n hn dims x, e) (two x (rw (e, pow-two w n hn) at words))
      | no two' ↦ elim (ℕ_discrete dims 3) [
        | yes e ↦ rw (differences-eq w n hn dims x, e) (three x (rw (e, pow-three w n hn) at words))
        | no three' ↦ rw (ne→== dims 1 one, ne→== dims 2 two', ne→== dims 3 three')
      ]
    ]
  ]
