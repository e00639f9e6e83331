-- ===== src/Avx2/Sums.antt =====
-- `inverse_block_transform_avx2` takes the differences back.
use native.Mathlib.Decide.{ℕ_discrete}
use native.Mathlib.Nat.{mod-eq_of_lt, div-lt_iff_lt-mul}
use ndzip.Base.{
  ℕ, ◌+◌, ◌-◌, ◌*◌, ◌/◌, mul-add-lt, ◌^◌, ◌≤◌, ◌<◌, ◌≡◌, refl, ap, ◌∙◌, sym, fun_ext, arith, ltb,
  for_up, ne→==, true,
}
use ndzip.Memory.{Memory, update}
use ndzip.Word.{add}
use ndzip.Transform.{ipow, differences, sum_round, inverse_block_transform_step}
use ndzip.Transform.Power.{ipow-eq}
use ndzip.Transform.Cells.{block, has_prev, prev_parts}
use ndzip.Transform.Steps.{running_sum}
use ndzip.Transform.Regions.{Combines, for_up-Combines}
use ndzip.Transform.Axes.{Words, axis_difference}
use ndzip.Transform.Grids.{
  grid_differences, differences-eq, single_line, inverse_acts, inverse_step,
}
use ndzip.Transform.Passes.{Combines_cong}
use ndzip.Transform.Inverse.{undo, pow-one, pow-two, pow-three}
use ndzip.Avx2.{
  interleave, words_per_256bit_lane, n_256bit_lanes, inverse_block_transform_horizontal_sequential,
  inverse_block_transform_horizontal_interleaved, inverse_block_transform_vertical_avx2,
  inverse_block_transform_planes_avx2, sums_avx2,
}
use ndzip.Avx2.Groups.{interleaved-Combines}
use ndzip.Avx2.Passes.{
  quotient-in, inverse_vertical-Combines, inverse_vertical_all-Combines, inverse_planes-Combines,
}
use ndzip.Avx2.Swap.{axis_swap}

module _ (w n m : ℕ) (hn : 0 < n) (full : n_256bit_lanes w n * words_per_256bit_lane w ≡ n)
    (groups : n ≡ m * interleave) (fits : n * n < 2 ^ 32) where
  square-eq : ipow 64 n 2 ≡ n * n
  square-eq =
      ipow-eq 64 n 2 (omega arith)
      ∙ mod-eq_of_lt (rw (pow-two w n hn) (omega (arith, fits)))
      ∙ pow-two w n hn

  cube-fits : n * n * n < 2 ^ 64
  cube-fits =
      let small : n < 2 ^ 32 = grind arith in
      let step : n * n * n ≤ n * n * 2 ^ 32 = grind arith in
      omega (arith, mul-add-lt (n * n) 0 (2 ^ 32) (2 ^ 32) fits (omega arith))

  cube-eq : ipow 64 n 3 ≡ n * n * n
  cube-eq =
      ipow-eq 64 n 3 (omega arith)
      ∙ mod-eq_of_lt (rw (pow-three w n hn) cube-fits)
      ∙ pow-three w n hn

  sequential-eq :
      inverse_block_transform_horizontal_sequential w n ≡ inverse_block_transform_step w 0 n 1
  unfolding inverse_block_transform_horizontal_sequential inverse_block_transform_step sum_round
  sequential-eq =
      ap (λ (body : ℕ → Memory → Memory). for_up 1 n 1 body)
        (fun_ext λ i. fun_ext λ x.
          let here : i ≡ 0 + i * 1 = omega arith in
          let before : i - 1 ≡ 0 + (i - 1) * 1 = omega arith in
          ap (λ (a : ℕ). update x a (add w (x a) (x (i - 1)))) here
          ∙ ap (λ (b : ℕ). update x (0 + i * 1) (add w (x (0 + i * 1)) (x b))) before)

  interleaved_plane :
      Combines 1
        (has_prev n 1)
        (running_sum w)
        (λ a. ltb (block n 1 a) n)
        (inverse_block_transform_horizontal_interleaved w n 0)
  interleaved_plane =
      Combines_cong 1 (has_prev n 1) (running_sum w) _ _ _ (λ a. ground arith)
        (interleaved-Combines w n m hn groups fits 0 0 (omega arith))

  plane_number : (v : ℕ) → ltb (v / n) n ≡ ltb v (n * n)
  plane_number v = ground (arith, div-lt_iff_lt-mul {x = v} {y = n} hn)

  interleaved_all :
      Combines 1
        (has_prev n 1)
        (running_sum w)
        (λ a. ltb (block n 1 a) (n * n))
        (for_up 0 (n * n * n) (n * n) (inverse_block_transform_horizontal_interleaved w n))
  interleaved_all =
      Combines_cong 1 (has_prev n 1) (running_sum w) _ _ _ (λ a. plane_number (block n 1 a))
        (for_up-Combines 1 (has_prev n 1) (running_sum w) (λ a. block n 1 a / n) (λ a. true)
          (λ a prev.
            let parts = prev_parts n 1 a (omega arith) hn (ground (arith, prev)) in
            (ap (λ (t : ℕ). t / n) parts.0, refl))
          n 0 (n * n * n) (n * n) (inverse_block_transform_horizontal_interleaved w n) (grind arith)
          (omega arith)
          (λ i lt.
            Combines_cong 1 (has_prev n 1) (running_sum w) _ _ _
              (λ a. quotient-in n hn (block n 1 a) i)
              (interleaved-Combines w n m hn groups fits i (0 + i * (n * n)) (omega arith))))

  vertical_plane :
      Combines n
        (has_prev n n)
        (running_sum w)
        (λ a. ltb (block n n a) 1)
        (inverse_block_transform_vertical_avx2 w n 0)
  vertical_plane =
      Combines_cong n (has_prev n n) (running_sum w) _ _ _ (λ a. ground arith)
        (inverse_vertical-Combines w n hn full 0 0 (omega arith))

  one : (x : Memory) → Words w n x → sums_avx2 w 1 n (grid_differences w 1 n x) ≡ x
  unfolding sums_avx2 grid_differences
  one x words =
      ap (λ (f : Memory → Memory). f (axis_difference w n 1 1 x)) sequential-eq
      ∙ (undo w n hn 1 1 n _ (omega arith)
          (single_line n hn (running_sum w) (inverse_step w n hn) (inverse_acts w n hn))
          (omega arith) x words).0

  two : (x : Memory) → Words w (n * n) x → sums_avx2 w 2 n (grid_differences w 2 n x) ≡ x
  unfolding sums_avx2 grid_differences
  two x words =
      let size : n * (n * 1) ≡ n * n = omega arith in
      let first = undo w n hn n 1 (n * n) _ hn vertical_plane (omega arith) x words in
      let second =
        undo w n hn 1 n (n * n) _ (omega arith) interleaved_plane (omega arith) _ first.1 in
      ap
        (λ y.
          inverse_block_transform_vertical_avx2 w n 0
            (inverse_block_transform_horizontal_interleaved w n 0 y))
        (sym (
          axis_swap w n 1 n 1 n 1 hn (omega arith) (omega arith) (omega arith) (omega arith) x
            (rw size words)))
      ∙ ap (inverse_block_transform_vertical_avx2 w n 0) second.0
      ∙ first.0

  three : (x : Memory) → Words w (n * n * n) x → sums_avx2 w 3 n (grid_differences w 3 n x) ≡ x
  unfolding sums_avx2 grid_differences
  three x words =
      let size : n * n * (n * 1) ≡ n * n * n = omega arith in
      let size' : n * (n * n) ≡ n * n * n = omega arith in
      let cube : n * n * (n * 1) ≡ 1 * (n * (n * n)) = omega arith in
      let vertical = inverse_vertical_all-Combines w n hn full in
      let along = undo w n hn n n (n * n * n) _ hn vertical (omega arith) x words in
      let first =
        undo w n hn (n * n) 1 (n * n * n) _ (grind arith) (inverse_planes-Combines w n hn full)
          (omega arith) x words in
      let second = undo w n hn n n (n * n * n) _ hn vertical (omega arith) _ first.1 in
      let third =
        undo w n hn 1 (n * n) (n * n * n) _ (omega arith) interleaved_all (omega arith) _
          second.1 in
      let rows_last =
        axis_swap w n 1 (n * n) n (n * n) 1 hn (omega arith) hn (omega arith) cube
          (axis_difference w n n n x) (rw size along.1) in
      let columns_last =
        axis_swap w n n (n * n) 1 n 1 hn hn (omega arith) (omega arith) (omega arith) x
          (rw size' words) in
      rw cube-eq (
        rw square-eq (
          ap
            (λ y. inverse_block_transform_planes_avx2 w n (
              for_up 0 (n * n * n) (n * n) (inverse_block_transform_vertical_avx2 w n) (
                for_up 0 (n * n * n) (n * n) (inverse_block_transform_horizontal_interleaved w n)
                  y)))
            (sym rows_last ∙ ap (axis_difference w n 1 (n * n)) (sym columns_last))
          ∙ ap
              (λ y.
                inverse_block_transform_planes_avx2 w n
                  (for_up 0 (n * n * n) (n * n) (inverse_block_transform_vertical_avx2 w n) y))
              third.0
          ∙ ap (inverse_block_transform_planes_avx2 w n) second.0
          ∙ first.0))

  -- The AVX2 sums undo the differences of the portable passes.
  pub sums_avx2-differences :
      (dims : ℕ) (x : Memory)
      → Words w (n ^ dims) x
      → sums_avx2 w dims n (differences w dims n x) ≡ x
  unfolding sums_avx2 differences
  sums_avx2-differences dims x words = elim (ℕ_discrete dims 1) [
    | yes e ↦ rw (differences-eq w n hn dims x, e) (one x (rw (e, pow-one w n hn) at words))
    | no one' ↦ elim (ℕ_discrete dims 2) [
      | yes e ↦ rw (differences-eq w n hn dims x, e) (two x (rw (e, pow-two w n hn) at words))
      | no two' ↦ elim (ℕ_discrete dims 3) [
        | yes e ↦ rw (differences-eq w n hn dims x, e) (three x (rw (e, pow-three w n hn) at words))
        | no three' ↦ rw (ne→== dims 1 one', ne→== dims 2 two', ne→== dims 3 three')
      ]
    ]
  ]
