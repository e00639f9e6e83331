-- ===== src/Avx2/Passes.antt =====
-- The vertical passes and the passes over planes, as combinations along the lines of their stride.
use native.Mathlib.Nat.{mod-lt, div-add-mod', div-lt_iff_lt-mul}
use ndzip.Base.{
  ℕ, suc, ◌+◌, ◌-◌, ◌*◌, ◌/◌, ◌%◌, ◌≤◌, ◌<◌, ◌≡◌, ap, ◌∙◌, Bool, true, ◌&&◌, ltb, leb, ◌==◌, arith,
  for_up, mul-add-lt, eq→==,
}
use native.Mathlib.Decide.{ℕ_discrete, dec_lt}
use ndzip.Memory.{Memory}
use ndzip.Transform.Cells.{cell, block, line, has_prev, prev_parts}
use ndzip.Transform.Regions.{Combines, for_up-Combines}
use ndzip.Transform.Passes.{Combines_cong}
use ndzip.Transform.Steps.{difference, running_sum}
use ndzip.Avx2.{
  words_per_256bit_lane, n_256bit_lanes, block_transform_vertical_avx2, block_transform_planes_avx2,
  inverse_block_transform_vertical_avx2, inverse_block_transform_planes_avx2,
}
use ndzip.Avx2.Cells.{on_lines}
use ndzip.Avx2.Rounds.{difference_lanes-Combines, sum_lanes-Combines}

-- The numbers with a given quotient.
pub quotient-in : (n : ℕ) → 0 < n → (v r : ℕ) → (leb (r * n) v && ltb v (r * n + n)) ≡ (v / n == r)
quotient-in n hn v r =
    let e = div-add-mod' v n in
    let lt = mod-lt v hn in
    elim (ℕ_discrete (v / n) r) [
      | yes same ↦
          rw (eq→== _ _ same)
            (ground (arith, let f : v / n * n ≡ r * n = ap (λ (t : ℕ). t * n) same in f))
      | no other ↦ elim (dec_lt (v / n) r) [
        | yes below ↦ ground (arith, mul-add-lt (v / n) (v % n) r n below lt)
        | no above ↦
            let next : r + 1 ≤ v / n = omega arith in
            let after : (r + 1) * n ≤ v / n * n = grind arith in ground arith
      ]
    ]

module _ (w n : ℕ) (hn : 0 < n) (full : n_256bit_lanes w n * words_per_256bit_lane w ≡ n) where
  -- One plane.
  pub vertical-Combines :
      (i p : ℕ)
      → p ≡ cell n n i 0 0
      → Combines n
          (has_prev n n)
          (difference w)
          (λ a. block n n a == i)
          (block_transform_vertical_avx2 w n p)
  unfolding block_transform_vertical_avx2
  vertical-Combines i p e =
      Combines_cong n (has_prev n n) (difference w) _ _ _ (λ a. ground (arith, mod-lt a hn))
        (difference_lanes-Combines w n n i 0 hn hn (omega arith) full 1 n 1 (λ k. p + k * n)
          (omega arith) (omega arith) (λ k. omega (arith, e)) p e)

  pub inverse_vertical-Combines :
      (i p : ℕ)
      → p ≡ cell n n i 0 0
      → Combines n
          (has_prev n n)
          (running_sum w)
          (λ a. block n n a == i)
          (inverse_block_transform_vertical_avx2 w n p)
  unfolding inverse_block_transform_vertical_avx2
  inverse_vertical-Combines i p e =
      Combines_cong n (has_prev n n) (running_sum w) _ _ _ (λ a. ground (arith, mod-lt a hn))
        (sum_lanes-Combines w n n i 0 hn hn (omega arith) full 1 n 1 (λ k. p + k * n) (omega arith)
          (omega arith) (λ k. omega (arith, e)) p e)

  -- Every plane of a cube.
  planes_of :
      (combine : ℕ → ℕ → ℕ → ℕ) (pass : ℕ → Memory → Memory)
      → ((i p : ℕ)
          → p ≡ cell n n i 0 0
          → Combines n (has_prev n n) combine (λ a. block n n a == i) (pass p))
      → Combines n
          (has_prev n n)
          combine
          (λ a. ltb (block n n a) n)
          (for_up 0 (n * n * n) (n * n) pass)
  planes_of combine pass acts =
      for_up-Combines n (has_prev n n) combine (block n n) (λ a. true)
        (λ a h. ground (arith, prev_parts n n a)) n 0 (n * n * n) (n * n) pass (grind arith)
        (omega arith) (λ i lt. acts i (0 + i * (n * n)) (omega arith))

  square : 0 < n * n
  square = grind arith

  cube_rounds : n * n * n ≡ n * n + (n - 1) * (n * n)
  cube_rounds =
      let e : n ≡ suc (n - 1) = omega arith in
      let f : n * n * n ≡ n * (n * n) = omega arith in
      let g : suc (n - 1) * (n * n) ≡ n * n + (n - 1) * (n * n) = omega arith in
      f ∙ ap (λ (t : ℕ). t * (n * n)) e ∙ g

  -- The rows of the first plane, each with the rows behind it.
  rows_of :
      (combine : ℕ → ℕ → ℕ → ℕ) (pass : ℕ → Memory → Memory)
      → ((r : ℕ) (lt : r < n) (fits : r * n + n ≤ n * n)
          → Combines
              (n * n)
              (has_prev n (n * n))
              combine
              (on_lines n (n * n) 0 (r * n) n hn square fits)
              (pass (0 + r * n)))
      → Combines
          (n * n)
          (has_prev n (n * n))
          combine
          (λ a. ltb (block n (n * n) a) 1)
          (for_up 0 (n * n) n pass)
  rows_of combine pass acts =
      Combines_cong (n * n) (has_prev n (n * n)) combine _ _ _
        (λ a.
          ground (arith, (div-lt_iff_lt-mul {x = line n (n * n) a} {y = n} hn).1 (mod-lt a square)))
        (for_up-Combines (n * n) (has_prev n (n * n)) combine (λ a. line n (n * n) a / n)
          (λ a. block n (n * n) a == 0)
          (λ a h.
            let parts = prev_parts n (n * n) a square hn (ground (arith, h)) in
            (ap (λ (t : ℕ). t / n) parts.2, ap (λ (t : ℕ). t == 0) parts.0))
          n 0 (n * n) n pass hn (omega arith)
          (λ r lt.
            let fits : r * n + n ≤ n * n = grind arith in
            Combines_cong (n * n) (has_prev n (n * n)) combine _ _ _
              (λ a.
                ap (λ (t : Bool). block n (n * n) a == 0 && t)
                  (quotient-in n hn (line n (n * n) a) r))
              (acts r lt fits)))

  pub planes-Combines :
      Combines
        (n * n)
        (has_prev n (n * n))
        (difference w)
        (λ a. ltb (block n (n * n) a) 1)
        (block_transform_planes_avx2 w n)
  unfolding block_transform_planes_avx2
  planes-Combines = rows_of (difference w) _ (λ r lt fits.
      difference_lanes-Combines w n (n * n) 0 (r * n) hn square fits full (n * n) (n * n * n)
        (n * n) (λ j. 0 + r * n + j) square cube_rounds (λ k. omega arith) (0 + r * n)
        (omega arith))

  pub inverse_planes-Combines :
      Combines
        (n * n)
        (has_prev n (n * n))
        (running_sum w)
        (λ a. ltb (block n (n * n) a) 1)
        (inverse_block_transform_planes_avx2 w n)
  unfolding inverse_block_transform_planes_avx2
  inverse_planes-Combines = rows_of (running_sum w) _ (λ r lt fits.
      sum_lanes-Combines w n (n * n) 0 (r * n) hn square fits full (n * n) (n * n * n) (n * n)
        (λ j. 0 + r * n + j) square cube_rounds (λ k. omega arith) (0 + r * n) (omega arith))

  pub vertical_all-Combines :
      Combines n
        (has_prev n n)
        (difference w)
        (λ a. ltb (block n n a) n)
        (for_up 0 (n * n * n) (n * n) (block_transform_vertical_avx2 w n))
  vertical_all-Combines =
      planes_of (difference w) (block_transform_vertical_avx2 w n) vertical-Combines

  pub inverse_vertical_all-Combines :
      Combines n
        (has_prev n n)
        (running_sum w)
        (λ a. ltb (block n n a) n)
        (for_up 0 (n * n * n) (n * n) (inverse_block_transform_vertical_avx2 w n))
  inverse_vertical_all-Combines =
      planes_of (running_sum w) (inverse_block_transform_vertical_avx2 w n)
        inverse_vertical-Combines
