-- ===== src/Gpu/Lanes/Runs.antt =====
-- The forward transform along the lanes of an axis takes the differences along it.
use ndzip.Base.{
  ℕ, zero, suc, ◌+◌, ◌-◌, ◌*◌, ◌<◌, ◌≡◌, refl, ap, sym, ◌∙◌, inl, inr, arith, true, false, ltb,
  ◌&&◌, if◌then◌else◌, for_up, for_up_inv, eq→==, ne→==, lt→ltb, le→ltb, Bool-cases,
}
use native.Mathlib.Decide.{ℕ_discrete, dec_lt}
use ndzip.Word.{sub}
use ndzip.Word.Laws.{sub-IsWord, sub_zero}
use ndzip.Memory.{Memory}
use ndzip.Transform.Cells.{block, place, has_prev}
use ndzip.Transform.Axes.{Words, axis_difference}
use ndzip.Gpu.Lanes.{
  Accessor, HypercubePtr, carry, difference_of_cell, forward_lane, forward_transform_lanes,
}
use ndzip.Gpu.Lanes.Axis.{cell, IsAxis}
use ndzip.Gpu.Lanes.Own.{
  own, own-lane, own-cell, same_tests, all_places, own_later, own_next, other_next,
}

module _ (w : ℕ) (hc : HypercubePtr w) (accessor : Accessor) (n s outer : ℕ)
    (axis : IsAxis accessor n s outer) (before : Memory) where
  abbrev X : ℕ → ℕ
  X = hc.load before

  abbrev initial : ℕ → ℕ
  initial lane =
      if ltb accessor.lane_length accessor.side_length then carry w hc accessor before lane else 0

  -- What is subtracted from the cell number `i` of a lane.
  abbrev previous : ℕ → ℕ → ℕ
  previous lane zero = initial lane
  previous lane (suc i) = X (cell accessor lane i)

  abbrev new : ℕ → ℕ → ℕ
  new lane a = sub w (X a) (previous lane (axis.place_of a))

  record Run (lane : ℕ) (m : Memory) (j : ℕ) (t : Memory × ℕ × ℕ) : Type 0 where
    index : t.2 ≡ cell accessor lane j
    last : t.1 ≡ previous lane j
    cells :
        (a : ℕ)
        → hc.load t.0 a
          ≡ (if own axis lane a && ltb (axis.place_of a) j then new lane a else hc.load m a)

  module _ (lane : ℕ) (hl : lane < accessor.num_lanes) (m : Memory)
      (untouched : (a : ℕ) → own axis lane a ≡ true → hc.load m a ≡ X a) where
    Run-suc :
        (j : ℕ) (t : Memory × ℕ × ℕ)
        → j < accessor.lane_length
        → Run lane m j t
        → Run lane m (suc j) (difference_of_cell w hc accessor.stride j t)
    unfolding difference_of_cell
    Run-suc j (m', last, index) hj h =
        let c = cell accessor lane j in
        let (small, lane_eq, place_eq) = axis.lane_cell lane j hl hj in
        let mine : own axis lane c ≡ true = own-cell axis lane j hl hj in
        let here : hc.load m' index ≡ X c =
          ap (hc.load m') h.index
          ∙ h.cells c
          ∙ rw (mine, le→ltb (axis.place_of c) j (omega arith)) (untouched c mine) in
        record {
          index = omega (arith, h.index);
          last = here;
          cells = λ a.
              hc.load-store m' index a (sub w (hc.load m' index) last) (sub-IsWord w _ _)
              ∙ elim (ℕ_discrete a c) [
                | yes e ↦
                    rw
                      (
                        e,
                        eq→== c index (sym h.index),
                        here,
                        h.last,
                        mine,
                        lt→ltb (axis.place_of c) (suc j) (omega arith),
                        place_eq,
                      )
                      refl
                | no ne ↦
                    ap (λ b. if b then sub w (hc.load m' index) last else hc.load m' a)
                      (ne→== a index (λ e. ne (e ∙ h.index)))
                    ∙ h.cells a
                    ∙ ap (λ b. if b then new lane a else hc.load m a) (same_tests axis lane j a ne)
              ];
        }

    forward_lane-cells :
        (a : ℕ)
        → hc.load (forward_lane w hc accessor before lane m) a
          ≡ (if own axis lane a then new lane a else hc.load m a)
    unfolding forward_lane
    forward_lane-cells a =
        let len = accessor.lane_length in
        let run : Run lane m len (
            for_up 0 len 1 (difference_of_cell w hc accessor.stride)
              (m, initial lane, accessor.offset lane)) =
          for_up_inv (Run lane m) len 0 len 1 (difference_of_cell w hc accessor.stride)
            (m, initial lane, accessor.offset lane) (omega arith) (omega arith)
            (λ j t hj h. Run-suc j t hj h)
            (record { index = omega arith; last = refl; cells = λ a. ground arith }) in
        run.cells a ∙ ap (λ b. if b then new lane a else hc.load m a) (all_places axis lane a)

  abbrev Runs : ℕ → Memory → Type 0
  Runs l m =
      (a : ℕ)
      → hc.load m a ≡ (if ltb a 4096 && ltb (axis.lane_of a) l then new (axis.lane_of a) a else X a)

  Runs-suc :
      (l : ℕ) (m : Memory)
      → l < accessor.num_lanes
      → Runs l m
      → Runs (suc l) (forward_lane w hc accessor before l m)
  Runs-suc l m hl h a =
      forward_lane-cells l hl m (λ b mine. h b ∙ rw (own_later axis l b mine) refl) a
      ∙ elim (Bool-cases (own axis l a)) [
        | inl mine ↦
            let e = own-lane axis l a mine in let t = own_next axis l a mine in rw (mine, t, e) refl
        | inr other ↦
            rw other (h a)
            ∙ ap (λ b. if b then new (axis.lane_of a) a else X a) (other_next axis l a other)
      ]

  lanes-Runs : Runs accessor.num_lanes (forward_transform_lanes w hc accessor before)
  unfolding forward_transform_lanes
  lanes-Runs =
      for_up_inv Runs accessor.num_lanes 0 accessor.num_lanes 1 (forward_lane w hc accessor before)
        before (omega arith) (omega arith)
        (λ l m hl h. let e : 0 + l * 1 ≡ l = omega arith in rw e (Runs-suc l m hl h))
        (λ a. ground arith)

  previous_pos : (lane p : ℕ) → 0 < p → previous lane p ≡ X (cell accessor lane (p - 1))
  previous_pos lane zero h = absurd (let no : ⊥ = omega arith in no)
  previous_pos lane (suc i) h =
      ap (λ k. X (cell accessor lane k)) (let e : i ≡ suc i - 1 = omega arith in e)

  module _ (a : ℕ) (small : a < 4096) where
    neighbour : 0 < axis.place_of a → previous (axis.lane_of a) (axis.place_of a) ≡ X (a - s)
    neighbour later =
        let at = (axis.cell_lane a small).2 in
        let k = axis.place_of a - 1 in
        let step : (k + 1) * accessor.stride ≡ k * accessor.stride + accessor.stride =
          grind arith in
        let whole : k + 1 ≡ axis.place_of a = omega arith in
        let moved : axis.place_of a * accessor.stride ≡ k * accessor.stride + accessor.stride =
          ap (λ p. p * accessor.stride) (sym whole) ∙ step in
        previous_pos (axis.lane_of a) (axis.place_of a) later
        ∙ ap X (
            let e : cell accessor (axis.lane_of a) k ≡ a - s =
              omega (arith, at, moved, axis.stride-eq) in
            e)

    -- A cell of the hypercube loses what stands before it on the axis.
    new-cell :
        Words w 4096 X
        → new (axis.lane_of a) a
          ≡ (if ltb (block n s a) outer && has_prev n s a then sub w (X a) (X (a - s)) else X a)
    new-cell words =
        let in_grid = lt→ltb (block n s a) outer (axis.inside a small) in
        elim (dec_lt 0 (axis.place_of a)) [
          | yes later ↦
              rw (in_grid, lt→ltb 0 (place n s a) (axis.later a small later))
                (ap (sub w (X a)) (neighbour later))
          | no start ↦
              let none : axis.place_of a ≡ 0 = omega arith in
              elim (axis.first a small none) [
                | inl (some, carries, prev, at) ↦
                    let value : initial (axis.lane_of a) ≡ X (a - s) =
                      rw (carries, prev) (ap X at) in
                    rw (in_grid, lt→ltb 0 (place n s a) some)
                      (ap (λ p. sub w (X a) (previous (axis.lane_of a) p)) none
                        ∙ ap (sub w (X a)) value)
                | inr (edge, nothing) ↦
                    let value : initial (axis.lane_of a) ≡ 0 = elim nothing [
                      | inl whole ↦ rw whole refl
                      | inr alone ↦ rw alone (ground arith)
                    ] in
                    rw (in_grid, le→ltb 0 (place n s a) (omega arith))
                      (ap (λ p. sub w (X a) (previous (axis.lane_of a) p)) none
                        ∙ ap (sub w (X a)) value
                        ∙ sub_zero w (X a) (words a small))
              ]
        ]

  -- The lanes of an axis leave the differences along it.
  pub forward_transform_lanes-cells :
      Words w 4096 X
      → (a : ℕ)
      → hc.load (forward_transform_lanes w hc accessor before) a
        ≡ axis_difference w n s outer (hc.load before) a
  unfolding axis_difference
  forward_transform_lanes-cells words a = lanes-Runs a ∙ elim (dec_lt a 4096) [
    | yes small ↦
        let t : (ltb a 4096 && ltb (axis.lane_of a) accessor.num_lanes) ≡ true =
          rw
            (
              lt→ltb a 4096 small,
              lt→ltb (axis.lane_of a) accessor.num_lanes (axis.cell_lane a small).0,
            )
            refl in
        rw t (new-cell a small words)
    | no far ↦
        let t : (ltb a 4096 && ltb (axis.lane_of a) accessor.num_lanes) ≡ false =
          rw (le→ltb a 4096 (omega arith)) refl in
        let t' : ltb (block n s a) outer ≡ false = elim (dec_lt (block n s a) outer) [
          | yes within ↦ absurd (far (axis.outside a within))
          | no past ↦ le→ltb (block n s a) outer (omega arith)
        ] in
        rw (t, t') refl
  ]
