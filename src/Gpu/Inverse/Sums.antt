-- ===== src/Gpu/Inverse/Sums.antt =====
-- The sums along the lanes of an axis take the differences along it back.
use ndzip.Base.{
  ℕ, suc, ◌+◌, ◌-◌, ◌*◌, ◌<◌, ◌≡◌, refl, ap, sym, ◌∙◌, arith, true, false, ltb, ◌&&◌, if◌then◌else◌,
  for_up, for_up_inv, eq→==, ne→==, lt→ltb, le→ltb, Bool-cases, inl, inr,
}
use native.Mathlib.Decide.{ℕ_discrete, dec_lt}
use ndzip.Word.{add}
use ndzip.Word.Laws.{add_comm, add-sub, add-IsWord}
use ndzip.Memory.{Memory}
use ndzip.Transform.Cells.{block, place, has_prev}
use ndzip.Transform.Axes.{Words, axis_difference}
use ndzip.Gpu.Lanes.{Accessor, HypercubePtr}
use ndzip.Gpu.Lanes.Axis.{cell, IsAxis}
use ndzip.Gpu.Lanes.Own.{
  own, own-lt, own-cell, same_tests, all_places, own_later, own_next, other_next,
}
use ndzip.Gpu.Inverse.{sum_of_cell, inverse_lane, inverse_transform_lanes}

module _ (w : ℕ) (hc : HypercubePtr w) (accessor : Accessor) (n s outer : ℕ)
    (axis : IsAxis accessor n s outer)
    (whole : (a : ℕ) → a < 4096 → axis.place_of a ≡ 0 → place n s a ≡ 0)
    (some : 0 < accessor.lane_length) (Y : Memory) (words : Words w 4096 Y) where
  abbrev D : Memory
  D = axis_difference w n s outer Y

  first-cell : (a : ℕ) → a < 4096 → axis.place_of a ≡ 0 → D a ≡ Y a
  unfolding axis_difference
  first-cell a small none =
      let t : (ltb (block n s a) outer && has_prev n s a) ≡ false =
        rw
          (
            lt→ltb (block n s a) outer (axis.inside a small),
            le→ltb 0 (place n s a) (omega (arith, whole a small none)),
          )
          refl in
      rw t refl

  -- A later cell of the lane, from the one before it.
  next-cell :
      (lane j : ℕ)
      → lane < accessor.num_lanes
      → suc j < accessor.lane_length
      → add w (Y (cell accessor lane j)) (D (cell accessor lane (suc j)))
        ≡ Y (cell accessor lane (suc j))
  unfolding axis_difference
  next-cell lane j hl hj =
      let c = cell accessor lane (suc j) in
      let (small, lane_eq, place_eq) = axis.lane_cell lane (suc j) hl hj in
      let (small', l', p') = axis.lane_cell lane j hl (omega arith) in
      let t : (ltb (block n s c) outer && has_prev n s c) ≡ true =
        rw
          (
            lt→ltb (block n s c) outer (axis.inside c small),
            lt→ltb 0 (place n s c) (axis.later c small (omega arith)),
          )
          refl in
      let step : suc j * accessor.stride ≡ j * accessor.stride + accessor.stride = grind arith in
      let at : c - s ≡ cell accessor lane j = omega (arith, step, axis.stride-eq) in
      rw (t, at)
        (add_comm w (Y (cell accessor lane j)) _
          ∙ add-sub w (Y c) (Y (cell accessor lane j)) (words c small)
              (words (cell accessor lane j) small'))

  record Run (lane : ℕ) (m : Memory) (j : ℕ) (t : Memory × ℕ × ℕ) : Type 0 where
    index : t.2 ≡ cell accessor lane j
    last : t.1 ≡ Y (cell accessor lane j)
    cells :
        (a : ℕ)
        → hc.load t.0 a
          ≡ (if own axis lane a && ltb (axis.place_of a) (suc j) then Y a else hc.load m a)

  module _ (lane : ℕ) (hl : lane < accessor.num_lanes) (m : Memory)
      (untouched : (a : ℕ) → own axis lane a ≡ true → hc.load m a ≡ D a) where
    Run-zero : Run lane m 0 (m, hc.load m (accessor.offset lane), accessor.offset lane)
    Run-zero =
        let c = cell accessor lane 0 in
        let at : accessor.offset lane ≡ c = omega arith in
        let (small, lane_eq, place_eq) = axis.lane_cell lane 0 hl some in
        let value : hc.load m c ≡ Y c =
          untouched c (own-cell axis lane 0 hl some) ∙ first-cell c small place_eq in
        record {
          index = at;
          last = ap (hc.load m) at ∙ value;
          cells = λ a. elim (ℕ_discrete a c) [
            | yes e ↦
                rw (e, own-cell axis lane 0 hl some, lt→ltb (axis.place_of c) 1 (omega arith)) value
            | no ne ↦
                ap (λ b. if b then Y a else hc.load m a)
                  (let t : false ≡ (own axis lane a && ltb (axis.place_of a) 0) = ground arith in
                    t ∙ same_tests axis lane 0 a ne)
          ];
        }

    Run-suc :
        (j : ℕ) (t : Memory × ℕ × ℕ)
        → suc j < accessor.lane_length
        → Run lane m j t
        → Run lane m (suc j) (sum_of_cell w hc accessor.stride (1 + j * 1) t)
    unfolding sum_of_cell
    Run-suc j (m', last, index) hj h =
        let c = cell accessor lane (suc j) in
        let (small, lane_eq, place_eq) = axis.lane_cell lane (suc j) hl hj in
        let step : suc j * accessor.stride ≡ j * accessor.stride + accessor.stride = grind arith in
        let at : index + accessor.stride ≡ c = omega (arith, h.index, step) in
        let here : hc.load m' (index + accessor.stride) ≡ D c =
          ap (hc.load m') at
          ∙ h.cells c
          ∙ rw (own-cell axis lane (suc j) hl hj, le→ltb (axis.place_of c) (suc j) (omega arith))
              (untouched c (own-cell axis lane (suc j) hl hj)) in
        let value : add w last (hc.load m' (index + accessor.stride)) ≡ Y c =
          rw (here, h.last) (next-cell lane j hl hj) in
        record {
          index = at;
          last = value;
          cells = λ a.
              hc.load-store m' (index + accessor.stride) a
                (add w last (hc.load m' (index + accessor.stride))) (add-IsWord w _ _)
              ∙ elim (ℕ_discrete a c) [
                | yes e ↦
                    rw
                      (
                        e,
                        eq→== c (index + accessor.stride) (sym at),
                        own-cell axis lane (suc j) hl hj,
                        lt→ltb (axis.place_of c) (suc (suc j)) (omega arith),
                      )
                      value
                | no ne ↦
                    ap
                      (λ b.
                        if b
                        then add w last (hc.load m' (index + accessor.stride))
                        else hc.load m' a)
                      (ne→== a (index + accessor.stride) (λ e. ne (e ∙ at)))
                    ∙ h.cells a
                    ∙ ap (λ b. if b then Y a else hc.load m a) (same_tests axis lane (suc j) a ne)
              ];
        }

    inverse_lane-cells :
        (a : ℕ)
        → hc.load (inverse_lane w hc accessor lane m) a
          ≡ (if own axis lane a then Y a else hc.load m a)
    unfolding inverse_lane
    inverse_lane-cells a =
        let len = accessor.lane_length in
        let run : Run lane m (len - 1) (
            for_up 1 len 1 (sum_of_cell w hc accessor.stride)
              (m, hc.load m (accessor.offset lane), accessor.offset lane)) =
          for_up_inv (Run lane m) (len - 1) 1 len 1 (sum_of_cell w hc accessor.stride)
            (m, hc.load m (accessor.offset lane), accessor.offset lane) (omega arith) (omega arith)
            (λ j t hj h. Run-suc j t (omega arith) h) Run-zero in
        let all : suc (len - 1) ≡ len = omega arith in
        run.cells a
        ∙ ap (λ k. if own axis lane a && ltb (axis.place_of a) k then Y a else hc.load m a) all
        ∙ ap (λ b. if b then Y a else hc.load m a) (all_places axis lane a)

  module _ (before : Memory) (differences : (a : ℕ) → a < 4096 → hc.load before a ≡ D a) where
    abbrev Summed : ℕ → Memory → Type 0
    Summed l m =
        (a : ℕ)
        → hc.load m a ≡ (if ltb a 4096 && ltb (axis.lane_of a) l then Y a else hc.load before a)

    Summed-suc :
        (l : ℕ) (m : Memory)
        → l < accessor.num_lanes
        → Summed l m
        → Summed (suc l) (inverse_lane w hc accessor l m)
    Summed-suc l m hl h a =
        inverse_lane-cells l hl m
          (λ b mine. h b ∙ rw (own_later axis l b mine) (differences b (own-lt axis l b mine))) a
        ∙ elim (Bool-cases (own axis l a)) [
          | inl mine ↦ rw (mine, own_next axis l a mine) refl
          | inr other ↦
              rw other (h a)
              ∙ ap (λ b. if b then Y a else hc.load before a) (other_next axis l a other)
        ]

    -- Memory that has the differences along an axis has the cells themselves after the sums, and
    -- keeps what stands behind them.
    pub inverse_transform_lanes-cells :
        (a : ℕ)
        → hc.load (inverse_transform_lanes w hc accessor before) a
          ≡ (if ltb a 4096 then Y a else hc.load before a)
    unfolding inverse_transform_lanes
    inverse_transform_lanes-cells a =
        let all : Summed accessor.num_lanes
            (for_up 0 accessor.num_lanes 1 (inverse_lane w hc accessor) before) =
          for_up_inv Summed accessor.num_lanes 0 accessor.num_lanes 1 (inverse_lane w hc accessor)
            before (omega arith) (omega arith)
            (λ l m hl h. let e : 0 + l * 1 ≡ l = omega arith in rw e (Summed-suc l m hl h))
            (λ a. ground arith) in
        all a ∙ elim (dec_lt a 4096) [
          | yes small ↦
              rw
                (
                  lt→ltb a 4096 small,
                  lt→ltb (axis.lane_of a) accessor.num_lanes (axis.cell_lane a small).0,
                )
                refl
          | no far ↦ rw (le→ltb a 4096 (omega arith)) refl
        ]
