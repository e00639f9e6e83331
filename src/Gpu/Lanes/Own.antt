-- ===== src/Gpu/Lanes/Own.antt =====
-- The cells that a lane works on.
use ndzip.Base.{
  ℕ, suc, ◌==◌, ◌<◌, ◌≡◌, ◌≢◌, refl, ap, sym, ◌∙◌, arith, Bool, true, false, ltb, ◌&&◌, eq→==,
  lt→ltb, Bool-cases, inl, inr,
}
use ndzip.Gpu.Lanes.{Accessor}
use ndzip.Gpu.Lanes.Axis.{cell, IsAxis}

module _ {accessor : Accessor} {n s outer : ℕ} (axis : IsAxis accessor n s outer) where
  abbrev pub own : ℕ → ℕ → Bool
  own lane a = ltb a 4096 && axis.lane_of a == lane

  pub own-lt : (lane a : ℕ) → own lane a ≡ true → a < 4096
  own-lt lane a mine = ground (arith, mine)

  pub own-lane : (lane a : ℕ) → own lane a ≡ true → axis.lane_of a ≡ lane
  own-lane lane a mine = ground (arith, mine)

  pub own-cell :
      (lane j : ℕ)
      → lane < accessor.num_lanes
      → j < accessor.lane_length
      → own lane (cell accessor lane j) ≡ true
  own-cell lane j hl hj =
      let (small, lane_eq, place_eq) = axis.lane_cell lane j hl hj in
      rw
        (
          lt→ltb (cell accessor lane j) 4096 small,
          eq→== (axis.lane_of (cell accessor lane j)) lane lane_eq,
        )
        refl

  -- The cell number `j` is the only one of the lane whose place is `j`.
  pub same_tests :
      (lane j a : ℕ)
      → a ≢ cell accessor lane j
      → (own lane a && ltb (axis.place_of a) j) ≡ (own lane a && ltb (axis.place_of a) (suc j))
  same_tests lane j a ne = elim (Bool-cases (own lane a)) [
    | inr other ↦ rw other refl
    | inl mine ↦
        let at = (axis.cell_lane a (own-lt lane a mine)).2 in
        let place_ne : axis.place_of a ≢ j = λ e. ne (sym (rw (own-lane lane a mine, e) at at)) in
        ap (λ b. own lane a && b)
          (let t : ltb (axis.place_of a) j ≡ ltb (axis.place_of a) (suc j) = ground arith in t)
  ]

  -- The places of a lane's cells are those of its loop.
  pub all_places :
      (lane a : ℕ) → (own lane a && ltb (axis.place_of a) accessor.lane_length) ≡ own lane a
  all_places lane a = elim (Bool-cases (own lane a)) [
    | inr other ↦ rw other refl
    | inl mine ↦
        ap (λ b. own lane a && b)
          (lt→ltb (axis.place_of a) accessor.lane_length (axis.cell_lane a (own-lt lane a mine)).1)
        ∙ rw mine refl
  ]

  -- The cells of the lanes before a lane do not belong to it, and those before the next are these
  -- and its own.
  pub own_later :
      (lane a : ℕ) → own lane a ≡ true → (ltb a 4096 && ltb (axis.lane_of a) lane) ≡ false
  own_later lane a mine = ground (arith, mine)

  pub own_next :
      (lane a : ℕ) → own lane a ≡ true → (ltb a 4096 && ltb (axis.lane_of a) (suc lane)) ≡ true
  own_next lane a mine = ground (arith, mine)

  pub other_next :
      (lane a : ℕ)
      → own lane a ≡ false
      → (ltb a 4096 && ltb (axis.lane_of a) lane) ≡ (ltb a 4096 && ltb (axis.lane_of a) (suc lane))
  other_next lane a other = ground (arith, other)
