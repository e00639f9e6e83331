-- ===== src/Gpu/Lanes/Axis.antt =====
-- The lanes of an accessor as the lines of a hypercube of 4096 cells along an axis.
use ndzip.Base.{ℕ, ◌+◌, ◌-◌, ◌*◌, ◌==◌, ◌<◌, ◌≡◌, ◌⊎◌, ltb, true, false}
use ndzip.Gpu.Lanes.{Accessor, no_such_lane}
use ndzip.Transform.Cells.{block, place}

module _ (accessor : Accessor) where
  abbrev pub cell : ℕ → ℕ → ℕ
  cell lane i = accessor.offset lane + i * accessor.stride

-- Each cell belongs to one lane, and has the neighbour on the axis that the lane reads or carries
-- over.
pub record IsAxis (accessor : Accessor) (n s outer : ℕ) : Type 0 where
  pub lane_of : ℕ → ℕ
  pub place_of : ℕ → ℕ
  pub lane_cell :
      (lane i : ℕ)
      → lane < accessor.num_lanes
      → i < accessor.lane_length
      → (cell accessor lane i < 4096)
        × (lane_of (cell accessor lane i) ≡ lane)
        × (place_of (cell accessor lane i) ≡ i)
  pub cell_lane :
      (a : ℕ)
      → a < 4096
      → (lane_of a < accessor.num_lanes)
        × (place_of a < accessor.lane_length)
        × (cell accessor (lane_of a) (place_of a) ≡ a)
  pub stride-eq : accessor.stride ≡ s
  pub later : (a : ℕ) → a < 4096 → 0 < place_of a → 0 < place n s a
  pub first :
      (a : ℕ)
      → a < 4096
      → place_of a ≡ 0
      → let prev = accessor.prev_lane_in_row (lane_of a) in
        ((0 < place n s a)
          × (ltb accessor.lane_length accessor.side_length ≡ true)
          × ((prev == no_such_lane) ≡ false)
          × (accessor.offset prev + (accessor.lane_length - 1) * accessor.stride ≡ a - s))
        ⊎ ((place n s a ≡ 0)
            × ((ltb accessor.lane_length accessor.side_length ≡ false)
                ⊎ ((prev == no_such_lane) ≡ true)))
  pub inside : (a : ℕ) → a < 4096 → block n s a < outer
  pub outside : (a : ℕ) → block n s a < outer → a < 4096
