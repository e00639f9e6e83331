-- ===== src/Gpu/Lanes/Agreement.antt =====
-- The forward transform in local memory agrees with the transform of common.hh.
use ndzip.Base.{
  ℕ, suc, ◌*◌, ◌<◌, ◌≡◌, ◌⊎◌, inl, inr, refl, ap, sym, ◌∙◌, fun_ext, arith, for_up, if◌then◌else◌,
  subst, ◌==◌,
}
use ndzip.Transform.Cellwise.{for_each_cell-eq}
use ndzip.Word.{complement_negative}
use ndzip.Word.Complement.{complement_negative-IsWord}
use ndzip.Memory.{Memory}
use ndzip.Transform.{for_each_cell}
use ndzip.Transform.Axes.{Words, axis_difference, axis_difference-Words}
use ndzip.Transform.Grids.{grid_differences}
use ndzip.Avx2.Swap.{axis_swap}
use ndzip.Gpu.Lanes.{
  HypercubePtr, Accessor, forward_transform_lanes, forward_block_transform, accessor_1_0,
  accessor_2_0, accessor_2_1, accessor_3_0, accessor_3_1, accessor_3_2,
}
use ndzip.Gpu.Lanes.Axis.{IsAxis}
use ndzip.Gpu.Lanes.Items.{items_loop}
use ndzip.Gpu.Lanes.Runs.{forward_transform_lanes-cells}
use ndzip.Gpu.Lanes.Directions.{
  accessor_1_0_4-IsAxis, accessor_1_0_8-IsAxis, accessor_2_0_4-IsAxis, accessor_2_0_8-IsAxis,
  accessor_2_1_4-IsAxis, accessor_2_1_8-IsAxis, accessor_3_0-IsAxis, accessor_3_1-IsAxis,
  accessor_3_2-IsAxis,
}

-- The sides of the hypercubes, and the sizes of the values.
abbrev pub side_of : ℕ → ℕ
side_of dims = if dims == 1 then 4096 else if dims == 2 then 64 else 16

abbrev pub IsProfile : ℕ → ℕ → Type 0
IsProfile bytes dims = ((bytes ≡ 4) ⊎ (bytes ≡ 8)) × ((dims ≡ 1) ⊎ ((dims ≡ 2) ⊎ (dims ≡ 3)))

module _ (w : ℕ) (hc : HypercubePtr w) where
  -- The memory of a hypercube with these cells, all words.
  abbrev pub HasCells : Memory → Memory → Type 0
  HasCells m x = (hc.load m ≡ x) × Words w 4096 x

  lanes-HasCells :
      (accessor : Accessor) (n s outer : ℕ)
      → IsAxis accessor n s outer
      → 0 < n
      → 0 < s
      → outer * (n * s) ≡ 4096
      → (m x : Memory) → HasCells m x
      → HasCells (forward_transform_lanes w hc accessor m) (axis_difference w n s outer x)
  lanes-HasCells accessor n s outer axis hn hs size m x (e, words) = (
    fun_ext (λ a.
          forward_transform_lanes-cells w hc accessor n s outer axis m
            (subst (Words w 4096) (sym e) words) a)
        ∙ ap (axis_difference w n s outer) e,
    subst (λ c. Words w c (axis_difference w n s outer x)) size
        (axis_difference-Words w n s outer hn hs x (subst (λ c. Words w c x) (sym size) words)),
  )

  module _ (m x : Memory) (h : HasCells m x) where
    one :
        (accessor : Accessor)
        → IsAxis accessor 4096 1 1
        → HasCells (forward_transform_lanes w hc accessor m) (grid_differences w 1 4096 x)
    unfolding grid_differences axis_difference
    one accessor axis = lanes-HasCells accessor 4096 1 1 axis (omega arith) (omega arith) refl m x h

    two :
        (first second : Accessor)
        → IsAxis first 64 1 64
        → IsAxis second 64 64 1
        → HasCells
            (forward_transform_lanes w hc second (forward_transform_lanes w hc first m))
            (grid_differences w 2 64 x)
    unfolding grid_differences axis_difference
    two first second h1 h2 =
        lanes-HasCells second 64 64 1 h2 (omega arith) (omega arith) refl _ _
          (lanes-HasCells first 64 1 64 h1 (omega arith) (omega arith) refl m x h)

    three :
        HasCells
          (forward_transform_lanes w hc accessor_3_2 (
            forward_transform_lanes w hc accessor_3_1
              (forward_transform_lanes w hc accessor_3_0 m)))
          (grid_differences w 3 16 x)
    unfolding grid_differences axis_difference
    three =
        let rows =
          lanes-HasCells accessor_3_0 16 1 256 accessor_3_0-IsAxis (omega arith) (omega arith) refl
            m x h in
        let columns =
          lanes-HasCells accessor_3_1 16 16 16 accessor_3_1-IsAxis (omega arith) (omega arith) refl
            _ _ rows in
        let swapped : axis_difference w 16 16 16 (axis_difference w 16 1 256 x)
            ≡ axis_difference w 16 1 256 (axis_difference w 16 16 16 x) =
          sym (
            axis_swap w 16 1 16 1 256 16 (omega arith) (omega arith) (omega arith) refl refl x
              h.1) in
        lanes-HasCells accessor_3_2 16 256 1 accessor_3_2-IsAxis (omega arith) (omega arith) refl _
          _ (subst (HasCells _) swapped columns)

  abbrev complement_item : ℕ → Memory → Memory
  complement_item item memory = hc.store item (complement_negative w (hc.load memory item)) memory

module _ (m : ℕ) (hc : HypercubePtr (suc m)) where
  abbrev w : ℕ
  w = suc m

  complement_loop :
      (before x : Memory)
      → HasCells w hc before x
      → hc.load (for_up 0 4096 1 (complement_item w hc) before)
        ≡ for_each_cell 4096 (complement_negative w) x
  complement_loop before x h = fun_ext λ a.
      items_loop w hc (λ i v. complement_negative w v) x 4096
        (λ i hi. complement_negative-IsWord m (x i) (h.1 i hi)) before (λ a. ap (λ f. f a) h.0) a
      ∙ sym (for_each_cell-eq (complement_negative w) x 4096 a)

  module _ (before x : Memory) (h : HasCells w hc before x) where
    abbrev Transforms : ℕ → ℕ → Type 0
    Transforms bytes dims =
        hc.load (forward_block_transform w hc bytes dims before)
        ≡ for_each_cell 4096 (complement_negative w) (grid_differences w dims (side_of dims) x)

    one-Transforms : (bytes : ℕ) → IsAxis (accessor_1_0 bytes) 4096 1 1 → Transforms bytes 1
    unfolding forward_block_transform
    one-Transforms bytes axis = complement_loop _ _ (one w hc before x h (accessor_1_0 bytes) axis)

    two-Transforms :
        (bytes : ℕ)
        → IsAxis (accessor_2_0 bytes) 64 1 64
        → IsAxis (accessor_2_1 bytes) 64 64 1
        → Transforms bytes 2
    unfolding forward_block_transform
    two-Transforms bytes rows columns =
        complement_loop _ _
          (two w hc before x h (accessor_2_0 bytes) (accessor_2_1 bytes) rows columns)

    three-Transforms : (bytes : ℕ) → Transforms bytes 3
    unfolding forward_block_transform
    three-Transforms bytes = complement_loop _ _ (three w hc before x h)

    pub transforms : (bytes dims : ℕ) → IsProfile bytes dims → Transforms bytes dims
    transforms bytes dims (inl four, inl e) = rw (four, e) (one-Transforms 4 accessor_1_0_4-IsAxis)
    transforms bytes dims (inr eight, inl e) =
        rw (eight, e) (one-Transforms 8 accessor_1_0_8-IsAxis)
    transforms bytes dims (inl four, inr (inl e)) =
        rw (four, e) (two-Transforms 4 accessor_2_0_4-IsAxis accessor_2_1_4-IsAxis)
    transforms bytes dims (inr eight, inr (inl e)) =
        rw (eight, e) (two-Transforms 8 accessor_2_0_8-IsAxis accessor_2_1_8-IsAxis)
    transforms bytes dims (size, inr (inr e)) = rw e (three-Transforms bytes)
