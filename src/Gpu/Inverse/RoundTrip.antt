-- ===== src/Gpu/Inverse/RoundTrip.antt =====
-- A hypercube that is restored in local memory and stored to the grid.
use ndzip.Base.{
  ℕ, suc, ◌+◌, ◌^◌, ◌<◌, ◌≡◌, inl, inr, refl, ap, sym, ◌∙◌, subst, if◌then◌else◌, lt→ltb,
}
use ndzip.Word.{u32, IsWord, complement_negative, rotate_left_1, rotate_right_1}
use ndzip.Word.Rotate.{rotate_left_1-IsWord, rotate_right_1-rotate_left_1}
use ndzip.Memory.{Memory}
use ndzip.Extent.{Extent, linear_index, linear_offset, div_extent}
use ndzip.Extent.Laws.{volume}
use ndzip.Transform.{ipow, for_each_cell, differences, block_transform}
use ndzip.Transform.Axes.{Words}
use ndzip.Transform.Grids.{grid_differences, differences-eq}
use ndzip.Transform.Inverse.{differences-Words}
use ndzip.Transform.Cellwise.{for_each_cell-eq}
use ndzip.Hypercube.{load_hypercube}
use ndzip.Hypercube.Cells.{cell_address, load_hypercube_lem}
use ndzip.Gpu.Lanes.{HypercubePtr}
use ndzip.Gpu.Lanes.Agreement.{IsProfile, side_of}
use ndzip.Gpu.Hypercubes.{global_offset, for_hypercube_indices, cuda_store_hypercube}
use ndzip.Gpu.Hypercubes.Corners.{
  origin, HasCount, profile-HasCount, block_transform-stages, global_idx-eq,
}
use ndzip.Gpu.Inverse.{cuda_inverse_block_transform}
use ndzip.Gpu.Inverse.Restored.{Restores, one-Restores, two-Restores, three-Restores}
use ndzip.Gpu.Inverse.Storing.{Stored, stores}

module _ (m : ℕ) (hc : HypercubePtr (suc m)) (bytes dims : ℕ) (profile : IsProfile bytes dims)
    (linear : dims ≡ 1 → (memory : Memory) (i : ℕ) → hc.load memory i ≡ memory i) (cube : Memory)
    (words : Words (suc m) 4096 cube) where
  abbrev w : ℕ
  w = suc m

  abbrev rotated : Memory
  rotated = for_each_cell 4096 (rotate_left_1 w) cube

  rotated-cell : (a : ℕ) → a < 4096 → rotated a ≡ rotate_left_1 w (cube a)
  rotated-cell a lt = for_each_cell-eq (rotate_left_1 w) cube 4096 a ∙ rw (lt→ltb a 4096 lt) refl

  rotated-Words : Words w 4096 rotated
  rotated-Words a lt = rw (rotated-cell a lt) (rotate_left_1-IsWord m (cube a) (words a lt))

  count : HasCount dims (side_of dims)
  count = profile-HasCount bytes dims profile

  block_transform-cell :
      (a : ℕ)
      → a < 4096
      → block_transform w dims (side_of dims) cube a
        ≡ complement_negative w (grid_differences w dims (side_of dims) rotated a)
  block_transform-cell a lt =
      ap (λ f. f a)
        (sym (block_transform-stages w dims (side_of dims) cube)
          ∙ ap
              (λ n.
                for_each_cell n (complement_negative w)
                  (differences w dims (side_of dims) (for_each_cell n (rotate_left_1 w) cube)))
              count.loop
          ∙ ap (for_each_cell 4096 (complement_negative w))
              (differences-eq w (side_of dims) count.some_side dims rotated))
      ∙ for_each_cell-eq (complement_negative w) (grid_differences w dims (side_of dims) rotated)
          4096 a
      ∙ ap
          (λ b.
            if b
            then complement_negative w (grid_differences w dims (side_of dims) rotated a)
            else grid_differences w dims (side_of dims) rotated a)
          (lt→ltb a 4096 lt)

  differences-are-Words : Words w 4096 (grid_differences w dims (side_of dims) rotated)
  differences-are-Words =
      subst (λ n. Words w n (grid_differences w dims (side_of dims) rotated)) count.power
        (subst (Words w (side_of dims ^ dims))
          (differences-eq w (side_of dims) count.some_side dims rotated)
          (differences-Words w (side_of dims) count.some_side dims rotated
            (subst (λ n. Words w n rotated) (sym count.power) rotated-Words)))

  restores : (before : Memory) → Restores m hc before rotated rotated-Words dims (side_of dims)
  restores before = elim profile.1 [
    | inl e ↦
        subst (λ d. Restores m hc before rotated rotated-Words d (side_of d)) (sym e)
          (one-Restores m hc before rotated rotated-Words (linear e))
    | inr (inl e) ↦
        subst (λ d. Restores m hc before rotated rotated-Words d (side_of d)) (sym e)
          (two-Restores m hc before rotated rotated-Words)
    | inr (inr e) ↦
        subst (λ d. Restores m hc before rotated rotated-Words d (side_of d)) (sym e)
          (three-Restores m hc before rotated rotated-Words)
  ]

  -- What the inverse transform leaves in a cell is the rotated value that was there before the
  -- forward one.
  pub restored :
      (before : Memory)
      → ((a : ℕ) → a < 4096 → hc.load before a ≡ block_transform w dims (side_of dims) cube a)
      → (a : ℕ) → a < 4096
      → rotate_right_1 w (hc.load (cuda_inverse_block_transform w hc dims before) a) ≡ cube a
  restored before h a lt =
      ap (rotate_right_1 w) (
        restores before differences-are-Words (λ b hb. h b hb ∙ block_transform-cell b hb) a lt
        ∙ rotated-cell a lt)
      ∙ rotate_right_1-rotate_left_1 m (cube a) (words a lt)

module _ (m : ℕ) (hc : HypercubePtr (suc m)) (bytes dims : ℕ) (profile : IsProfile bytes dims)
    (size : Extent) (small : volume size dims < 2 ^ 32) (k : ℕ)
    (hk : k < volume (div_extent dims size (side_of dims)) dims) (src : Memory) where
  abbrev address : ℕ → ℕ
  address =
      cell_address dims (side_of dims) size
        (linear_index dims size (origin dims (side_of dims) size k))

  -- The grid that the store of a local memory makes of a target has the cells of `src` in the
  -- hypercube, and is the target elsewhere.
  abbrev pub Restored : Memory → Memory → Type 0
  Restored memory target =
      Stored address src target 4096
        (cuda_store_hypercube (suc m) hc dims (side_of dims) k size memory target)

  stored :
      (after target : Memory)
      → ((c : ℕ) → c < 4096 → rotate_right_1 (suc m) (hc.load after c) ≡ src (address c))
      → Restored after target
  unfolding cuda_store_hypercube for_hypercube_indices
  stored after target holds =
      let o = origin dims (side_of dims) size k in
      let index : ℕ → ℕ =
        λ c. u32 (linear_offset dims o size + global_offset dims (side_of dims) c size) in
      let count = profile-HasCount bytes dims profile in
      let at : (c : ℕ) → c < 4096 → index c ≡ address c =
        global_idx-eq bytes dims profile size small k hk in
      let (inside, outside) =
        stores index src target (λ c. rotate_right_1 (suc m) (hc.load after c))
          (ipow 32 (side_of dims) dims)
          (λ c all.
            let lt : c < 4096 = subst (λ n. c < n) count.loop all in
            holds c lt ∙ ap src (sym (at c lt))) in
      (
        (λ c lt.
            subst
              (λ i.
                cuda_store_hypercube (suc m) hc dims (side_of dims) k size after target i ≡ src i)
              (at c lt) (inside c (subst (λ n. c < n) (sym count.loop) lt))),
        λ a away. outside a (λ c all.
            let lt : c < 4096 = subst (λ n. c < n) count.loop all in λ e. away c lt (e ∙ at c lt)),
      )

  module _ (linear : dims ≡ 1 → (memory : Memory) (i : ℕ) → hc.load memory i ≡ memory i)
      (words : (a : ℕ) → IsWord (suc m) (src a)) where
    -- For values of 4 or 8 bytes and the hypercubes of one, two or three dimensions, a grid of
    -- fewer than `2 ^ 32` elements that are words of the memory's cells, any hypercube of the grid,
    -- and a memory that is linear in one dimension: let the local memory's cells be what the CPU's
    -- transform makes of the hypercube. The inverse transform there and the store to a target then
    -- make the target's cells of the hypercube those of the grid, and leave its other cells as they
    -- were.
    pub cuda_store_hypercube-cuda_inverse_block_transform :
        (cube before target : Memory)
        → ((a : ℕ)
            → a < 4096
            → hc.load before a
              ≡ block_transform
                  (suc m)
                  dims
                  (side_of dims)
                  (load_hypercube dims
                    (side_of dims)
                    (origin dims (side_of dims) size k)
                    size
                    src
                    cube)
                  a)
        → Restored (cuda_inverse_block_transform (suc m) hc dims before) target
    cuda_store_hypercube-cuda_inverse_block_transform cube before target h =
        let count = profile-HasCount bytes dims profile in
        let o = origin dims (side_of dims) size k in
        let loaded : (c : ℕ)
            → c < 4096
            → load_hypercube dims (side_of dims) o size src cube c ≡ src (address c) =
          λ c lt.
            load_hypercube_lem dims (side_of dims) o size count.positive count.most count.some_side
              src cube c (subst (λ n. c < n) (sym count.row_cells) lt) in
        stored (cuda_inverse_block_transform (suc m) hc dims before) target (λ c lt.
          restored m hc bytes dims profile linear
            (load_hypercube dims (side_of dims) o size src cube)
            (λ a la. subst (IsWord (suc m)) (sym (loaded a la)) (words (address a))) before h c lt
          ∙ loaded c lt)
