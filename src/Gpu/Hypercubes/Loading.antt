-- ===== src/Gpu/Hypercubes/Loading.antt =====
-- A hypercube that is loaded and transformed in local memory, as the CPU loads and transforms it.
use ndzip.Base.{
  ℕ, suc, ◌+◌, ◌^◌, ◌<◌, ◌≡◌, refl, ap, sym, ◌∙◌, arith, subst, fun_ext, ltb, if◌then◌else◌, lt→ltb,
  le→ltb,
}
use native.Mathlib.Decide.{dec_lt}
use ndzip.Word.{u32, IsWord, rotate_left_1, complement_negative}
use ndzip.Word.Rotate.{rotate_left_1-IsWord}
use ndzip.Memory.{Memory}
use ndzip.Extent.{Extent, linear_index, linear_offset, div_extent}
use ndzip.Extent.Laws.{volume}
use ndzip.Transform.{ipow, for_each_cell, differences, block_transform}
use ndzip.Transform.Axes.{Words}
use ndzip.Transform.Grids.{differences-eq}
use ndzip.Transform.Cellwise.{for_each_cell-eq}
use ndzip.Transform.Local.{block_transform-IsLocal}
use ndzip.Hypercube.{load_hypercube}
use ndzip.Hypercube.Cells.{cell_address, load_hypercube_lem}
use ndzip.Gpu.Lanes.{HypercubePtr, forward_block_transform}
use ndzip.Gpu.Lanes.Items.{items_loop}
use ndzip.Gpu.Lanes.Agreement.{IsProfile, side_of, transforms}
use ndzip.Gpu.Hypercubes.{global_offset, for_hypercube_indices, cuda_load_hypercube}
use ndzip.Gpu.Hypercubes.Corners.{
  origin, HasCount, profile-HasCount, block_transform-stages, global_idx-eq,
}

module _ (bytes dims : ℕ) (profile : IsProfile bytes dims) (size : Extent)
    (small : volume size dims < 2 ^ 32) (k : ℕ)
    (hk : k < volume (div_extent dims size (side_of dims)) dims) where
  abbrev side : ℕ
  side = side_of dims

  abbrev o : Extent
  o = origin dims (side_of dims) size k

  count : HasCount dims (side_of dims)
  count = profile-HasCount bytes dims profile

  module _ (m : ℕ) (hc : HypercubePtr (suc m)) (values : Memory)
      (words : (a : ℕ) → IsWord (suc m) (values a)) (memory : Memory) where
    abbrev w : ℕ
    w = suc m

    abbrev address : ℕ → ℕ
    address = cell_address dims (side_of dims) size (linear_index dims size o)

    -- The cells of the hypercube, and behind them what the memory had.
    abbrev cells : Memory
    cells a = if ltb a 4096 then values (address a) else hc.load memory a

    abbrev loaded : Memory
    loaded = cuda_load_hypercube w hc dims (side_of dims) k size values memory

    loaded-cells : hc.load loaded ≡ for_each_cell 4096 (rotate_left_1 w) cells
    unfolding cuda_load_hypercube for_hypercube_indices
    loaded-cells = fun_ext λ a.
        let index : ℕ → ℕ =
          λ c. u32 (linear_offset dims o size + global_offset dims (side_of dims) c size) in
        items_loop w hc (λ c v. rotate_left_1 w (values (index c))) (hc.load memory)
          (ipow 32 (side_of dims) dims)
          (λ i hi. rotate_left_1-IsWord m (values (index i)) (words (index i))) memory (λ a. refl) a
        ∙ ap (λ n. if ltb a n then rotate_left_1 w (values (index a)) else hc.load memory a)
            count.loop
        ∙ elim (dec_lt a 4096) [
          | yes lt ↦
              rw (for_each_cell-eq (rotate_left_1 w) cells 4096 a, lt→ltb a 4096 lt)
                (ap (λ n. rotate_left_1 w (values n))
                  (global_idx-eq bytes dims profile size small k hk a lt))
          | no ge ↦
              rw (for_each_cell-eq (rotate_left_1 w) cells 4096 a, le→ltb a 4096 (omega arith)) refl
        ]

    loaded-Words : Words w 4096 (for_each_cell 4096 (rotate_left_1 w) cells)
    loaded-Words a lt =
        rw (for_each_cell-eq (rotate_left_1 w) cells 4096 a, lt→ltb a 4096 lt)
          (rotate_left_1-IsWord m (values (address a)) (words (address a)))

    whole_array :
        hc.load (forward_block_transform w hc bytes dims loaded)
        ≡ block_transform w dims (side_of dims) cells
    whole_array =
        transforms m hc loaded _ (loaded-cells, loaded-Words) bytes dims profile
        ∙ ap (for_each_cell 4096 (complement_negative w)) (
            sym (
              differences-eq w (side_of dims) count.some_side dims
                (for_each_cell 4096 (rotate_left_1 w) cells)))
        ∙ ap
            (λ n.
              for_each_cell n (complement_negative w)
                (differences w dims (side_of dims) (for_each_cell n (rotate_left_1 w) cells)))
            (sym count.loop)
        ∙ block_transform-stages w dims (side_of dims) cells

    -- For values of 4 or 8 bytes and the hypercubes of one, two or three dimensions, a grid of
    -- fewer than `2 ^ 32` elements that are words of the memory's cells, and any hypercube of the
    -- grid: loading it into local memory, whatever that held, and transforming it there leaves in
    -- each cell what the portable transform makes of the hypercube that the CPU encoder loads.
    pub forward_block_transform-eq-block_transform :
        (cube : Memory) (a : ℕ)
        → a < 4096
        → hc.load (forward_block_transform w hc bytes dims loaded) a
          ≡ block_transform w dims
              (side_of dims)
              (load_hypercube dims (side_of dims) o size values cube)
              a
    forward_block_transform-eq-block_transform cube a lt =
        let inside : a < side_of dims ^ dims = rw count.power lt in
        let local =
          block_transform-IsLocal m (side_of dims) dims count.some_side
            (rw count.power (omega arith)) in
        ap (λ f. f a) whole_array
        ∙ local.reads cells (load_hypercube dims (side_of dims) o size values cube)
            (λ b hb.
              let small : b < 4096 = subst (λ n. b < n) count.power hb in
              ap (λ t. if t then values (address b) else hc.load memory b) (lt→ltb b 4096 small)
              ∙ sym (
                  load_hypercube_lem dims (side_of dims) o size count.positive count.most
                    count.some_side values cube b (rw count.row_cells small)))
            a inside
