-- ===== src/Border/Restored.antt =====
-- The border of a grid survives `pack_border` and `unpack_border`.
use ndzip.Base.{ℕ, ◌*◌, ◌/◌, ◌^◌, ◌≤◌, ◌<◌, ◌≡◌, ◌∙◌, sym, arith, inr}
use ndzip.Memory.{Memory}
use ndzip.Extent.{Extent, linear_index}
use ndzip.Extent.Laws.{volume}
use ndzip.Border.{pack_border, unpack_border}
use ndzip.Border.RoundTrip.{pack_border_lem, unpack_border_lem}
use ndzip.Border.Coverage.{border_slices-InSlices}
use ndzip.Extent.Ids.{linear_index-value}

module _ (bytes base : ℕ) (src : Memory) (fits : (a : ℕ) → src a < 2 ^ (8 * bytes)) (dims : ℕ)
    (size : Extent) (side : ℕ) (hs : 0 < side) (small : volume size dims < 2 ^ 32)
    (stream dest : Memory) (q : Extent) (within : (d : ℕ) → d < dims → q d < size d) (e : ℕ)
    (he : e < dims) (behind : size e / side * side ≤ q e) where
  -- For an array of fewer than `2 ^ 32` elements that fit into their type, and a side that is not
  -- 0: `unpack_border` reads as many bytes as `pack_border` wrote, and restores the element at
  -- every position of the grid that is behind the last whole hypercube of some dimension `e`,
  -- whatever the array held before.
  pub unpack_border-pack_border :
      let packed = pack_border bytes base dims size side src stream in
      let unpacked = unpack_border bytes base dims size side packed.0 dest in
      (unpacked.1 ≡ packed.1)
      × (unpacked.0 (linear_index dims size q) ≡ src (linear_index dims size q))
  unpack_border-pack_border =
      let (holds, length, others) = pack_border_lem bytes base src fits dims size side stream in
      let (read, restored) = unpack_border_lem bytes base src fits dims size side _ dest holds in
      let at = linear_index-value dims size q (omega arith) small within in
      let covered = border_slices-InSlices dims size side hs small q within e he behind in
      (read ∙ sym length, rw at (restored _ (inr covered)))
