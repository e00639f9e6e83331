-- ===== src/Hypercube.antt =====
-- common.hh and cpu_encoder.inl: copying a hypercube out of and into the grid, row by row.
pub mod Rows
pub mod Cells
pub mod Coverage
use ndzip.Base.{ℕ, ◌+◌, ◌*◌, ◌==◌, if◌then◌else◌, for_up}
use ndzip.Word.{u32}
use ndzip.Memory.{Memory, update}
use ndzip.Extent.{Extent, linear_index}

-- One row of `for_each_hypercube_slice`: the state of `f`, `slice_ptr` and `cube_ptr`.
pub slice_round {ℓ} : {S : Type ℓ} → ℕ → ℕ → (ℕ → ℕ → ℕ → S → S) → ℕ → S × ℕ × ℕ → S × ℕ × ℕ
slice_round side stride f i (s, slice_ptr, cube_ptr) =
    (f slice_ptr cube_ptr side s, slice_ptr + stride, cube_ptr + side)

-- One round of its outer loop in three dimensions.
pub plane_round {ℓ} : {S : Type ℓ} → ℕ → ℕ → ℕ → (ℕ → ℕ → ℕ → S → S) → ℕ → S × ℕ × ℕ → S × ℕ × ℕ
unfolding slice_round for_up
plane_round side stride0 stride1 f i (s, slice_ptr, cube_ptr) =
    let (s', slice_ptr1, cube_ptr') =
      for_up 0 side 1 (slice_round side stride1 f) (s, slice_ptr, cube_ptr) in
    (s', slice_ptr + stride0, cube_ptr')

-- `for_each_hypercube_slice(hc_offset, data, cube, f)`; pointers are indices into the two arrays.
unfoldable pub for_each_hypercube_slice {ℓ} :
    {S : Type ℓ} → ℕ → ℕ → Extent → Extent → (ℕ → ℕ → ℕ → S → S) → S → S
unfolding slice_round plane_round for_up linear_index
for_each_hypercube_slice dims side hc_offset size f s =
    let slice_ptr = linear_index dims size hc_offset in
    if dims == 1
    then f slice_ptr 0 side s
    else if dims == 2
    then (for_up 0 side 1 (slice_round side (size 1) f) (s, slice_ptr, 0)).0
    else if dims == 3
    then (for_up 0 side 1 (plane_round side (u32 (size 1 * size 2)) (size 2) f) (s, slice_ptr, 0)).0
    else s

-- `memcpy` of `n_elems` elements.
pub memcpy_elems : Memory → ℕ → ℕ → ℕ → Memory → Memory
unfolding for_up update
memcpy_elems src src_ptr dest_ptr n_elems dest =
    for_up 0 n_elems 1 (λ i dest. update dest (dest_ptr + i) (src (src_ptr + i))) dest

-- `load_hypercube(hc_offset, data, cube)`; a float and its bits are the same word.
unfoldable pub load_hypercube : ℕ → ℕ → Extent → Extent → Memory → Memory → Memory
unfolding for_each_hypercube_slice memcpy_elems
load_hypercube dims side hc_offset size values cube =
    for_each_hypercube_slice dims side hc_offset size (λ src dest n. memcpy_elems values src dest n)
      cube

-- `store_hypercube(hc_offset, cube, data)`.
unfoldable pub store_hypercube : ℕ → ℕ → Extent → Extent → Memory → Memory → Memory
unfolding for_each_hypercube_slice memcpy_elems
store_hypercube dims side hc_offset size cube values =
    for_each_hypercube_slice dims side hc_offset size (λ dest src n. memcpy_elems cube src dest n)
      values
