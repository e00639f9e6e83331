-- ===== src/Gpu/Hypercubes.antt =====
-- ndzip/gpu_common.hh and cuda_encoder.inl: copying a hypercube between global and local memory,
-- cell by cell.
pub mod Addresses
pub mod Corners
pub mod Loading
use ndzip.Base.{ℕ, zero, suc, ◌+◌, ◌-◌, ◌*◌, ◌/◌, ◌%◌, for_up}
use ndzip.Word.{u32, rotate_left_1, rotate_right_1}
use ndzip.Memory.{Memory, update}
use ndzip.Extent.{Extent, linear_offset, extent_from_linear_id, mul_extent, div_extent}
use ndzip.Transform.{ipow}
use ndzip.Gpu.Lanes.{HypercubePtr}

-- The loop of `global_offset`, on `global_offset`, `global_stride` and `local_offset`.
pub global_offset_round : ℕ → ℕ → Extent → ℕ → ℕ × ℕ × ℕ → ℕ × ℕ × ℕ
global_offset_round dims side global_size d (global_offset, global_stride, local_offset) = (
  u32 (global_offset + u32 (global_stride * (local_offset % side))),
  u32 (global_stride * global_size (dims - 1 - d)),
  local_offset / side,
)

unfoldable pub global_offset : ℕ → ℕ → ℕ → Extent → ℕ
unfolding for_up global_offset_round
global_offset dims side local_offset global_size =
    (for_up 0 dims 1 (global_offset_round dims side global_size) (0, 1, local_offset)).0

-- `for_hypercube_indices`; `f` takes the index in the grid and that in the hypercube.
unfoldable pub for_hypercube_indices : {S : Type 0} → ℕ → ℕ → ℕ → Extent → (ℕ → ℕ → S → S) → S → S
unfolding for_up extent_from_linear_id mul_extent div_extent linear_offset ipow global_offset
for_hypercube_indices dims side hc_index data_size f s =
    let hc_offset =
      mul_extent dims (extent_from_linear_id dims hc_index (div_extent dims data_size side)) side in
    let initial_offset = linear_offset dims hc_offset data_size in
    for_up 0 (ipow 32 side dims) 1
      (λ local_idx.
        f (u32 (initial_offset + global_offset dims side local_idx data_size)) local_idx)
      s

module _ (w : ℕ) (hc : HypercubePtr w) where
  -- `load_hypercube` and `store_hypercube`; a float and its bits are the same word.
  unfoldable pub cuda_load_hypercube : ℕ → ℕ → ℕ → Extent → Memory → Memory → Memory
  unfolding for_hypercube_indices rotate_left_1
  cuda_load_hypercube dims side hc_index data_size values memory =
      for_hypercube_indices dims side hc_index data_size
        (λ global_idx local_idx. hc.store local_idx (rotate_left_1 w (values global_idx))) memory

  unfoldable pub cuda_store_hypercube : ℕ → ℕ → ℕ → Extent → Memory → Memory → Memory
  unfolding for_hypercube_indices rotate_right_1 update
  cuda_store_hypercube dims side hc_index data_size memory values =
      for_hypercube_indices dims side hc_index data_size
        (λ global_idx local_idx values.
          update values global_idx (rotate_right_1 w (hc.load memory local_idx)))
        values
