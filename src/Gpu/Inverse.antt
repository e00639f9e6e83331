-- ===== src/Gpu/Inverse.antt =====
-- ndzip/gpu_common.hh and cuda_encoder.inl: the inverse transform in local memory.
pub mod Sums
pub mod Directions
pub mod Restored
pub mod Storing
pub mod RoundTrip
use ndzip.Base.{ℕ, zero, suc, ◌+◌, ◌-◌, ◌*◌, ◌/◌, ◌%◌, ◌==◌, if◌then◌else◌, for_up}
use ndzip.Word.{add, complement_negative}
use ndzip.Memory.{Memory}
use ndzip.Transform.{ipow}
use ndzip.Gpu.Scan.{inclusive_scan}
use ndzip.Gpu.Lanes.{HypercubePtr, Accessor, no_such_lane, accessor_3_0, accessor_3_1, accessor_3_2}

-- The accessors of the inverse transform in two dimensions.
abbrev pub inverse_accessor_2_0 : Accessor
inverse_accessor_2_0 = record {
  side_length = 64;
  num_lanes = 64;
  lane_length = 64 * 64 / 64;
  prev_lane_in_row = λ lane. no_such_lane;
  offset = λ lane. lane * 64;
  stride = 1;
}

abbrev pub inverse_accessor_2_1 : Accessor
inverse_accessor_2_1 = record {
  side_length = 64;
  num_lanes = 64;
  lane_length = 64 * 64 / 64;
  prev_lane_in_row = λ lane. no_such_lane;
  offset = λ lane. lane % 64;
  stride = 64;
}

module _ (w : ℕ) (hc : HypercubePtr w) where
  -- One cell of a lane, on the memory and the loop's variables `a` and `index`.
  pub sum_of_cell : ℕ → ℕ → Memory × ℕ × ℕ → Memory × ℕ × ℕ
  sum_of_cell stride i (memory, a, index) =
      let index' = index + stride in
      let a' = add w a (hc.load memory index') in (hc.store index' a' memory, a', index')

  pub inverse_lane : Accessor → ℕ → Memory → Memory
  unfolding sum_of_cell for_up
  inverse_lane accessor lane memory =
      let index = accessor.offset lane in
      (for_up 1 accessor.lane_length 1 (sum_of_cell accessor.stride)
        (memory, hc.load memory index, index)).0

  unfoldable pub inverse_transform_lanes : Accessor → Memory → Memory
  unfolding inverse_lane for_up
  inverse_transform_lanes accessor memory =
      for_up 0 accessor.num_lanes 1 (inverse_lane accessor) memory

  -- `inverse_block_transform`, for hypercubes of side 4096, 64 and 16; in one dimension it scans the
  -- memory behind the pointer.
  unfoldable pub cuda_inverse_block_transform : ℕ → Memory → Memory
  unfolding inverse_transform_lanes inclusive_scan for_up ipow
  cuda_inverse_block_transform dims memory =
      let side_length = if dims == 1 then 4096 else if dims == 2 then 64 else 16 in
      let complemented =
        for_up 0 (ipow 32 side_length dims) 1
          (λ item memory. hc.store item (complement_negative w (hc.load memory item)) memory)
          memory in
      if dims == 1
      then inclusive_scan (add w) 0 4096 complemented
      else if dims == 2
      then inverse_transform_lanes inverse_accessor_2_1
          (inverse_transform_lanes inverse_accessor_2_0 complemented)
      else inverse_transform_lanes accessor_3_2
          (inverse_transform_lanes accessor_3_1 (inverse_transform_lanes accessor_3_0 complemented))
