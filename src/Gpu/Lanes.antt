-- ===== src/Gpu/Lanes.antt =====
-- ndzip/gpu_common.hh and cuda_encoder.inl: the lanes of a hypercube, each a run of cells in one
-- direction, and the block transform along them. Between two barriers each lane works on its own
-- cells.
pub mod Axis
pub mod Own
pub mod Items
pub mod Runs
pub mod Directions
pub mod Agreement
use ndzip.Base.{ℕ, ◌+◌, ◌-◌, ◌*◌, ◌/◌, ◌%◌, ◌^◌, ◌==◌, ◌<◌, ◌≡◌, ltb, leb, if◌then◌else◌, for_up}
use Prim.Native.Nat.{bit_or}
use ndzip.Word.{shr, sub, complement_negative}
use ndzip.Memory.{Memory}
use ndzip.Transform.{ipow, for_each_cell}

-- `hypercube_ptr`, for cells of `w` bits: a stored cell can be loaded, and others keep their bits.
pub record HypercubePtr (w : ℕ) : Type 0 where
  pub load : Memory → ℕ → ℕ
  pub store : ℕ → ℕ → Memory → Memory
  pub load-store :
      (memory : Memory) (i j bits : ℕ)
      → bits < 2 ^ w
      → load (store i bits memory) j ≡ (if j == i then bits else load memory j)

unfoldable pub floor_power_of_two : ℕ → ℕ → ℕ
unfolding for_up
floor_power_of_two w x = (for_up 1 w 1 (λ s x. bit_or x (shr x s)) x + 1) % 2 ^ w / 2

-- `hypercube_group_size`, for values of so many bytes.
abbrev pub hypercube_group_size : ℕ → ℕ
hypercube_group_size bytes = if bytes == 4 then 256 else 512

abbrev pub no_such_lane : ℕ
no_such_lane = 2 ^ 32 - 1

-- A `directional_accessor`, with what it takes from its layout.
pub record Accessor : Type 0 where
  pub side_length : ℕ
  pub num_lanes : ℕ
  pub lane_length : ℕ
  pub prev_lane_in_row : ℕ → ℕ
  pub offset : ℕ → ℕ
  pub stride : ℕ

-- The accessors of the forward transform.
unfoldable pub accessor_1_0 : ℕ → Accessor
unfolding floor_power_of_two
accessor_1_0 bytes =
    let num_lanes = floor_power_of_two 32 (hypercube_group_size bytes) in
    record {
      side_length = 4096;
      num_lanes = num_lanes;
      lane_length = 4096 / num_lanes;
      prev_lane_in_row = λ lane. if ltb 0 lane then lane - 1 else no_such_lane;
      offset = λ lane. lane * 4096 / num_lanes;
      stride = 1;
    }

unfoldable pub accessor_2_0 : ℕ → Accessor
unfolding floor_power_of_two
accessor_2_0 bytes =
    let num_lanes = floor_power_of_two 32 (hypercube_group_size bytes) in
    record {
      side_length = 64;
      num_lanes = num_lanes;
      lane_length = 64 * 64 / num_lanes;
      prev_lane_in_row =
          λ lane. if ltb 0 (lane % (64 / (64 * 64 / num_lanes))) then lane - 1 else no_such_lane;
      offset = λ lane. lane * (64 * 64 / num_lanes);
      stride = 1;
    }

unfoldable pub accessor_2_1 : ℕ → Accessor
unfolding floor_power_of_two
accessor_2_1 bytes =
    let num_lanes = floor_power_of_two 32 (hypercube_group_size bytes) in
    record {
      side_length = 64;
      num_lanes = num_lanes;
      lane_length = 64 * 64 / num_lanes;
      prev_lane_in_row = λ lane. if leb 64 lane then lane - 64 else no_such_lane;
      offset = λ lane. lane / 64 * (64 * 64 / num_lanes * 64) + lane % 64;
      stride = 64;
    }

-- The accessors that both transforms use for three dimensions.
abbrev pub accessor_3_0 : Accessor
accessor_3_0 = record {
  side_length = 16;
  num_lanes = 256;
  lane_length = 4096 / 256;
  prev_lane_in_row = λ lane. no_such_lane;
  offset = λ lane. lane * 16;
  stride = 1;
}

abbrev pub accessor_3_1 : Accessor
accessor_3_1 = record {
  side_length = 16;
  num_lanes = 256;
  lane_length = 4096 / 256;
  prev_lane_in_row = λ lane. no_such_lane;
  offset = λ lane. sub 32 (lane / 16 * 2 * 256) (lane / (256 / 2) * (4096 - 256)) + lane % 16;
  stride = 16;
}

abbrev pub accessor_3_2 : Accessor
accessor_3_2 = record {
  side_length = 16;
  num_lanes = 256;
  lane_length = 4096 / 256;
  prev_lane_in_row = λ lane. no_such_lane;
  offset = λ lane. lane;
  stride = 16 * 16;
}

module _ (w : ℕ) (hc : HypercubePtr w) where
  -- What a lane carries over from the lane before it in the row.
  abbrev pub carry : Accessor → Memory → ℕ → ℕ
  carry accessor memory lane =
      let prev_lane = accessor.prev_lane_in_row lane in
      if prev_lane == no_such_lane
      then 0
      else hc.load memory (accessor.offset prev_lane + (accessor.lane_length - 1) * accessor.stride)

  -- One cell of a lane, on the memory and the loop's variables `a` and `index`.
  pub difference_of_cell : ℕ → ℕ → Memory × ℕ × ℕ → Memory × ℕ × ℕ
  difference_of_cell stride i (memory, a, index) =
      let b = hc.load memory index in (hc.store index (sub w b a) memory, b, index + stride)

  pub forward_lane : Accessor → Memory → ℕ → Memory → Memory
  unfolding difference_of_cell for_up
  forward_lane accessor before lane memory =
      let needs_carry = ltb accessor.lane_length accessor.side_length in
      let a = if needs_carry then carry accessor before lane else 0 in
      (for_up 0 accessor.lane_length 1 (difference_of_cell accessor.stride)
        (memory, a, accessor.offset lane)).0

  unfoldable pub forward_transform_lanes : Accessor → Memory → Memory
  unfolding forward_lane for_up
  forward_transform_lanes accessor memory =
      for_up 0 accessor.num_lanes 1 (forward_lane accessor memory) memory

  -- `forward_block_transform`, for hypercubes of side 4096, 64 and 16.
  unfoldable pub forward_block_transform : ℕ → ℕ → Memory → Memory
  unfolding forward_transform_lanes accessor_1_0 accessor_2_0 accessor_2_1 for_up ipow
  forward_block_transform bytes dims memory =
      let transformed =
        if dims == 1
        then forward_transform_lanes (accessor_1_0 bytes) memory
        else if dims == 2
        then forward_transform_lanes (accessor_2_1 bytes)
            (forward_transform_lanes (accessor_2_0 bytes) memory)
        else forward_transform_lanes accessor_3_2
            (forward_transform_lanes accessor_3_1 (forward_transform_lanes accessor_3_0 memory)) in
      let side_length = if dims == 1 then 4096 else if dims == 2 then 64 else 16 in
      for_up 0 (ipow 32 side_length dims) 1
        (λ item memory. hc.store item (complement_negative w (hc.load memory item)) memory)
        transformed
