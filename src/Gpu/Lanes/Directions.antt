-- ===== src/Gpu/Lanes/Directions.antt =====
-- The accessors of the forward transform are the axes of their hypercubes.
use ndzip.Base.{◌+◌, ◌*◌, ◌/◌, ◌%◌, refl, inl, inr, arith}
use native.Mathlib.Decide.{dec_lt}
use ndzip.Gpu.Lanes.{
  accessor_1_0, accessor_2_0, accessor_2_1, accessor_3_0, accessor_3_1, accessor_3_2,
}
use ndzip.Gpu.Lanes.Axis.{IsAxis}

pub accessor_3_0-IsAxis : IsAxis accessor_3_0 16 1 256
accessor_3_0-IsAxis = record {
  lane_of = λ a. a / 16;
  place_of = λ a. a % 16;
  lane_cell = λ lane i hl hi. (omega arith, omega arith, omega arith);
  cell_lane = λ a small. (omega arith, omega arith, omega arith);
  stride-eq = refl;
  later = λ a small later. omega arith;
  first = λ a small none. inr (omega arith, inl refl);
  inside = λ a small. omega arith;
  outside = λ a h. omega arith;
}

pub accessor_3_1-IsAxis : IsAxis accessor_3_1 16 16 16
accessor_3_1-IsAxis = record {
  lane_of = λ a. (a / 256 / 2 + a / 256 % 2 * 8) * 16 + a % 16;
  place_of = λ a. a / 16 % 16;
  lane_cell = λ lane i hl hi. (omega arith, omega arith, omega arith);
  cell_lane = λ a small. (omega arith, omega arith, omega arith);
  stride-eq = refl;
  later = λ a small later. omega arith;
  first = λ a small none. inr (omega arith, inl refl);
  inside = λ a small. omega arith;
  outside = λ a h. omega arith;
}

pub accessor_3_2-IsAxis : IsAxis accessor_3_2 16 256 1
accessor_3_2-IsAxis = record {
  lane_of = λ a. a % 256;
  place_of = λ a. a / 256;
  lane_cell = λ lane i hl hi. (omega arith, omega arith, omega arith);
  cell_lane = λ a small. (omega arith, omega arith, omega arith);
  stride-eq = refl;
  later = λ a small later. omega arith;
  first = λ a small none. inr (omega arith, inl refl);
  inside = λ a small. omega arith;
  outside = λ a h. omega arith;
}

pub accessor_1_0_4-IsAxis : IsAxis (accessor_1_0 4) 4096 1 1
unfolding accessor_1_0
accessor_1_0_4-IsAxis = record {
  lane_of = λ a. a / 16;
  place_of = λ a. a % 16;
  lane_cell = λ lane i hl hi. (omega arith, omega arith, omega arith);
  cell_lane = λ a small. (omega arith, omega arith, omega arith);
  stride-eq = refl;
  later = λ a small later. omega arith;
  first = λ a small none. elim (dec_lt 0 (a / 16)) [
    | yes some ↦ inl (omega arith, refl, ground arith, ground arith)
    | no edge ↦ inr (omega arith, inr (ground arith))
  ];
  inside = λ a small. omega arith;
  outside = λ a h. omega arith;
}

pub accessor_1_0_8-IsAxis : IsAxis (accessor_1_0 8) 4096 1 1
unfolding accessor_1_0
accessor_1_0_8-IsAxis = record {
  lane_of = λ a. a / 8;
  place_of = λ a. a % 8;
  lane_cell = λ lane i hl hi. (omega arith, omega arith, omega arith);
  cell_lane = λ a small. (omega arith, omega arith, omega arith);
  stride-eq = refl;
  later = λ a small later. omega arith;
  first = λ a small none. elim (dec_lt 0 (a / 8)) [
    | yes some ↦ inl (omega arith, refl, ground arith, ground arith)
    | no edge ↦ inr (omega arith, inr (ground arith))
  ];
  inside = λ a small. omega arith;
  outside = λ a h. omega arith;
}

pub accessor_2_0_4-IsAxis : IsAxis (accessor_2_0 4) 64 1 64
unfolding accessor_2_0
accessor_2_0_4-IsAxis = record {
  lane_of = λ a. a / 16;
  place_of = λ a. a % 16;
  lane_cell = λ lane i hl hi. (omega arith, omega arith, omega arith);
  cell_lane = λ a small. (omega arith, omega arith, omega arith);
  stride-eq = refl;
  later = λ a small later. omega arith;
  first = λ a small none. elim (dec_lt 0 (a / 16 % 4)) [
    | yes some ↦ inl (omega arith, refl, ground arith, ground arith)
    | no edge ↦ inr (omega arith, inr (ground arith))
  ];
  inside = λ a small. omega arith;
  outside = λ a h. omega arith;
}

pub accessor_2_0_8-IsAxis : IsAxis (accessor_2_0 8) 64 1 64
unfolding accessor_2_0
accessor_2_0_8-IsAxis = record {
  lane_of = λ a. a / 8;
  place_of = λ a. a % 8;
  lane_cell = λ lane i hl hi. (omega arith, omega arith, omega arith);
  cell_lane = λ a small. (omega arith, omega arith, omega arith);
  stride-eq = refl;
  later = λ a small later. omega arith;
  first = λ a small none. elim (dec_lt 0 (a / 8 % 8)) [
    | yes some ↦ inl (omega arith, refl, ground arith, ground arith)
    | no edge ↦ inr (omega arith, inr (ground arith))
  ];
  inside = λ a small. omega arith;
  outside = λ a h. omega arith;
}

pub accessor_2_1_4-IsAxis : IsAxis (accessor_2_1 4) 64 64 1
unfolding accessor_2_1
accessor_2_1_4-IsAxis = record {
  lane_of = λ a. a / 1024 * 64 + a % 64;
  place_of = λ a. a / 64 % 16;
  lane_cell = λ lane i hl hi. (omega arith, omega arith, omega arith);
  cell_lane = λ a small. (omega arith, omega arith, omega arith);
  stride-eq = refl;
  later = λ a small later. omega arith;
  first = λ a small none. elim (dec_lt 0 (a / 1024)) [
    | yes some ↦ inl (omega arith, refl, ground arith, ground arith)
    | no edge ↦ inr (omega arith, inr (ground arith))
  ];
  inside = λ a small. omega arith;
  outside = λ a h. omega arith;
}

pub accessor_2_1_8-IsAxis : IsAxis (accessor_2_1 8) 64 64 1
unfolding accessor_2_1
accessor_2_1_8-IsAxis = record {
  lane_of = λ a. a / 512 * 64 + a % 64;
  place_of = λ a. a / 64 % 8;
  lane_cell = λ lane i hl hi. (omega arith, omega arith, omega arith);
  cell_lane = λ a small. (omega arith, omega arith, omega arith);
  stride-eq = refl;
  later = λ a small later. omega arith;
  first = λ a small none. elim (dec_lt 0 (a / 512)) [
    | yes some ↦ inl (omega arith, refl, ground arith, ground arith)
    | no edge ↦ inr (omega arith, inr (ground arith))
  ];
  inside = λ a small. omega arith;
  outside = λ a h. omega arith;
}
