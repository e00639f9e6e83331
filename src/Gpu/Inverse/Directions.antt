-- ===== src/Gpu/Inverse/Directions.antt =====
-- The accessors of the inverse transform in two dimensions are the axes of their hypercubes.
use ndzip.Base.{◌/◌, ◌%◌, refl, inl, inr, arith}
use ndzip.Gpu.Lanes.Axis.{IsAxis}
use ndzip.Gpu.Inverse.{inverse_accessor_2_0, inverse_accessor_2_1}

pub inverse_accessor_2_0-IsAxis : IsAxis inverse_accessor_2_0 64 1 64
inverse_accessor_2_0-IsAxis = record {
  lane_of = λ a. a / 64;
  place_of = λ a. a % 64;
  lane_cell = λ lane i hl hi. (omega arith, omega arith, omega arith);
  cell_lane = λ a small. (omega arith, omega arith, omega arith);
  stride-eq = refl;
  later = λ a small later. omega arith;
  first = λ a small none. inr (omega arith, inl refl);
  inside = λ a small. omega arith;
  outside = λ a h. omega arith;
}

pub inverse_accessor_2_1-IsAxis : IsAxis inverse_accessor_2_1 64 64 1
inverse_accessor_2_1-IsAxis = record {
  lane_of = λ a. a % 64;
  place_of = λ a. a / 64;
  lane_cell = λ lane i hl hi. (omega arith, omega arith, omega arith);
  cell_lane = λ a small. (omega arith, omega arith, omega arith);
  stride-eq = refl;
  later = λ a small later. omega arith;
  first = λ a small none. inr (omega arith, inl refl);
  inside = λ a small. omega arith;
  outside = λ a h. omega arith;
}
