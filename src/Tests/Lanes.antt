-- ===== src/Tests/Lanes.antt =====
-- The AVX2 transform of a small square of 64-bit words, two registers to a row.
use ndzip.Base.{ℕ, ◌+◌, ◌*◌, ◌^◌, ◌<◌, ◌≡◌, refl, arith, [], ◌∷◌, map}
use ndzip.Memory.{Memory, update}
use ndzip.Transform.{block_transform}
use ndzip.Avx2.{block_transform_avx2, inverse_block_transform_avx2, differences_avx2, sums_avx2}
use ndzip.ZeroBit.{transpose_bits_trivial}
use ndzip.Avx2.Transpose.{transpose_bits_avx2_32, transpose_bits_avx2_64}
use ndzip.Avx2.Transpose.Equal.{
  transpose_bits_avx2_32-eq-transpose_bits_trivial,
  transpose_bits_avx2_64-eq-transpose_bits_trivial,
}
use ndzip.Avx2.Agreement.{
  block_transform_avx2-eq-block_transform, inverse_block_transform_avx2-block_transform,
}

abbrev ramp : Memory
ramp a = a * 37 + 200

ramp-Words : (a : ℕ) → a < 8 ^ 2 → ramp a < 2 ^ 64
ramp-Words a h = omega arith

-- A row of words: the first and the differences.
row_differences :
    map (differences_avx2 64 1 8 ramp) (0 ∷ 1 ∷ 2 ∷ 3 ∷ 4 ∷ 7 ∷ 8 ∷ [])
    ≡ 200 ∷ 37 ∷ 37 ∷ 37 ∷ 37 ∷ 37 ∷ 496 ∷ []
unfolding differences_avx2
row_differences = refl

row_sums :
    map (sums_avx2 64 2 8 (differences_avx2 64 2 8 ramp)) (0 ∷ 9 ∷ 63 ∷ []) ≡ 200 ∷ 533 ∷ 2531 ∷ []
unfolding differences_avx2 sums_avx2 update
row_sums = refl

block_transform_avx2-eq-block_transform_example :
    block_transform_avx2 64 2 8 ramp ≡ block_transform 64 2 8 ramp
block_transform_avx2-eq-block_transform_example =
    block_transform_avx2-eq-block_transform 63 8 2 (omega arith) (omega arith) refl ramp ramp-Words

inverse_block_transform_avx2-block_transform_example :
    inverse_block_transform_avx2 64 2 8 (block_transform 64 2 8 ramp) ≡ ramp
inverse_block_transform_avx2-block_transform_example =
    inverse_block_transform_avx2-block_transform 63 8 2 (omega arith) (omega arith) refl 2 ramp
      (omega arith) (omega arith) ramp-Words

transpose_bits_avx2_32-eq-transpose_bits_trivial_example :
    transpose_bits_avx2_32 ramp ramp ≡ transpose_bits_trivial 32 ramp 0 ramp
transpose_bits_avx2_32-eq-transpose_bits_trivial_example =
    transpose_bits_avx2_32-eq-transpose_bits_trivial ramp ramp

transpose_bits_avx2_64-eq-transpose_bits_trivial_example :
    transpose_bits_avx2_64 ramp ramp ≡ transpose_bits_trivial 64 ramp 0 ramp
transpose_bits_avx2_64-eq-transpose_bits_trivial_example =
    transpose_bits_avx2_64-eq-transpose_bits_trivial ramp ramp
