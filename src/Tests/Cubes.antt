-- ===== src/Tests/Cubes.antt =====
-- The block transform of a small square of bytes.
use ndzip.Base.{ℕ, ◌+◌, ◌*◌, ◌%◌, ◌^◌, ◌<◌, ◌≡◌, refl, arith, [], ◌∷◌, map}
use ndzip.Memory.{Memory, update}
use ndzip.Word.{rotate_left_1, complement_negative}
use ndzip.Transform.{differences, block_transform, inverse_block_transform}
use ndzip.Transform.Grids.{grid_differences, differences-eq}
use ndzip.Transform.RoundTrip.{inverse_block_transform-block_transform}

abbrev square : Memory
square a = (a * 37 + 200) % 256

square-Words : (a : ℕ) → a < 2 ^ 2 → square a < 2 ^ 8
square-Words a h = omega arith

transformed : map (block_transform 8 2 2 square) (0 ∷ 1 ∷ 2 ∷ 3 ∷ []) ≡ 0xee ∷ 0x4a ∷ 0xec ∷ 0 ∷ []
unfolding block_transform update rotate_left_1 complement_negative
transformed = refl

differences-eq_example : differences 8 3 2 square ≡ grid_differences 8 3 2 square
differences-eq_example = differences-eq 8 2 (omega arith) 3 square

inverse_block_transform-block_transform_example :
    inverse_block_transform 8 2 2 (block_transform 8 2 2 square) ≡ square
inverse_block_transform-block_transform_example =
    inverse_block_transform-block_transform 7 2 2 (omega arith) (omega arith) square square-Words
