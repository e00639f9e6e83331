-- ===== src/Tests/Borders.antt =====
-- The border of a grid of 3 * 5 bytes with hypercubes of side 2.
use ndzip.Base.{ℕ, zero, suc, ◌+◌, ◌*◌, ◌%◌, ◌^◌, ◌<◌, ◌≡◌, refl, arith, List, [], ◌∷◌, [], ◌∷◌}
use ndzip.Memory.{Memory, update}
use ndzip.Extent.{Extent, linear_index}
use ndzip.Border.{for_each_border_slice, border_element_count, pack_border, unpack_border}
use ndzip.Border.Restored.{unpack_border-pack_border}

abbrev grid : Extent
grid zero = 3
grid d = 5

abbrev note_slice : ℕ → ℕ → List (ℕ × ℕ) → List (ℕ × ℕ)
note_slice offset count seen = (offset, count) ∷ seen

slices : for_each_border_slice 2 grid 2 note_slice [] ≡ (10, 5) ∷ (9, 1) ∷ (4, 1) ∷ []
unfolding for_each_border_slice update linear_index
slices = refl

count : border_element_count 2 grid 2 ≡ 7
unfolding border_element_count
count = refl

abbrev values : Memory
values a = (a * 31 + 7) % 256

abbrev blank : Memory
blank a = 0

abbrev corner : Extent
corner zero = 1
corner d = 4

values-small : (a : ℕ) → values a < 2 ^ (8 * 1)
values-small a = omega arith

corner-inside : (d : ℕ) → d < 2 → corner d < grid d
corner-inside zero h = omega arith
corner-inside (suc d) h = omega arith

unpack_border-pack_border_example :
    let packed = pack_border 1 6 2 grid 2 values blank in
    let unpacked = unpack_border 1 6 2 grid 2 packed.0 blank in
    (unpacked.1 ≡ packed.1)
    × (unpacked.0 (linear_index 2 grid corner) ≡ values (linear_index 2 grid corner))
unpack_border-pack_border_example =
    unpack_border-pack_border 1 6 values values-small 2 grid 2 (omega arith) (omega arith) blank
      blank corner corner-inside 1 (omega arith) (omega arith)
