-- ===== src/Tests/Extents.antt =====
-- Positions in a grid of 3 * 4 * 5 cells.
use ndzip.Base.{◌+◌, ◌≡◌, refl, arith}
use ndzip.Extent.{Extent, num_elements, linear_offset, linear_index, extent_from_linear_id}
use ndzip.Extent.Laws.{linear_offset-eq-linear_index}
use ndzip.Extent.Ids.{linear_index-extent_from_linear_id}

abbrev grid : Extent
grid d = d + 3

abbrev corner : Extent
corner d = 2

runs :
    (num_elements 3 grid ≡ 60)
    × (linear_index 3 grid corner ≡ 52)
    × (linear_offset 3 corner grid ≡ 52)
unfolding num_elements linear_index linear_offset
runs = (refl, refl, refl)

linear_offset-eq-linear_index_example : linear_offset 3 corner grid ≡ linear_index 3 grid corner
linear_offset-eq-linear_index_example =
    linear_offset-eq-linear_index 3 grid corner (omega arith) (omega arith)

linear_index-extent_from_linear_id_example :
    linear_index 3 grid (extent_from_linear_id 3 52 grid) ≡ 52
linear_index-extent_from_linear_id_example =
    linear_index-extent_from_linear_id 3 52 grid (omega arith) (omega arith) (omega arith)
