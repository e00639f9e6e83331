-- ===== src/Tests/BorderMaps.antt =====
-- The border map of small grids with hypercubes of side 4, and the border kernels.
use ndzip.Base.{ℕ, ◌+◌, ◌*◌, ◌<◌, ◌≡◌, refl, arith, if◌then◌else◌, ◌==◌, [], ◌∷◌, map}
use ndzip.Memory.{Memory, update}
use ndzip.Extent.{Extent, linear_index}
use ndzip.Gpu.BorderMap.{
  BorderMap, border_map, border_map_round, border_size, border_position, compact_border,
  expand_border,
}
use ndzip.Border.{border_element_count}
use ndzip.Gpu.BorderMap.Count.{border_size-border_element_count}
use ndzip.Gpu.BorderMap.Restored.{expand_border-compact_border}

abbrev six_by_five : Extent
six_by_five d = if d == 0 then 6 else 5

abbrev zeros : Memory
zeros a = 0

abbrev samples : Memory
samples a = 7 * a + 1

abbrev blank : BorderMap
blank = record { inner = zeros; border = zeros; edge = zeros; stride = zeros }

abbrev border_of : BorderMap
border_of = border_map 2 4 six_by_five blank

-- One cell behind each of four rows, then two rows.
border_cells :
    map
      (λ i. linear_index 2 six_by_five (border_position 2 border_of i))
      (0 ∷ 1 ∷ 3 ∷ 4 ∷ 5 ∷ 13 ∷ [])
    ≡ 4 ∷ 9 ∷ 19 ∷ 20 ∷ 21 ∷ 29 ∷ []
unfolding border_map border_map_round border_position linear_index update
border_cells = refl

border_count : border_size border_of ≡ 14
unfolding border_map border_map_round update
border_count = refl

abbrev stream_of : Memory
stream_of = compact_border 2 six_by_five samples 3 border_of zeros

corner : (d : ℕ) → d < 2 → (if d == 0 then 2 else 4) < six_by_five d
corner d h = ground arith

expand_border-compact_border_example :
    expand_border 2 six_by_five stream_of 3 border_of zeros
      (linear_index 2 six_by_five (λ d. if d == 0 then 2 else 4))
    ≡ samples (linear_index 2 six_by_five (λ d. if d == 0 then 2 else 4))
expand_border-compact_border_example =
    expand_border-compact_border 2 4 (omega arith) (omega arith) six_by_five (omega arith) samples 3
      (omega arith) blank zeros zeros (λ d. if d == 0 then 2 else 4) corner 1 (omega arith)
      (omega arith)

border_size-border_element_count_example :
    border_size border_of ≡ border_element_count 2 six_by_five 4
border_size-border_element_count_example =
    border_size-border_element_count 2 4 six_by_five (omega arith) (omega arith) (omega arith) blank
