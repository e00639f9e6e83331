-- ===== src/Bound.antt =====
-- common.cc: the size that a compressed array is said to take at most.
pub mod Header
use ndzip.Base.{ℕ, ◌+◌, ◌*◌}
use ndzip.Extent.{Extent}
use ndzip.Grid.{Profile, num_hypercubes, file_header_length, compressed_block_size_bound}
use ndzip.Border.{border_element_count}

unfoldable pub compressed_size_bound : Profile → Extent → ℕ
unfolding file_header_length num_hypercubes compressed_block_size_bound border_element_count
compressed_size_bound pr size =
    file_header_length pr size
    + num_hypercubes pr size * compressed_block_size_bound pr
    + border_element_count pr.dims size pr.side * pr.bytes
