-- ===== src/Tests/Bounds.antt =====
-- The bound for one hypercube of doubles.
use ndzip.Base.{◌+◌, ◌-◌, ◌*◌, ◌/◌, ◌%◌, ◌≡◌, refl, arith}
use ndzip.Memory.{Memory}
use ndzip.Extent.{Extent}
use ndzip.Grid.{profile, num_hypercubes, file_header_length}
use ndzip.Stream.{hypercube}
use ndzip.Bound.{compressed_size_bound}
use ndzip.Bound.Header.{hypercube-file_header_length}

abbrev line : Extent
line d = 4096

abbrev blank : Memory
blank a = 0

-- The header is counted with 4 bytes, and the hypercube starts at the byte 8.
bound : compressed_size_bound (profile 8 1) line ≡ 4 + 4096 / 64 * 65 * 8
unfolding compressed_size_bound profile
bound = refl

begin : hypercube 8 (num_hypercubes (profile 8 1) line) blank 0 ≡ 8
unfolding hypercube num_hypercubes profile
begin = refl

hypercube-file_header_length_example :
    hypercube 8 (num_hypercubes (profile 8 1) line) blank 0
    ≡ file_header_length (profile 8 1) line + (8 - file_header_length (profile 8 1) line % 8) % 8
unfolding profile file_header_length num_hypercubes
hypercube-file_header_length_example =
    hypercube-file_header_length (profile 8 1) line blank (omega arith) (omega arith)
