-- ===== src/Tests/Kernels.antt =====
-- A hypercube of a grid of two, in the local memory of a GPU.
use ndzip.Base.{ℕ, ◌*◌, ◌%◌, ◌^◌, ◌<◌, ◌≡◌, inl, refl, arith, [], ◌∷◌, map}
use native.Mathlib.Nat.{mod-lt}
use ndzip.Word.{IsWord}
use ndzip.Memory.{Memory}
use ndzip.Extent.{Extent, div_extent}
use ndzip.Extent.Laws.{volume}
use ndzip.Transform.{block_transform}
use ndzip.Hypercube.{load_hypercube}
use ndzip.Gpu.{forward_1}
use ndzip.Gpu.Lanes.{HypercubePtr, forward_block_transform, accessor_3_1}
use ndzip.Gpu.Lanes.Agreement.{IsProfile}
use ndzip.Gpu.Hypercubes.{cuda_load_hypercube, global_offset}
use ndzip.Gpu.Hypercubes.Corners.{origin}
use ndzip.Gpu.Hypercubes.Loading.{forward_block_transform-eq-block_transform}
use ndzip.Gpu.Inverse.{cuda_inverse_block_transform}
use ndzip.Gpu.Inverse.RoundTrip.{Restored, cuda_store_hypercube-cuda_inverse_block_transform}
use ndzip.Gpu.Pointers.{padded_ptr, linear_ptr}

abbrev two_cubes : Extent
two_cubes d = 8192

abbrev samples : Memory
samples a = a * 1000003 % 2 ^ 32

abbrev zeros : Memory
zeros a = 0

abbrev float_1 : IsProfile 4 1
float_1 = (inl refl, inl refl)

samples-IsWord : (a : ℕ) → IsWord 32 (samples a)
samples-IsWord a = mod-lt (a * 1000003) (omega arith)

few : volume two_cubes 1 < 2 ^ 32
few = omega arith

second : 1 < volume (div_extent 1 two_cubes 4096) 1
unfolding div_extent
second = omega arith

-- The second half of the lanes of a cube starts one cell row behind the first one's planes.
lane_offsets :
    map accessor_3_1.offset (0 ∷ 15 ∷ 16 ∷ 127 ∷ 128 ∷ 255 ∷ [])
    ≡ 0 ∷ 15 ∷ 512 ∷ 3599 ∷ 256 ∷ 3855 ∷ []
lane_offsets = refl

-- Cell 300 of a cube of side 16 has the position (1, 2, 12).
offset_of_cell : global_offset 3 16 300 (λ d. 100) ≡ 10212
unfolding global_offset
offset_of_cell = refl

abbrev forward_ptr : HypercubePtr 32
forward_ptr = padded_ptr forward_1 1 (inl refl)

abbrev second_cube : Memory
second_cube = load_hypercube 1 4096 (origin 1 4096 two_cubes 1) two_cubes samples zeros

forward_block_transform-eq-block_transform_example :
    forward_ptr.load
      (forward_block_transform 32 forward_ptr 4 1
        (cuda_load_hypercube 32 forward_ptr 1 4096 1 two_cubes samples zeros))
      17
    ≡ block_transform 32 1 4096 second_cube 17
forward_block_transform-eq-block_transform_example =
    forward_block_transform-eq-block_transform 4 1 float_1 two_cubes few 1 second 31 forward_ptr
      samples samples-IsWord zeros zeros 17 (omega arith)

transformed :
    (a : ℕ)
    → a < 4096
    → (linear_ptr 32).load (block_transform 32 1 4096 second_cube) a
      ≡ block_transform 32 1 4096 second_cube a
unfolding linear_ptr
transformed a lt = refl

linear : (memory : Memory) (i : ℕ) → (linear_ptr 32).load memory i ≡ memory i
unfolding linear_ptr
linear memory i = refl

cuda_store_hypercube-cuda_inverse_block_transform_example :
    Restored 31
      (linear_ptr 32)
      4
      1
      float_1
      two_cubes
      few
      1
      second
      samples
      (cuda_inverse_block_transform 32 (linear_ptr 32) 1 (block_transform 32 1 4096 second_cube))
      zeros
cuda_store_hypercube-cuda_inverse_block_transform_example =
    cuda_store_hypercube-cuda_inverse_block_transform 31 (linear_ptr 32) 4 1 float_1 two_cubes few 1
      second samples (λ e. linear) samples-IsWord zeros (block_transform 32 1 4096 second_cube)
      zeros transformed
