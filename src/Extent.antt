-- ===== src/Extent.antt =====
-- include/ndzip/array.hh: extents of `dims` components, and the linear index of a position.
pub mod Laws
pub mod Ids
pub mod Tails
pub mod Digits
pub mod Pointwise
use ndzip.Base.{ℕ, zero, suc, ◌+◌, ◌-◌, ◌*◌, ◌/◌, ◌%◌, ◌^◌, ◌==◌, ◌&&◌, Bool, true, for_up}
use ndzip.Word.{u32, add, sub}
use ndzip.Memory.{Memory, update}

-- The components of an extent, each an `index_type`; those from `dims` on do not exist.
abbrev pub Extent : Type 0
Extent = Memory

unfoldable pub broadcast : ℕ → ℕ → Extent
unfolding for_up update
broadcast dims scalar = for_up 0 dims 1 (λ d e. update e d scalar) (λ d. 0)

-- `+=`, `-=`, `*=` and `/=`.
unfoldable pub add_extent : ℕ → Extent → Extent → Extent
unfolding for_up update
add_extent dims left other = for_up 0 dims 1 (λ d e. update e d (add 32 (e d) (other d))) left

unfoldable pub sub_extent : ℕ → Extent → Extent → Extent
unfolding for_up update
sub_extent dims left other = for_up 0 dims 1 (λ d e. update e d (sub 32 (e d) (other d))) left

unfoldable pub mul_extent : ℕ → Extent → ℕ → Extent
unfolding for_up update
mul_extent dims left other = for_up 0 dims 1 (λ d e. update e d (u32 (e d * other))) left

unfoldable pub div_extent : ℕ → Extent → ℕ → Extent
unfolding for_up update
div_extent dims left other = for_up 0 dims 1 (λ d e. update e d (e d / other)) left

unfoldable pub eq_extent : ℕ → Extent → Extent → Bool
unfolding for_up
eq_extent dims left right = for_up 0 dims 1 (λ d eq. eq && left d == right d) true

unfoldable pub num_elements : ℕ → Extent → ℕ
unfolding for_up
num_elements dims size = for_up 0 dims 1 (λ d n. u32 (n * size d)) 1

-- The loop of `linear_offset`, on `offset` and `stride`.
offset_round : ℕ → Extent → Extent → ℕ → ℕ × ℕ → ℕ × ℕ
offset_round dims position space nd (offset, stride) =
    let d = dims - 1 - nd in (u32 (offset + u32 (stride * position d)), u32 (stride * space d))

unfoldable pub linear_offset : ℕ → Extent → Extent → ℕ
unfolding for_up offset_round
linear_offset dims position space = (for_up 0 dims 1 (offset_round dims position space) (0, 1)).0

unfoldable pub linear_index : ℕ → Extent → Extent → ℕ
unfolding for_up
linear_index dims size pos = for_up 1 dims 1 (λ d l. u32 (u32 (l * size d) + pos d)) (pos 0)

-- common.hh: the loop of `extent_from_linear_id`, on the extent and `linear_id`.
id_round : ℕ → Extent → ℕ → Extent × ℕ → Extent × ℕ
id_round dims size nd (ext, linear_id) =
    let d = dims - 1 - nd in (update ext d (linear_id % size d), linear_id / size d)

unfoldable pub extent_from_linear_id : ℕ → ℕ → Extent → Extent
unfolding for_up id_round update
extent_from_linear_id dims linear_id size =
    (for_up 0 dims 1 (id_round dims size) ((λ d. 0), linear_id)).0
