-- ===== src/Stream.antt =====
-- common.hh, `stream`: a header with the offset behind each hypercube, the hypercubes, the border.
-- The header's `index_type` values stand in little-endian order; positions are in bytes from
-- `buffer`.
pub mod Header
use ndzip.Base.{ℕ, ◌+◌, ◌-◌, ◌*◌, ◌/◌, ◌==◌, if◌then◌else◌}
use ndzip.Word.{u32, add, sub}
use ndzip.Memory.{Memory}
use ndzip.Bytes.{store_aligned, load_aligned}

-- `div_ceil` and `ceil` at `index_type`.
abbrev pub div_ceil : ℕ → ℕ → ℕ
div_ceil p q = sub 32 (add 32 p q) 1 / q

abbrev pub ceil : ℕ → ℕ → ℕ
ceil x multiple = u32 (div_ceil x multiple * multiple)

unfoldable pub offset_after : Memory → ℕ → ℕ
unfolding load_aligned
offset_after stream hc_index = load_aligned 4 (hc_index * 4) stream

unfoldable pub set_offset_after : ℕ → ℕ → Memory → Memory
unfolding store_aligned
set_offset_after hc_index position stream = store_aligned 4 (hc_index * 4) position stream

module _ (bytes num_hypercubes : ℕ) where
  abbrev pub base_byte_offset : ℕ
  base_byte_offset = ceil (u32 (num_hypercubes * 4)) bytes

  -- `stream::hypercube`.
  unfoldable pub hypercube : Memory → ℕ → ℕ
  unfolding offset_after
  hypercube stream hc_index =
      if hc_index == 0
      then base_byte_offset
      else base_byte_offset + offset_after stream (hc_index - 1) * bytes

  -- `stream::border`.
  unfoldable pub border : Memory → ℕ
  unfolding hypercube
  border stream = hypercube stream num_hypercubes

-- `stream::hypercube_size`.
unfoldable pub hypercube_size : Memory → ℕ → ℕ
unfolding offset_after
hypercube_size stream hc_index =
    if hc_index == 0
    then offset_after stream 0
    else sub 32 (offset_after stream hc_index) (offset_after stream (hc_index - 1))
