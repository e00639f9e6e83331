-- ===== src/Border.antt =====
-- common.hh, the border of a grid: the cells behind the last whole hypercube of some dimension.
pub mod Slices
pub mod Copy
pub mod RoundTrip
pub mod Scan
pub mod Coverage
pub mod Restored
use ndzip.Base.{
  ℕ, zero, suc, ◌+◌, ◌*◌, ◌/◌, ◌%◌, ◌==◌, ltb, if◌then◌else◌, Bool, true, false, for_up, Option,
  none, some,
}
use ndzip.Word.{u32, sub}
use ndzip.Memory.{Memory, update}
use ndzip.Bytes.{store_aligned, load_aligned}
use ndzip.Extent.{Extent, num_elements, linear_index}

-- `border_begin` of the dimension `d`.
abbrev pub border_begin : Extent → ℕ → ℕ → ℕ
border_begin size side d = size d / side * side

-- What the first loop of `for_each_border_slice` finds.
pub data BorderScan : Type 0 where
  whole_array : BorderScan
  with_border : Option ℕ → BorderScan

-- That loop from the dimension `d` on, with `left` dimensions to go.
unfoldable pub border_scan : Extent → ℕ → ℕ → ℕ → Option ℕ → BorderScan
border_scan size side zero d smallest_dim_with_border = with_border smallest_dim_with_border
border_scan size side (suc left) d smallest_dim_with_border =
    let rest =
      border_scan size side left (d + 1)
        (if size d % side == 0 then smallest_dim_with_border else some d) in
    if size d / side == 0 then whole_array else rest

module _ {ℓ} {S : Type ℓ} (dims : ℕ) (size : Extent) (side : ℕ) (fn : ℕ → ℕ → S → S) where
  -- The slice of the dimension `d` at `pos`.
  pub last_slice : ℕ → Extent → S → S
  last_slice d pos s =
      let begin_pos = update pos d (border_begin size side d) in
      let end_pos = update pos d (size d) in
      let offset = linear_index dims size begin_pos in
      let count = sub 32 (linear_index dims size end_pos) offset in
      elim (ltb (border_begin size side d) (size d)) [ true ↦ fn offset count s | false ↦ s ]

  -- `for_each_border_slice_recursive`, where `d + left` is `smallest_dim_with_border`.
  pub for_each_border_slice_recursive : ℕ → ℕ → Extent → S → S
  unfolding last_slice for_up update
  for_each_border_slice_recursive zero d pos s = last_slice d pos s
  for_each_border_slice_recursive (suc left) d pos s =
      last_slice d (update pos d (border_begin size side d)) (
        for_up 0 (border_begin size side d) 1
          (λ p. for_each_border_slice_recursive left (d + 1) (update pos d p)) s)

  unfoldable pub for_each_border_slice : S → S
  unfolding border_scan for_each_border_slice_recursive num_elements
  for_each_border_slice s = elim (border_scan size side dims 0 none) [
    | whole_array ↦ fn 0 (num_elements dims size) s
    | with_border none ↦ s
    | with_border (some last) ↦ for_each_border_slice_recursive last 0 (λ d. 0) s
  ]

-- `border_element_count`.
unfoldable pub border_element_count : ℕ → Extent → ℕ → ℕ
unfolding for_up
border_element_count dims e side_length =
    let (n_cube_elems, n_all_elems) =
      for_up 0 dims 1
        (λ d (n_cube_elems, n_all_elems).
          (u32 (n_cube_elems * u32 (e d / side_length * side_length)), u32 (n_all_elems * e d)))
        (1, 1) in
    sub 32 n_all_elems n_cube_elems

module _ (bytes : ℕ) where
  -- `memcpy` of `count` elements between an array of elements and a buffer of bytes.
  unfoldable pub memcpy_out : ℕ → Memory → ℕ → ℕ → Memory → Memory
  unfolding for_up store_aligned
  memcpy_out dest src offset count stream =
      for_up 0 count 1 (λ i. store_aligned bytes (dest + i * bytes) (src (offset + i))) stream

  unfoldable pub memcpy_in : Memory → ℕ → ℕ → ℕ → Memory → Memory
  unfolding for_up load_aligned update
  memcpy_in stream src offset count dest =
      for_up 0 count 1
        (λ i dest. update dest (offset + i) (load_aligned bytes (src + i * bytes) stream)) dest

  pub pack_slice : ℕ → Memory → ℕ → ℕ → Memory × ℕ → Memory × ℕ
  unfolding memcpy_out
  pack_slice dest src src_offset count (stream, dest_offset) =
      (memcpy_out (dest + dest_offset) src src_offset count stream, dest_offset + count * bytes)

  -- `pack_border(stream + dest, src, side_length)`: the stream, and the number of bytes.
  unfoldable pub pack_border : ℕ → ℕ → Extent → ℕ → Memory → Memory → Memory × ℕ
  unfolding pack_slice for_each_border_slice
  pack_border dest dims size side_length src stream =
      for_each_border_slice dims size side_length (pack_slice dest src) (stream, 0)

  pub unpack_slice : ℕ → Memory → ℕ → ℕ → Memory × ℕ → Memory × ℕ
  unfolding memcpy_in
  unpack_slice src stream dest_offset count (dest, src_offset) =
      (memcpy_in stream (src + src_offset) dest_offset count dest, src_offset + count * bytes)

  -- `unpack_border(dest, stream + src, side_length)`.
  unfoldable pub unpack_border : ℕ → ℕ → Extent → ℕ → Memory → Memory → Memory × ℕ
  unfolding unpack_slice for_each_border_slice
  unpack_border src dims size side_length stream dest =
      for_each_border_slice dims size side_length (unpack_slice src stream) (dest, 0)
