-- ===== src/Gpu/BorderMap.antt =====
-- ndzip/gpu_common.hh, `border_map`, and the border kernels of cuda_encoder.inl.
pub mod Built
pub mod Reached
pub mod Located
pub mod Restored
pub mod Count
use ndzip.Base.{ℕ, zero, suc, ◌+◌, ◌-◌, ◌*◌, ◌/◌, ◌%◌, ◌==◌, ltb, leb, if◌then◌else◌, for_up}
use ndzip.Word.{u32, sub}
use ndzip.Memory.{Memory, update}
use ndzip.Extent.{Extent, linear_index}

pub record BorderMap : Type 0 where
  pub inner : Extent
  pub border : Extent
  pub edge : Extent
  pub stride : Extent

-- The constructor's loop, on the map and `outer_acc`, `inner_acc` and `edge_acc`.
unfoldable pub border_map_round : ℕ → ℕ → Extent → ℕ → BorderMap × ℕ × ℕ × ℕ → BorderMap × ℕ × ℕ × ℕ
border_map_round dims side outer d (m, outer_acc, inner_acc, edge_acc) =
    let dd = dims - 1 - d in
    let inner_dd = outer dd / side * side in
    let outer_acc' = u32 (outer_acc * outer dd) in
    let inner_acc' = u32 (inner_acc * inner_dd) in
    let edge_acc' = sub 32 outer_acc' inner_acc' in
    (
      record {
        inner = update m.inner dd inner_dd;
        border = update m.border dd edge_acc';
        edge = update m.edge dd (u32 (inner_dd * edge_acc));
        stride = update m.stride dd outer_acc;
      },
      outer_acc',
      inner_acc',
      edge_acc',
    )

-- `border_map{outer}`; before the loop, its members hold what is in `m`.
unfoldable pub border_map : ℕ → ℕ → Extent → BorderMap → BorderMap
unfolding for_up border_map_round update
border_map dims side outer m = (for_up 0 dims 1 (border_map_round dims side outer) (m, 1, 1, 1)).0

-- `size()`.
abbrev pub border_size : BorderMap → ℕ
border_size m = m.border 0

module _ (dims : ℕ) (m : BorderMap) where
  -- `index` in one, two and three dimensions, by the position's components.
  abbrev pub index_1 : ℕ → ℕ
  index_1 i = u32 (m.edge (dims - 1) + i)

  abbrev pub index_2 : ℕ → ℕ × ℕ
  index_2 i =
      if leb (m.edge (dims - 2)) i
      then (
        u32 (m.inner (dims - 2) + (i - m.edge (dims - 2)) / m.stride (dims - 2)),
        (i - m.edge (dims - 2)) % m.stride (dims - 2),
      )
      else (i / m.border (dims - 1), index_1 (i % m.border (dims - 1)))

  abbrev pub index_3 : ℕ → ℕ × ℕ × ℕ
  index_3 i =
      if leb (m.edge (dims - 3)) i
      then (
        u32 (m.inner (dims - 3) + (i - m.edge (dims - 3)) / m.stride (dims - 3)),
        (i - m.edge (dims - 3)) % m.stride (dims - 3) / m.stride (dims - 2),
        (i - m.edge (dims - 3)) % m.stride (dims - 3) % m.stride (dims - 2),
      )
      else (
        i / m.border (dims - 2),
        (index_2 (i % m.border (dims - 2))).0,
        (index_2 (i % m.border (dims - 2))).1,
      )

  -- `border_map[i]`, as an extent.
  unfoldable pub border_position : ℕ → Extent
  border_position i d =
      if dims == 1
      then index_1 i
      else if dims == 2
      then (if d == 0 then (index_2 i).0 else (index_2 i).1)
      else (if d == 0 then (index_3 i).0 else if d == 1 then (index_3 i).1 else (index_3 i).2)

abbrev pub border_threads_per_block : ℕ
border_threads_per_block = 256

-- The threads of a kernel with a thread for each element of the border, in blocks.
unfoldable pub border_threads : {S : Type 0} → ℕ → (ℕ → S → S) → S → S
unfolding for_up
border_threads num_border_words f s =
    let border_blocks =
      u32 (num_border_words + border_threads_per_block - 1) / border_threads_per_block in
    for_up 0 border_blocks 1
      (λ block.
        for_up 0 border_threads_per_block 1
          (λ thread. f (u32 (block * border_threads_per_block + thread))))
      s

-- `compact_border`, from `border_offset` on, and `expand_border`.
unfoldable pub compact_border : ℕ → Extent → Memory → ℕ → BorderMap → Memory → Memory
unfolding border_threads border_position linear_index update
compact_border dims size values border_offset m stream_buf =
    border_threads (border_size m)
      (λ i stream_buf.
        if ltb i (border_size m)
        then update stream_buf (u32 (border_offset + i))
            (values (linear_index dims size (border_position dims m i)))
        else stream_buf)
      stream_buf

unfoldable pub expand_border : ℕ → Extent → Memory → ℕ → BorderMap → Memory → Memory
unfolding border_threads border_position linear_index update
expand_border dims size stream_buf border_offset m values =
    border_threads (border_size m)
      (λ i values.
        if ltb i (border_size m)
        then update values (linear_index dims size (border_position dims m i))
            (stream_buf (u32 (border_offset + i)))
        else values)
      values
