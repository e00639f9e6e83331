-- ===== src/Encoder.antt =====
-- cpu_encoder.inl: `cpu_encoder::compress` and `cpu_encoder::decompress`, with the portable coder.
pub mod Blocks
pub mod Compress
pub mod Decompress
pub mod Cover
pub mod Lossless
use ndzip.Base.{ℕ, ◌+◌, ◌*◌, ◌/◌, ◌%◌, ltb, if◌then◌else◌, Option, none, some}
use ndzip.Word.{u32, bits_of}
use ndzip.Memory.{Memory}
use ndzip.Extent.{Extent}
use ndzip.Grid.{Profile, hc_size, num_hypercubes, for_each_hypercube}
use ndzip.Transform.{block_transform, inverse_block_transform}
use ndzip.ZeroBit.{zero_bit_encode, zero_bit_decode}
use ndzip.Border.{pack_border, unpack_border}
use ndzip.Hypercube.{load_hypercube, store_hypercube}
use ndzip.Stream.{offset_after, set_offset_after, hypercube, border}

-- The variables of `compress`: the cube buffer, `offset`, and the stream behind `raw_stream`.
pub record CompressState : Type 0 where
  pub cube : Memory
  pub offset : ℕ
  pub stream : Memory

module _ (pr : Profile) (scratch : ℕ → Memory) (size : Extent) where
  -- The callback of `compress`; `scratch k` is what the coder's local array holds at hypercube `k`.
  pub compress_hypercube : Memory → ℕ → Extent → CompressState → CompressState
  unfolding num_hypercubes load_hypercube block_transform hypercube zero_bit_encode hc_size
      set_offset_after
  compress_hypercube values hc_index hc_offset st =
      let cube =
        block_transform (bits_of pr.bytes) pr.dims pr.side
          (load_hypercube pr.dims pr.side hc_offset size values st.cube) in
      let p = hypercube pr.bytes (num_hypercubes pr size) st.stream hc_index in
      let (n, stream) = zero_bit_encode pr.bytes (scratch hc_index) cube p (hc_size pr) st.stream in
      let offset = u32 (st.offset + n / pr.bytes) in
      record { cube = cube; offset = offset; stream = set_offset_after hc_index offset stream }

  -- `compress`: nothing if `raw_stream` is not aligned, else the number of bytes and the stream.
  unfoldable pub compress : ℕ → Memory → Memory → Memory → Option (ℕ × Memory)
  unfolding compress_hypercube for_each_hypercube border num_hypercubes pack_border
  compress raw_stream values cube stream =
      let st =
        for_each_hypercube pr size (compress_hypercube values)
          (record { cube = cube; offset = 0; stream = stream }) in
      let end = border pr.bytes (num_hypercubes pr size) st.stream in
      let (packed, border_bytes) = pack_border pr.bytes end pr.dims size pr.side values st.stream in
      if ltb 0 (raw_stream % pr.bytes)
      then none
      else some (end / pr.bytes * pr.bytes + border_bytes, packed)

  -- The callback of `decompress`, on the cube buffer and the array.
  unfoldable pub decompress_hypercube : Memory → ℕ → Extent → Memory × Memory → Memory × Memory
  unfolding num_hypercubes hypercube zero_bit_decode hc_size inverse_block_transform store_hypercube
  decompress_hypercube stream hc_index hc_offset (cube, values) =
      let p = hypercube pr.bytes (num_hypercubes pr size) stream hc_index in
      let (n, decoded) = zero_bit_decode pr.bytes (scratch hc_index) stream p (hc_size pr) cube in
      let cube' = inverse_block_transform (bits_of pr.bytes) pr.dims pr.side decoded in
      (cube', store_hypercube pr.dims pr.side hc_offset size cube' values)

  unfoldable pub decompress : ℕ → Memory → Memory → Memory → Option (ℕ × Memory)
  unfolding decompress_hypercube for_each_hypercube border num_hypercubes unpack_border
  decompress raw_stream stream cube values =
      let (cube', values') =
        for_each_hypercube pr size (decompress_hypercube stream) (cube, values) in
      let end = border pr.bytes (num_hypercubes pr size) stream in
      let (unpacked, border_bytes) =
        unpack_border pr.bytes end pr.dims size pr.side stream values' in
      if ltb 0 (raw_stream % pr.bytes)
      then none
      else some (end / pr.bytes * pr.bytes + border_bytes, unpacked)
