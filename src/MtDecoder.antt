-- ===== src/MtDecoder.antt =====
-- cpu_encoder.inl: `mt_cpu_encoder::decompress`. Each round of the parallel loop is one hypercube in
-- the cube of the thread that runs it; a schedule is the sequence of the threads and hypercubes.
pub mod Order
use ndzip.Base.{ℕ, ◌+◌, ◌*◌, ◌/◌, ◌%◌, ◌==◌, ltb, if◌then◌else◌, Option, none, some, List, [], ◌∷◌}
use ndzip.Memory.{Memory}
use ndzip.Extent.{Extent, mul_extent, div_extent, extent_from_linear_id}
use ndzip.Grid.{Profile, num_hypercubes}
use ndzip.Stream.{border}
use ndzip.Border.{unpack_border}
use ndzip.Encoder.{decompress_hypercube}

-- `extent_from_linear_id(hc_index, data.size() / side_length) * side_length`.
abbrev pub hc_position : Profile → Extent → ℕ → Extent
hc_position pr size hc_index =
    mul_extent pr.dims (extent_from_linear_id pr.dims hc_index (div_extent pr.dims size pr.side))
      pr.side

module _ (pr : Profile) (scratch : ℕ → Memory) (size : Extent) where
  -- The round of the hypercube `hc_index` by the thread `tid`, on the cubes and the array.
  pub decompress_round : Memory → ℕ × ℕ → (ℕ → Memory) × Memory → (ℕ → Memory) × Memory
  unfolding decompress_hypercube
  decompress_round stream (tid, hc_index) (cubes, values) =
      let (cube, values') =
        decompress_hypercube pr scratch size stream hc_index (hc_position pr size hc_index)
          (cubes tid, values) in
      ((λ t. if t == tid then cube else cubes t), values')

  pub decompress_rounds : Memory → List (ℕ × ℕ) → (ℕ → Memory) × Memory → (ℕ → Memory) × Memory
  unfolding decompress_round
  decompress_rounds stream [] t = t
  decompress_rounds stream (r ∷ l) t = decompress_rounds stream l (decompress_round stream r t)

  unfoldable pub decompress_scheduled :
      ℕ → Memory → List (ℕ × ℕ) → (ℕ → Memory) → Memory → Option (ℕ × Memory)
  unfolding decompress_rounds border num_hypercubes unpack_border
  decompress_scheduled raw_stream stream schedule cubes values =
      let (cubes', values') = decompress_rounds stream schedule (cubes, values) in
      let end = border pr.bytes (num_hypercubes pr size) stream in
      let (unpacked, border_bytes) =
        unpack_border pr.bytes end pr.dims size pr.side stream values' in
      if ltb 0 (raw_stream % pr.bytes)
      then none
      else some (end / pr.bytes * pr.bytes + border_bytes, unpacked)
