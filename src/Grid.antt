-- ===== src/Grid.antt =====
-- common.hh, the division of a grid into hypercubes: `profile`, `file` and `iter_hypercubes`.
pub mod Visits
pub mod Order
use ndzip.Base.{
  ℕ, zero, suc, ◌+◌, ◌-◌, ◌*◌, ◌/◌, ◌%◌, ◌==◌, ltb, leb, if◌then◌else◌, Bool, true, false, for_up,
}
use ndzip.Word.{u32, bits_of}
use ndzip.Memory.{update}
use ndzip.Extent.{Extent}
use ndzip.Transform.{ipow}

-- `profile<T, Dims>`: the size of `T`, the dimensions, and `hypercube_side_length`.
pub record Profile : Type 0 where
  pub bytes : ℕ
  pub dims : ℕ
  pub side : ℕ

unfoldable pub profile : ℕ → ℕ → Profile
profile bytes dims = record {
  bytes = bytes;
  dims = dims;
  side = if dims == 1 then 4096 else if dims == 2 then 64 else 16;
}

-- `ipow(side_length, dimensions)`.
unfoldable pub hc_size : Profile → ℕ
unfolding ipow
hc_size pr = ipow 32 pr.side pr.dims

unfoldable pub compressed_block_size_bound : Profile → ℕ
unfolding hc_size
compressed_block_size_bound pr = hc_size pr / bits_of pr.bytes * (bits_of pr.bytes + 1) * pr.bytes

-- `file::num_hypercubes`.
unfoldable pub num_hypercubes : Profile → Extent → ℕ
unfolding for_up
num_hypercubes pr size = for_up 0 pr.dims 1 (λ d num. u32 (num * (size d / pr.side))) 1

-- `file::file_header_length`, with four bytes for each `index_type`.
unfoldable pub file_header_length : Profile → Extent → ℕ
unfolding num_hypercubes
file_header_length pr size = num_hypercubes pr size * 4

-- The variables of `iter_hypercubes`: what the callback changes, `off`, and `i`.
abbrev pub Visit {ℓ} : Type ℓ → Type ℓ
Visit S = S × Extent × ℕ

module _ {ℓ} {S : Type ℓ} where
  -- The loop over the component `d` of `off`, on fuel; the sum in its test wraps around.
  pub side_loop : ℕ → ℕ → Extent → ℕ → (Visit S → Visit S) → Visit S → Visit S
  side_loop zero side size d inner v = v
  side_loop (suc fuel) side size d inner (s, off, i) = elim (leb (u32 (off d + side)) (size d)) [
    | true ↦
        let (s', off', i') = inner (s, off, i) in
        side_loop fuel side size d inner (s', update off' d (u32 (off' d + side)), i')
    | false ↦ (s, off, i)
  ]

  -- `iter_hypercubes<Profile, d>`, with `left` dimensions from `d` on.
  pub iter_hypercubes : ℕ → ℕ → Extent → ℕ → (ℕ → Extent → S → S) → Visit S → Visit S
  unfolding side_loop
  iter_hypercubes zero side size d f (s, off, i) = (f i off s, off, u32 (i + 1))
  iter_hypercubes (suc left) side size d f (s, off, i) =
      side_loop (size d + 1) side size d (iter_hypercubes left side size (d + 1) f)
        (s, update off d 0, i)

  -- `file::for_each_hypercube`.
  unfoldable pub for_each_hypercube : Profile → Extent → (ℕ → Extent → S → S) → S → S
  unfolding iter_hypercubes
  for_each_hypercube pr size f s = (iter_hypercubes pr.dims pr.side size 0 f (s, (λ d. 0), 0)).0
