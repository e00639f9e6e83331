-- ===== src/Tests/Arrays.antt =====
-- Whole arrays: a small grid of bytes that is computed, and a grid of floats in three dimensions.
use ndzip.Base.{
  ℕ, zero, suc, ◌+◌, ◌*◌, ◌%◌, ◌^◌, ◌<◌, ◌≡◌, refl, arith, Option, none, some, List, [], ◌∷◌, inl,
  inr,
}
use ndzip.Word.{complement_negative, rotate_left_1}
use ndzip.Memory.{Memory}
use ndzip.Extent.{Extent, num_elements}
use ndzip.Grid.{Profile, profile, num_hypercubes}
use ndzip.Encoder.{compress, decompress}
use ndzip.Encoder.Lossless.{decompress-compress}
use ndzip.MtDecoder.{decompress_scheduled}
use ndzip.MtDecoder.Order.{Visits, decompress_scheduled-compress}

abbrev blank : Memory
blank a = 0

abbrev pub noise : Memory
noise a = (a * 77 + 5) % 256

abbrev pub scratch : ℕ → Memory
scratch k = noise

-- Hypercubes of 4 * 4 bytes in a grid of 5 * 9.
abbrev tiles : Profile
tiles = record { bytes = 1; dims = 2; side = 4 }

abbrev plane : Extent
plane zero = 5
plane d = 9

abbrev ramp : Memory
ramp a = a + 100

abbrev size_of : Option (ℕ × Memory) → ℕ
size_of none = 0
size_of (some (count, stream)) = count

size : size_of (compress tiles scratch plane 0 ramp blank noise) ≡ 44
unfolding compress complement_negative rotate_left_1
size = refl

misaligned : size_of (compress (profile 4 1) scratch plane 6 ramp blank noise) ≡ 0
unfolding compress profile
misaligned = refl

-- Floats in a grid of 40 * 17 * 33.
abbrev pub grid : Extent
grid zero = 40
grid (suc zero) = 17
grid d = 33

abbrev floats : Memory
floats a = a * 65537 % 2 ^ 32

pub grid-room : (d : ℕ) → d < 3 → grid d + 16 < 2 ^ 32
grid-room zero h = omega arith
grid-room (suc zero) h = omega arith
grid-room (suc (suc d)) h = omega arith

floats-fit : (a : ℕ) → floats a < 2 ^ 32
floats-fit a = omega arith

decompress-compress_example :
    (count : ℕ) × (stream vals : Memory) × (compress
        (profile 4 3)
        scratch
        grid
        64
        floats
        blank
        noise
      ≡ some (count, stream))
    × (decompress (profile 4 3) scratch grid 128 stream noise blank ≡ some (count, vals))
    × ((a : ℕ) → a < num_elements 3 grid → vals a ≡ floats a)
unfolding profile num_hypercubes
decompress-compress_example =
    decompress-compress (profile 4 3) grid 128 (omega arith) (omega arith) (omega arith)
      (omega arith) (omega arith) (omega arith) grid-room (omega arith) (omega arith) (omega arith)
      floats floats-fit scratch blank noise scratch noise blank 64 128 (omega arith) (omega arith)

-- Two threads that take the four hypercubes out of order.
abbrev out_of_order : List (ℕ × ℕ)
out_of_order = (1, 3) ∷ (0, 0) ∷ (1, 2) ∷ (0, 1) ∷ []

four : (k : ℕ) → k < num_hypercubes (profile 4 3) grid → Visits k out_of_order
unfolding num_hypercubes profile
four zero h = inr (inl refl)
four (suc zero) h = inr (inr (inr (inl refl)))
four (suc (suc zero)) h = inr (inr (inl refl))
four (suc (suc (suc zero))) h = inl refl
four (suc (suc (suc (suc k)))) h = omega arith

decompress_scheduled-compress_example :
    (count : ℕ) × (stream vals : Memory) × (compress
        (profile 4 3)
        scratch
        grid
        64
        floats
        blank
        noise
      ≡ some (count, stream))
    × (decompress_scheduled (profile 4 3) scratch grid 128 stream out_of_order (λ t. noise) blank
        ≡ some (count, vals))
    × ((a : ℕ) → a < num_elements 3 grid → vals a ≡ floats a)
unfolding profile num_hypercubes
decompress_scheduled-compress_example =
    decompress_scheduled-compress (profile 4 3) grid 128 (omega arith) (omega arith) (omega arith)
      (omega arith) (omega arith) (omega arith) grid-room (omega arith) (omega arith) (omega arith)
      floats floats-fit scratch blank noise scratch out_of_order
      (omega arith, (omega arith, (omega arith, (omega arith, tt)))) four (λ t. noise) blank 64 128
      (omega arith) (omega arith)
