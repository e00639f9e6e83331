-- ===== src/Bytes.antt =====
-- common.hh, words in byte buffers: `store_aligned` and `load_aligned` between a word of `bytes`
-- bytes and a buffer of `std::byte`. The object representation is that of a little-endian machine.
pub mod Laws
pub mod Places
use ndzip.Base.{ℕ, zero, suc, ◌+◌, ◌*◌, ◌/◌, ◌%◌, ◌^◌, for_up}
use ndzip.Memory.{Memory, update}

-- The byte at place `i` of the object representation.
abbrev pub byte_of : ℕ → ℕ → ℕ
byte_of v i = v / 256 ^ i % 256

-- The value whose representation has the byte `f i` at each place.
abbrev pub value_of : ℕ → (ℕ → ℕ) → ℕ
value_of zero f = 0
value_of (suc n) f = value_of n f + f n * 256 ^ n

unfoldable pub store_aligned : ℕ → ℕ → ℕ → Memory → Memory
unfolding for_up
store_aligned bytes dest a x = for_up 0 bytes 1 (λ i x. update x (dest + i) (byte_of a i)) x

unfoldable pub load_aligned : ℕ → ℕ → Memory → ℕ
load_aligned bytes src x = value_of bytes (λ i. x (src + i))
