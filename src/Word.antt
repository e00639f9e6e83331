-- ===== src/Word.antt =====
-- common.hh, words of `bits_of<T>` bits: an unsigned integer is a number below `2 ^ w`, and the
-- operations wrap as those of `uint32_t` and `uint64_t` do.
pub mod Laws
pub mod Rotate
pub mod Complement
use Prim.Native.Nat.{bit_or, bit_xor}
use ndzip.Base.{ℕ, ◌+◌, ◌-◌, ◌*◌, ◌/◌, ◌%◌, ◌^◌, ◌<◌, ◌==◌, if◌then◌else◌}

-- `CHAR_BIT * sizeof(T)` for a type of `bytes` bytes.
abbrev pub bits_of : ℕ → ℕ
bits_of bytes = 8 * bytes

-- `index_type` is `uint32_t`.
abbrev pub u32 : ℕ → ℕ
u32 n = n % 2 ^ 32

-- `a >> k`.
abbrev pub shr : ℕ → ℕ → ℕ
shr a k = a / 2 ^ k

module _ (w : ℕ) where
  abbrev pub IsWord : ℕ → Type 0
  IsWord v = v < 2 ^ w

  -- `a << k`, `a + b` and `a - b`.
  abbrev pub shl : ℕ → ℕ → ℕ
  shl a k = a * 2 ^ k % 2 ^ w

  abbrev pub add : ℕ → ℕ → ℕ
  add a b = (a + b) % 2 ^ w

  abbrev pub sub : ℕ → ℕ → ℕ
  sub a b = (a + 2 ^ w - b) % 2 ^ w

  -- `~T{}`.
  abbrev pub all_ones : ℕ
  all_ones = 2 ^ w - 1

  unfoldable pub rotate_left_1 : ℕ → ℕ
  rotate_left_1 v = bit_or (shl v 1) (shr v (w - 1))

  unfoldable pub rotate_right_1 : ℕ → ℕ
  rotate_right_1 v = bit_or (shr v 1) (shl v (w - 1))

  unfoldable pub complement_negative : ℕ → ℕ
  complement_negative v = if shr v (w - 1) == 0 then v else bit_xor v (shr all_ones 1)
