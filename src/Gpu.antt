-- ===== src/Gpu.antt =====
-- ndzip/gpu_common.hh: where the GPU encoders keep the cells of a hypercube in local memory, in
-- banks of 32 bits, with padding.
pub mod Banks
pub mod Scan
pub mod Lanes
pub mod Hypercubes
pub mod Inverse
pub mod Pointers
pub mod BorderMap
use ndzip.Base.{ℕ, ◌+◌, ◌-◌, ◌*◌, ◌/◌, ◌%◌, ◌^◌, ◌==◌, if◌then◌else◌, true, false}
use ndzip.Memory.{Memory, update}

-- The layouts of `hypercube_layout` that have padding; that for three dimensions serves both
-- transforms.
pub data Layout : Type 0 where
  forward_1 : Layout
  forward_2 : Layout
  inverse_2 : Layout
  both_3 : Layout

-- `pad` of these layouts, for a value of `value_width` banks.
abbrev pub pad_forward : ℕ → ℕ → ℕ
pad_forward value_width i = value_width * i + value_width * i / 32

abbrev pub pad_inverse_2 : ℕ → ℕ → ℕ
pad_inverse_2 value_width i =
    if value_width == 1 then i + i / 64 else value_width * i + i / (32 / value_width) - i / 64

abbrev pub pad_both_3 : ℕ → ℕ → ℕ
pad_both_3 value_width i =
    let padded = value_width * i + value_width * i / 32 in
    if value_width == 2 then padded - i / (value_width * 256) else padded

unfoldable pub pad : Layout → ℕ → ℕ → ℕ
pad forward_1 value_width i = pad_forward value_width i
pad forward_2 value_width i = pad_forward value_width i
pad inverse_2 value_width i = pad_inverse_2 value_width i
pad both_3 value_width i = pad_both_3 value_width i

-- `hypercube_ptr::load` and `store`, for values of one bank and of two.
unfoldable pub load : Layout → ℕ → Memory → ℕ → ℕ
unfolding pad
load layout value_width memory i =
    if value_width == 1
    then memory (pad layout value_width i)
    else memory (pad layout value_width i) + memory (pad layout value_width i + 1) * 2 ^ 32

unfoldable pub store : Layout → ℕ → ℕ → ℕ → Memory → Memory
unfolding pad
store layout value_width i bits memory =
    if value_width == 1
    then update memory (pad layout value_width i) bits
    else update (update memory (pad layout value_width i) (bits % 2 ^ 32))
        (pad layout value_width i + 1) (bits / 2 ^ 32)
