-- ===== src/Tests/Banks.antt =====
-- Two neighbours of 64 bits each in the layout of the inverse transform.
use ndzip.Base.{◌+◌, ◌*◌, ◌≡◌, ◌^◌, ◌==◌, refl, arith, if◌then◌else◌, inr}
use ndzip.Memory.{Memory, update}
use ndzip.Gpu.{inverse_2, load, store, pad}
use ndzip.Gpu.Banks.{load-store}

abbrev zeros : Memory
zeros a = 0

abbrev one_stored : Memory
one_stored = store inverse_2 2 16 (7 + 5 * 2 ^ 32) zeros

-- Cell 16 starts behind the 32 banks of 16 cells and one of padding.
place : (pad inverse_2 2 16 ≡ 33) × (one_stored 33 ≡ 7) × (one_stored 34 ≡ 5)
unfolding pad store update
place = (refl, refl, refl)

load-store_example :
    load inverse_2 2 (store inverse_2 2 15 (3 * 2 ^ 40) one_stored) 16
    ≡ (if 16 == 15 then 3 * 2 ^ 40 else load inverse_2 2 one_stored 16)
load-store_example = load-store inverse_2 one_stored 15 16 (3 * 2 ^ 40) 2 (inr refl) (omega arith)
