-- ===== src/Gpu/Pointers.antt =====
-- ndzip/gpu_common.hh: the pointers to a hypercube in local memory, padded and linear.
use ndzip.Base.{ℕ, ◌*◌, ◌≡◌, ◌⊎◌, refl}
use ndzip.Memory.{update}
use ndzip.Gpu.{Layout, load, store}
use ndzip.Gpu.Banks.{load-store}
use ndzip.Gpu.Lanes.{HypercubePtr}

-- `hypercube_ptr` on a memory of banks, for values of one bank or of two.
pub padded_ptr :
    Layout
    → (value_width : ℕ) → (value_width ≡ 1) ⊎ (value_width ≡ 2)
    → HypercubePtr (32 * value_width)
unfolding load store
padded_ptr layout value_width banks = record {
  load = load layout value_width;
  store = store layout value_width;
  load-store = λ memory i j bits fits. load-store layout memory i j bits value_width banks fits;
}

-- `hypercube_ptr` of the inverse transform in one dimension.
unfoldable pub linear_ptr : (w : ℕ) → HypercubePtr w
unfolding update
linear_ptr w = record {
  load = λ memory i. memory i;
  store = λ i bits memory. update memory i bits;
  load-store = λ memory i j bits fits. refl;
}
