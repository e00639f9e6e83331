-- ===== src/Transform.antt =====
-- common.hh, the block transform: the decorrelation of one hypercube by differences along each axis,
-- and its inverse. Indices within a hypercube stay below 2 ^ 32 and are plain numbers.
pub mod Cells
pub mod Regions
pub mod Steps
pub mod Passes
pub mod Axes
pub mod Grids
pub mod Inverse
pub mod Power
pub mod Cellwise
pub mod RoundTrip
pub mod Local
use ndzip.Base.{ℕ, zero, suc, ◌+◌, ◌-◌, ◌*◌, ◌/◌, ◌%◌, ◌^◌, ◌==◌, if◌then◌else◌, for_up}
use ndzip.Word.{add, sub, rotate_left_1, rotate_right_1, complement_negative}
use ndzip.Memory.{Memory, update}

-- The loop of `ipow`, on fuel: the exponent is halved in each round.
ipow_loop : ℕ → ℕ → ℕ → ℕ → ℕ → ℕ
ipow_loop w zero base exponent power = power
ipow_loop w (suc fuel) base exponent power =
    let squared = base * base % 2 ^ w in
    let power' = if exponent % 2 == 1 then power * base % 2 ^ w else power in
    let rest = ipow_loop w fuel squared (exponent / 2) power' in
    if exponent == 0 then power else rest

-- `ipow` at an unsigned type of `w` bits.
unfoldable pub ipow : ℕ → ℕ → ℕ → ℕ
unfolding ipow_loop
ipow w base exponent = ipow_loop w (exponent + 1) base exponent 1

-- `for (i = 0; i < cells; ++i) x[i] = f(x[i]);`
unfoldable pub for_each_cell : ℕ → (ℕ → ℕ) → Memory → Memory
unfolding for_up
for_each_cell cells f x = for_up 0 cells 1 (λ i x. update x i (f (x i))) x

module _ (w : ℕ) where
  -- One round of `block_transform_step`, on the array and the loop's variable `b`.
  pub difference_round : ℕ → ℕ → ℕ → Memory × ℕ → Memory × ℕ
  difference_round p s i (x, b) =
      let a = b in let b' = x (p + i * s) in (update x (p + i * s) (sub w b' a), b')

  -- `block_transform_step(x + p, n, s)`.
  unfoldable pub block_transform_step : ℕ → ℕ → ℕ → Memory → Memory
  unfolding difference_round for_up
  block_transform_step p n s x = (for_up 1 n 1 (difference_round p s) (x, x (p + 0 * s))).0

  unfoldable pub sum_round : ℕ → ℕ → ℕ → Memory → Memory
  sum_round p s i x = update x (p + i * s) (add w (x (p + i * s)) (x (p + (i - 1) * s)))

  -- `inverse_block_transform_step(x + p, n, s)`.
  unfoldable pub inverse_block_transform_step : ℕ → ℕ → ℕ → Memory → Memory
  unfolding sum_round for_up
  inverse_block_transform_step p n s x = for_up 1 n 1 (sum_round p s) x

  -- The branches of `block_transform` on the number of dimensions.
  unfoldable pub differences : ℕ → ℕ → Memory → Memory
  unfolding block_transform_step for_up
  differences dims n x =
      if dims == 1
      then block_transform_step 0 n 1 x
      else if dims == 2
      then for_up 0 n 1 (λ i. block_transform_step i n n)
          (for_up 0 (n * n) n (λ i. block_transform_step i n 1) x)
      else if dims == 3
      then for_up 0 (n * n) 1 (λ i. block_transform_step i n (n * n))
          (for_up 0 (n * n * n) n (λ i. block_transform_step i n 1)
            (for_up 0 (n * n * n) (n * n)
              (λ i. for_up 0 n 1 (λ j. block_transform_step (i + j) n n)) x))
      else x

  unfoldable pub block_transform : ℕ → ℕ → Memory → Memory
  unfolding differences for_each_cell ipow
  block_transform dims n x =
      for_each_cell (ipow 32 n dims) (complement_negative w)
        (differences dims n (for_each_cell (ipow 32 n dims) (rotate_left_1 w) x))

  unfoldable pub sums : ℕ → ℕ → Memory → Memory
  unfolding inverse_block_transform_step for_up
  sums dims n x =
      if dims == 1
      then inverse_block_transform_step 0 n 1 x
      else if dims == 2
      then for_up 0 (n * n) n (λ i. inverse_block_transform_step i n 1)
          (for_up 0 n 1 (λ i. inverse_block_transform_step i n n) x)
      else if dims == 3
      then for_up 0 (n * n * n) (n * n)
          (λ i. for_up 0 n 1 (λ j. inverse_block_transform_step (i + j) n n))
          (for_up 0 (n * n * n) n (λ i. inverse_block_transform_step i n 1)
            (for_up 0 (n * n) 1 (λ i. inverse_block_transform_step i n (n * n)) x))
      else x

  unfoldable pub inverse_block_transform : ℕ → ℕ → Memory → Memory
  unfolding sums for_each_cell ipow
  inverse_block_transform dims n x =
      for_each_cell (ipow 32 n dims) (rotate_right_1 w)
        (sums dims n (for_each_cell (ipow 32 n dims) (complement_negative w) x))
