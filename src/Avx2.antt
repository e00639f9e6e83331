-- ===== src/Avx2.antt =====
-- cpu_encoder.inl, the block transform with AVX2: 256-bit registers hold several words, and each
-- instruction works on all of them.
pub mod Cells
pub mod Columns
pub mod Rounds
pub mod Passes
pub mod Horizontal
pub mod Interleaved
pub mod Groups
pub mod Swap
pub mod Differences
pub mod Sums
pub mod Agreement
pub mod Transpose
use ndzip.Base.{ℕ, ◌+◌, ◌-◌, ◌*◌, ◌/◌, ◌%◌, ◌==◌, ◌&&◌, ltb, leb, if◌then◌else◌, for_up, Bool}
use ndzip.Word.{add, sub, rotate_left_1, rotate_right_1, complement_negative}
use ndzip.Memory.{Memory, update}
use ndzip.Transform.{for_each_cell, ipow}

-- A `__m256i`, by its lanes of words.
abbrev pub M256 : Type 0
M256 = ℕ → ℕ

abbrev pub simd_width_bytes : ℕ
simd_width_bytes = 32

-- `load_aligned_256` and `load_unaligned_256`.
abbrev pub load_256 : Memory → ℕ → M256
load_256 x p = λ l. x (p + l)

-- `lanes[j] = v`.
pub set_lane : (ℕ → M256) → ℕ → M256 → ℕ → M256
set_lane lanes j v = λ k. if k == j then v else lanes k

abbrev pub interleave : ℕ
interleave = 4

module _ (w : ℕ) where
  abbrev pub words_per_256bit_lane : ℕ
  words_per_256bit_lane = simd_width_bytes / (w / 8)

  abbrev pub n_256bit_lanes : ℕ → ℕ
  n_256bit_lanes side_length = w / 8 * side_length / simd_width_bytes

  pub store_aligned_256 : ℕ → M256 → Memory → Memory
  store_aligned_256 p v x =
      λ a. if leb p a && ltb a (p + words_per_256bit_lane) then v (a - p) else x a

  abbrev pub add_packed : M256 → M256 → M256
  add_packed a b = λ l. add w (a l) (b l)

  abbrev pub subtract_packed : M256 → M256 → M256
  subtract_packed a b = λ l. sub w (a l) (b l)

  -- The loop of `block_transform_horizontal_avx2`, on the line and `top_n`.
  pub horizontal_round : ℕ → ℕ → Memory × M256 → Memory × M256
  unfolding store_aligned_256
  horizontal_round line j (x, top_n) =
      let top = top_n in
      let top_n' = load_256 x (line + (j + 1) * words_per_256bit_lane - 1) in
      let bottom = load_256 x (line + j * words_per_256bit_lane) in
      (store_aligned_256 (line + j * words_per_256bit_lane) (subtract_packed bottom top) x, top_n')

  unfoldable pub block_transform_horizontal_avx2 : ℕ → ℕ → Memory → Memory
  unfolding horizontal_round store_aligned_256 for_up
  block_transform_horizontal_avx2 n line x =
      let last = line + (n_256bit_lanes n - 1) * words_per_256bit_lane in
      let setr = λ (l : ℕ). if l == 0 then 0 else x (line + (l - 1)) in
      let (x', top_n) = for_up 0 (n_256bit_lanes n - 1) 1 (horizontal_round line) (x, setr) in
      store_aligned_256 last (subtract_packed (load_256 x' last) top_n) x'

  -- `memcpy` between an array of registers and as many words.
  abbrev pub load_lanes : Memory → ℕ → ℕ → M256
  load_lanes x p = λ j l. x (p + (j * words_per_256bit_lane + l))

  pub store_lanes : ℕ → ℕ → (ℕ → M256) → Memory → Memory
  store_lanes n p lanes x = λ a.
      if leb p a && ltb a (p + n_256bit_lanes n * words_per_256bit_lane)
      then lanes ((a - p) / words_per_256bit_lane) ((a - p) % words_per_256bit_lane)
      else x a

  -- One round of the vertical pass and of the pass over planes, on the row at `x + q` and `lanes_b`.
  pub difference_lanes : ℕ → ℕ → Memory × (ℕ → M256) → Memory × (ℕ → M256)
  unfolding store_lanes set_lane for_up
  difference_lanes n q (x, lanes_b) =
      let lanes_a = lanes_b in
      let lanes_b' = load_lanes x q in
      let lanes_a' =
        for_up 0 (n_256bit_lanes n) 1
          (λ j lanes. set_lane lanes j (subtract_packed (lanes_b' j) (lanes j))) lanes_a in
      (store_lanes n q lanes_a' x, lanes_b')

  -- `block_transform_vertical_avx2(x + p)`.
  unfoldable pub block_transform_vertical_avx2 : ℕ → ℕ → Memory → Memory
  unfolding difference_lanes for_up
  block_transform_vertical_avx2 n p x =
      (for_up 1 n 1 (λ i. difference_lanes n (p + i * n)) (x, load_lanes x p)).0

  unfoldable pub block_transform_planes_avx2 : ℕ → Memory → Memory
  unfolding difference_lanes for_up
  block_transform_planes_avx2 n = for_up 0 (n * n) n (λ i x.
      (for_up (n * n) (n * n * n) (n * n) (λ j. difference_lanes n (i + j)) (x, load_lanes x i)).0)

  -- One round of the inverse passes, on the row at `x + q` and `lanes_a`.
  pub sum_lanes : ℕ → ℕ → Memory × (ℕ → M256) → Memory × (ℕ → M256)
  unfolding store_lanes set_lane for_up
  sum_lanes n q (x, lanes_a) =
      let lanes_a' =
        for_up 0 (n_256bit_lanes n) 1
          (λ j lanes.
            set_lane lanes j (add_packed (lanes j) (load_256 x (q + j * words_per_256bit_lane))))
          lanes_a in
      (store_lanes n q lanes_a' x, lanes_a')

  unfoldable pub inverse_block_transform_vertical_avx2 : ℕ → ℕ → Memory → Memory
  unfolding sum_lanes for_up
  inverse_block_transform_vertical_avx2 n p x =
      (for_up 1 n 1 (λ i. sum_lanes n (p + i * n)) (x, load_lanes x p)).0

  unfoldable pub inverse_block_transform_planes_avx2 : ℕ → Memory → Memory
  unfolding sum_lanes for_up
  inverse_block_transform_planes_avx2 n =
      for_up 0 (n * n) n (λ i x.
        (for_up (n * n) (n * n * n) (n * n) (λ j. sum_lanes n (i + j)) (x, load_lanes x i)).0)

  unfoldable pub inverse_block_transform_horizontal_sequential : ℕ → Memory → Memory
  unfolding for_up
  inverse_block_transform_horizontal_sequential n =
      for_up 1 n 1 (λ i x. update x i (add w (x i) (x (i - 1))))

  -- One round of `inverse_block_transform_horizontal_interleaved` on the column `j` of four rows from
  -- `q` on, with the array and `vec`.
  pub interleaved_round : ℕ → ℕ → ℕ → Memory × Memory → Memory × Memory
  unfolding for_up
  interleaved_round n q j (x, vec) =
      let vec' =
        for_up 0 interleave 1 (λ k vec. update vec k (add w (vec k) (x (q + j + k * n)))) vec in
      (for_up 0 interleave 1 (λ k x. update x (q + j + k * n) (vec' k)) x, vec')

  -- The four rows from `q` on.
  unfoldable pub interleaved_rows : ℕ → ℕ → Memory × Memory → Memory × Memory
  unfolding interleaved_round for_up
  interleaved_rows n q (x, vec) =
      let vec' = for_up 0 interleave 1 (λ k vec. update vec k (x (q + k * n))) vec in
      for_up 1 n 1 (interleaved_round n q) (x, vec')

  -- `inverse_block_transform_horizontal_interleaved(x + p)`: each element of `vec` is written
  -- before it is read.
  unfoldable pub inverse_block_transform_horizontal_interleaved : ℕ → ℕ → Memory → Memory
  unfolding interleaved_rows for_up
  inverse_block_transform_horizontal_interleaved n p x =
      (for_up 0 (ipow 32 n 2) (n * interleave) (λ i. interleaved_rows n (p + i)) (x, λ k. 0)).0

  -- The branches of `block_transform_avx2` on the number of dimensions.
  unfoldable pub differences_avx2 : ℕ → ℕ → Memory → Memory
  unfolding block_transform_horizontal_avx2 block_transform_vertical_avx2
      block_transform_planes_avx2 for_up
  differences_avx2 dims n x =
      if dims == 1
      then block_transform_horizontal_avx2 n 0 x
      else if dims == 2
      then block_transform_vertical_avx2 n 0
          (for_up 0 n 1 (λ i. block_transform_horizontal_avx2 n (i * n)) x)
      else if dims == 3
      then block_transform_planes_avx2 n (
          for_up 0 (n * n * n) (n * n) (block_transform_vertical_avx2 n)
            (for_up 0 (n * n * n) n (block_transform_horizontal_avx2 n) x))
      else x

  unfoldable pub block_transform_avx2 : ℕ → ℕ → Memory → Memory
  unfolding differences_avx2 for_each_cell ipow
  block_transform_avx2 dims n x =
      for_each_cell (ipow 64 n dims) (complement_negative w)
        (differences_avx2 dims n (for_each_cell (ipow 64 n dims) (rotate_left_1 w) x))

  unfoldable pub sums_avx2 : ℕ → ℕ → Memory → Memory
  unfolding inverse_block_transform_horizontal_sequential
      inverse_block_transform_horizontal_interleaved inverse_block_transform_vertical_avx2
      inverse_block_transform_planes_avx2 for_up ipow
  sums_avx2 dims n x =
      if dims == 1
      then inverse_block_transform_horizontal_sequential n x
      else if dims == 2
      then inverse_block_transform_vertical_avx2 n 0
          (inverse_block_transform_horizontal_interleaved n 0 x)
      else if dims == 3
      then inverse_block_transform_planes_avx2 n (
          for_up 0 (ipow 64 n 3) (ipow 64 n 2) (inverse_block_transform_vertical_avx2 n) (
            for_up 0 (ipow 64 n 3) (ipow 64 n 2) (inverse_block_transform_horizontal_interleaved n)
              x))
      else x

  unfoldable pub inverse_block_transform_avx2 : ℕ → ℕ → Memory → Memory
  unfolding sums_avx2 for_each_cell ipow
  inverse_block_transform_avx2 dims n x =
      for_each_cell (ipow 64 n dims) (rotate_right_1 w)
        (sums_avx2 dims n (for_each_cell (ipow 64 n dims) (complement_negative w) x))
