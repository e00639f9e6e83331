-- ===== src/Avx2/Agreement.antt =====
-- The AVX2 transform agrees with the portable transform of common.hh.
use native.Mathlib.Nat.{mod-eq_of_lt}
use ndzip.Base.{ℕ, suc, ◌*◌, ◌^◌, ◌<◌, ◌≡◌, ap, ◌∙◌, arith}
use ndzip.Word.{rotate_left_1, rotate_right_1, complement_negative}
use ndzip.Word.Rotate.{rotate_left_1-IsWord, rotate_right_1-rotate_left_1}
use ndzip.Word.Complement.{complement_negative-IsWord, complement_negative_twice}
use ndzip.Memory.{Memory}
use ndzip.Transform.{ipow, for_each_cell, differences, block_transform}
use ndzip.Transform.Axes.{Words}
use ndzip.Transform.Inverse.{differences-Words}
use ndzip.Transform.Power.{ipow-eq}
use ndzip.Transform.RoundTrip.{cells-eq, for_each_cell-Words, for_each_cell_undo}
use ndzip.Avx2.{
  interleave, words_per_256bit_lane, n_256bit_lanes, block_transform_avx2,
  inverse_block_transform_avx2,
}
use ndzip.Avx2.Differences.{differences_avx2-eq}
use ndzip.Avx2.Sums.{sums_avx2-differences}

module _ (m n dims : ℕ) (hn : 0 < n) (fits : n ^ dims < 2 ^ 32)
    (full : n_256bit_lanes (suc m) n * words_per_256bit_lane (suc m) ≡ n) where
  abbrev w : ℕ
  w = suc m

  cells64 : ipow 64 n dims ≡ n ^ dims
  cells64 = ipow-eq 64 n dims (omega arith) ∙ mod-eq_of_lt (omega (arith, fits))

  rotated-Words :
      (x : Memory)
      → Words w (n ^ dims) x
      → Words w (n ^ dims) (for_each_cell (n ^ dims) (rotate_left_1 w) x)
  rotated-Words x h =
      for_each_cell-Words w (n ^ dims) (rotate_left_1 w) (rotate_right_1 w) (rotate_left_1-IsWord m)
        (rotate_right_1-rotate_left_1 m) x h

  -- For words of at least one bit, a side that is not 0 and fills whole 256-bit registers, and a cube
  -- of fewer than `2 ^ 32` cells that are all words: the AVX2 transform, with its own order of the
  -- passes, gives the whole array that the portable transform gives, for every number of dimensions.
  pub block_transform_avx2-eq-block_transform :
      (x : Memory)
      → Words w (n ^ dims) x
      → block_transform_avx2 w dims n x ≡ block_transform w dims n x
  unfolding block_transform_avx2 block_transform
  block_transform_avx2-eq-block_transform x h =
      rw (cells64, cells-eq m n dims hn fits)
        (ap (for_each_cell (n ^ dims) (complement_negative w))
          (differences_avx2-eq w n hn full dims _ (rotated-Words x h)))

  -- Under the same conditions, for a side that is a multiple of 4 and less than `2 ^ 16`: the AVX2
  -- inverse takes a cube that the portable transform made back to the whole array as it was.
  pub inverse_block_transform_avx2-block_transform :
      (groups : ℕ) (x : Memory)
      → n ≡ groups * interleave
      → n * n < 2 ^ 32
      → Words w (n ^ dims) x
      → inverse_block_transform_avx2 w dims n (block_transform w dims n x) ≡ x
  unfolding block_transform inverse_block_transform_avx2
  inverse_block_transform_avx2-block_transform groups x four square h =
      let rotated = for_each_cell (n ^ dims) (rotate_left_1 w) x in
      rw
        (
          cells64,
          cells-eq m n dims hn fits,
          for_each_cell_undo w (n ^ dims) (complement_negative w) (complement_negative w)
              (complement_negative-IsWord m) (complement_negative_twice m)
              (differences w dims n rotated)
              (differences-Words w n hn dims rotated (rotated-Words x h)),
          sums_avx2-differences w n groups hn full four square dims rotated (rotated-Words x h),
        )
        (for_each_cell_undo w (n ^ dims) (rotate_left_1 w) (rotate_right_1 w)
          (rotate_left_1-IsWord m) (rotate_right_1-rotate_left_1 m) x h)
