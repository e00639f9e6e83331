-- ===== src/Transform/RoundTrip.antt =====
-- `inverse_block_transform` undoes `block_transform`, on every hypercube.
use native.Mathlib.Nat.{mod-eq_of_lt}
use ndzip.Base.{ℕ, suc, ◌^◌, ◌<◌, ◌≡◌, ◌∙◌, arith, fun_ext, lt→ltb}
use ndzip.Word.{IsWord, rotate_left_1, rotate_right_1, complement_negative}
use ndzip.Word.Rotate.{rotate_left_1-IsWord, rotate_right_1-rotate_left_1}
use ndzip.Word.Complement.{complement_negative-IsWord, complement_negative_twice}
use ndzip.Memory.{Memory}
use ndzip.Transform.{differences, for_each_cell, ipow, block_transform, inverse_block_transform}
use ndzip.Transform.Axes.{Words}
use ndzip.Transform.Inverse.{sums-differences, differences-Words}
use ndzip.Transform.Cellwise.{for_each_cell-eq}
use ndzip.Transform.Power.{ipow-eq}

module _ (w : ℕ) (cells : ℕ) (f g : ℕ → ℕ) (words : (v : ℕ) → IsWord w v → IsWord w (f v))
    (undo : (v : ℕ) → IsWord w v → g (f v) ≡ v) where
  pub for_each_cell-Words : (x : Memory) → Words w cells x → Words w cells (for_each_cell cells f x)
  for_each_cell-Words x h a lt =
      rw (for_each_cell-eq f x cells a, lt→ltb a cells lt) (words (x a) (h a lt))

  pub for_each_cell_undo :
      (x : Memory) → Words w cells x → for_each_cell cells g (for_each_cell cells f x) ≡ x
  for_each_cell_undo x h = fun_ext λ a. ground (
    arith,
    for_each_cell-eq g (for_each_cell cells f x) cells a,
    for_each_cell-eq f x cells a,
    h a,
    undo (x a),
  )

module _ (m n dims : ℕ) (hn : 0 < n) (fits : n ^ dims < 2 ^ 32) where
  abbrev w : ℕ
  w = suc m

  pub cells-eq : ipow 32 n dims ≡ n ^ dims
  cells-eq = ipow-eq 32 n dims (omega arith) ∙ mod-eq_of_lt fits

  -- The cells of a transformed cube of words are words.
  pub block_transform-Words :
      (x : Memory) → Words w (n ^ dims) x → Words w (n ^ dims) (block_transform w dims n x)
  unfolding block_transform
  block_transform-Words x h = rw cells-eq (
      for_each_cell-Words w (n ^ dims) (complement_negative w) (complement_negative w)
        (complement_negative-IsWord m) (complement_negative_twice m) _
        (differences-Words w n hn dims _ (
          for_each_cell-Words w (n ^ dims) (rotate_left_1 w) (rotate_right_1 w)
            (rotate_left_1-IsWord m) (rotate_right_1-rotate_left_1 m) x h)))

  -- For words of at least one bit, a side that is not 0 and a cube of fewer than `2 ^ 32` cells
  -- that are all words: the inverse transform of the transform is the whole array as it was, for
  -- every number of dimensions.
  pub inverse_block_transform-block_transform :
      (x : Memory)
      → Words w (n ^ dims) x
      → inverse_block_transform w dims n (block_transform w dims n x) ≡ x
  unfolding block_transform inverse_block_transform
  inverse_block_transform-block_transform x h =
      let rotated = for_each_cell (n ^ dims) (rotate_left_1 w) x in
      let rotated-Words =
        for_each_cell-Words w (n ^ dims) (rotate_left_1 w) (rotate_right_1 w)
          (rotate_left_1-IsWord m) (rotate_right_1-rotate_left_1 m) x h in
      rw
        (
          cells-eq,
          for_each_cell_undo w (n ^ dims) (complement_negative w) (complement_negative w)
              (complement_negative-IsWord m) (complement_negative_twice m)
              (differences w dims n rotated) (differences-Words w n hn dims rotated rotated-Words),
          sums-differences w n hn dims rotated rotated-Words,
        )
        (for_each_cell_undo w (n ^ dims) (rotate_left_1 w) (rotate_right_1 w)
          (rotate_left_1-IsWord m) (rotate_right_1-rotate_left_1 m) x h)
