-- ===== src/Transform/Local.antt =====
-- The block transform of a hypercube reads and writes its own cells only.
use native.Mathlib.Nat.{mod-eq_of_lt}
use native.Mathlib.Decide.{ℕ_discrete, dec_lt}
use ndzip.Base.{
  ℕ, suc, ◌-◌, ◌*◌, ◌^◌, ◌≤◌, ◌<◌, ◌≡◌, refl, ap, subst, sym, ◌∙◌, arith, fun_ext, ltb,
  if◌then◌else◌, lt→ltb, le→ltb, ne→==,
}
use ndzip.Word.{rotate_left_1, complement_negative}
use ndzip.Memory.{Memory}
use ndzip.Transform.{for_each_cell, ipow, block_transform, inverse_block_transform}
use ndzip.Transform.Cells.{prev_parts}
use ndzip.Transform.Axes.{Words, axis_difference, inside}
use ndzip.Transform.Grids.{grid_differences, differences-eq}
use ndzip.Transform.Inverse.{pow-one, pow-two, pow-three}
use ndzip.Transform.Cellwise.{for_each_cell-eq}
use ndzip.Transform.Power.{ipow-eq}
use ndzip.Transform.RoundTrip.{inverse_block_transform-block_transform}

-- `f` works on the cells below `n`.
pub record IsLocal (n : ℕ) (f : Memory → Memory) : Type 0 where
  pub reads : (x y : Memory) → ((a : ℕ) → a < n → x a ≡ y a) → (a : ℕ) → a < n → f x a ≡ f y a
  keeps : (x : Memory) (a : ℕ) → n ≤ a → f x a ≡ x a

IsLocal-after :
    (n : ℕ) (f g : Memory → Memory) → IsLocal n f → IsLocal n g → IsLocal n (λ x. g (f x))
IsLocal-after n f g hf hg = record {
  reads = λ x y h. hg.reads (f x) (f y) (hf.reads x y h);
  keeps = λ x a ge. hg.keeps (f x) a ge ∙ hf.keeps x a ge;
}

for_each_cell-IsLocal : (n : ℕ) (f : ℕ → ℕ) → IsLocal n (for_each_cell n f)
for_each_cell-IsLocal n f = record {
  reads = λ x y h a lt.
      rw (for_each_cell-eq f x n a, for_each_cell-eq f y n a, lt→ltb a n lt) (ap f (h a lt));
  keeps = λ x a ge. rw (for_each_cell-eq f x n a, le→ltb a n ge) refl;
}

module _ (w n : ℕ) (hn : 0 < n) where
  axis_difference-IsLocal :
      (s outer total : ℕ)
      → 0 < s
      → total ≡ outer * (n * s)
      → IsLocal total (axis_difference w n s outer)
  unfolding axis_difference
  axis_difference-IsLocal s outer total hs e = record {
    reads = λ x y h a lt. ground (arith, h a lt, h (a - s), prev_parts n s a);
    keeps = λ x a ge. ground (arith, inside w n s outer hn hs a);
  }

  grid_differences-IsLocal : (dims : ℕ) → IsLocal (n ^ dims) (grid_differences w dims n)
  unfolding grid_differences
  grid_differences-IsLocal dims = elim (ℕ_discrete dims 1) [
    | yes e ↦ rw (e, pow-one w n hn) (axis_difference-IsLocal 1 1 n (omega arith) (omega arith))
    | no one ↦ elim (ℕ_discrete dims 2) [
      | yes e ↦
          rw (e, pow-two w n hn)
            (IsLocal-after (n * n) _ _
              (axis_difference-IsLocal 1 n (n * n) (omega arith) (omega arith))
              (axis_difference-IsLocal n 1 (n * n) hn (omega arith)))
      | no two ↦ elim (ℕ_discrete dims 3) [
        | yes e ↦
            rw (e, pow-three w n hn)
              (IsLocal-after (n * n * n) _ _
                (IsLocal-after (n * n * n) _ _
                  (axis_difference-IsLocal n n (n * n * n) hn (omega arith))
                  (axis_difference-IsLocal 1 (n * n) (n * n * n) (omega arith) (omega arith)))
                (axis_difference-IsLocal (n * n) 1 (n * n * n) (grind arith) (omega arith)))
        | no three ↦ record {
          reads =
              λ x y h a lt. rw (ne→== dims 1 one, ne→== dims 2 two, ne→== dims 3 three) (h a lt);
          keeps = λ x a ge. rw (ne→== dims 1 one, ne→== dims 2 two, ne→== dims 3 three) refl;
        }
      ]
    ]
  ]

module _ (m n dims : ℕ) (hn : 0 < n) (fits : n ^ dims < 2 ^ 32) where
  abbrev w : ℕ
  w = suc m

  stages : Memory → Memory
  stages x =
      for_each_cell (n ^ dims) (complement_negative w)
        (grid_differences w dims n (for_each_cell (n ^ dims) (rotate_left_1 w) x))

  block_transform-stages : (x : Memory) → stages x ≡ block_transform w dims n x
  unfolding block_transform stages
  block_transform-stages x =
      let cells : ipow 32 n dims ≡ n ^ dims = ipow-eq 32 n dims (omega arith) ∙ mod-eq_of_lt fits in
      rw cells (
        ap (for_each_cell (n ^ dims) (complement_negative w))
          (sym (differences-eq w n hn dims (for_each_cell (n ^ dims) (rotate_left_1 w) x))))

  stages-IsLocal : IsLocal (n ^ dims) stages
  unfolding stages
  stages-IsLocal =
      IsLocal-after (n ^ dims) _ _
        (IsLocal-after (n ^ dims) _ _ (for_each_cell-IsLocal (n ^ dims) (rotate_left_1 w))
          (grid_differences-IsLocal w n hn dims))
        (for_each_cell-IsLocal (n ^ dims) (complement_negative w))

  pub block_transform-IsLocal : IsLocal (n ^ dims) (block_transform w dims n)
  block_transform-IsLocal =
      subst (IsLocal (n ^ dims)) (fun_ext block_transform-stages) stages-IsLocal

  -- An array that has the cells of a transformed cube has the cube after the inverse transform,
  -- whatever stands behind them.
  pub inverse_block_transform_restores :
      (x z : Memory)
      → Words w (n ^ dims) x
      → ((a : ℕ) → a < n ^ dims → z a ≡ block_transform w dims n x a)
      → (a : ℕ) → a < n ^ dims
      → inverse_block_transform w dims n z a ≡ x a
  inverse_block_transform_restores x z words h a lt =
      let x' : Memory = λ b. if ltb b (n ^ dims) then x b else z b in
      let inside : (b : ℕ) → b < n ^ dims → x' b ≡ x b = λ b hb. rw (lt→ltb b (n ^ dims) hb) refl in
      let behind : (b : ℕ) → n ^ dims ≤ b → x' b ≡ z b = λ b hb. rw (le→ltb b (n ^ dims) hb) refl in
      let forward : block_transform w dims n x' ≡ z = fun_ext λ b. elim (dec_lt b (n ^ dims)) [
        | yes hb ↦ block_transform-IsLocal.reads x' x inside b hb ∙ sym (h b hb)
        | no ge ↦ block_transform-IsLocal.keeps x' b (omega arith) ∙ behind b (omega arith)
      ] in
      ap (λ y. inverse_block_transform w dims n y a) (sym forward)
      ∙ ap (λ y. y a)
          (inverse_block_transform-block_transform m n dims hn fits x'
            (λ b hb. rw (inside b hb) (words b hb)))
      ∙ inside a lt
