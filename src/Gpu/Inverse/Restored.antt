-- ===== src/Gpu/Inverse/Restored.antt =====
-- The inverse transform in local memory restores the hypercube.
use ndzip.Base.{
  ℕ, zero, suc, ◌+◌, ◌-◌, ◌/◌, ◌%◌, ◌^◌, ◌<◌, ◌≡◌, inl, inr, refl, ap, sym, ◌∙◌, arith, for_up, ltb,
  if◌then◌else◌, lt→ltb, ◌&&◌, true, false,
}
use mathlib.Core.Bool.{false≢true}
use native.Mathlib.Nat.{mod-add-mod, add-mod-mod}
use ndzip.Word.{add, sub, complement_negative}
use ndzip.Word.Laws.{add-sub}
use ndzip.Word.Complement.{complement_negative-IsWord, complement_negative_twice}
use ndzip.Memory.{Memory}
use ndzip.Transform.Cells.{place}
use ndzip.Transform.Axes.{Words, axis_difference, axis_difference-Words}
use ndzip.Transform.Grids.{grid_differences}
use ndzip.Avx2.Swap.{axis_swap}
use ndzip.Gpu.Scan.{inclusive_scan}
use ndzip.Gpu.Scan.Folds.{fold_back, fold_back-append}
use ndzip.Gpu.Scan.Blocks.{inclusive_scan-eq-fold_back}
use ndzip.Gpu.Lanes.{Accessor, HypercubePtr, accessor_3_0, accessor_3_1, accessor_3_2}
use ndzip.Gpu.Lanes.Axis.{IsAxis}
use ndzip.Gpu.Lanes.Items.{items_loop}
use ndzip.Gpu.Lanes.Directions.{accessor_3_0-IsAxis, accessor_3_1-IsAxis, accessor_3_2-IsAxis}
use ndzip.Gpu.Inverse.{
  inverse_accessor_2_0, inverse_accessor_2_1, inverse_transform_lanes, cuda_inverse_block_transform,
}
use ndzip.Gpu.Inverse.Directions.{inverse_accessor_2_0-IsAxis, inverse_accessor_2_1-IsAxis}
use ndzip.Gpu.Inverse.Sums.{inverse_transform_lanes-cells}

add_assoc : (w a b c : ℕ) → add w (add w a b) c ≡ add w a (add w b c)
add_assoc w a b c =
    mod-add-mod (a + b) (2 ^ w) c
    ∙ ap (λ n. n % 2 ^ w) (let e : a + b + c ≡ a + (b + c) = omega arith in e)
    ∙ sym (add-mod-mod a (b + c) (2 ^ w))

-- In one dimension, the fold of the differences is the cell.
module _ (w : ℕ) (Y D : Memory) (words : Words w 4096 Y)
    (differences : (a : ℕ) → a < 4096 → D a ≡ axis_difference w 4096 1 1 Y a) where
  fold-cell : (t : ℕ) → t < 4096 → fold_back (add w) D t t ≡ Y t
  unfolding axis_difference
  fold-cell zero h = differences 0 h
  fold-cell (suc t) h =
      let test : (ltb (suc t / 1 / 4096) 1 && ltb 0 (suc t / 1 % 4096)) ≡ true = ground arith in
      let before : suc t - 1 ≡ t = omega arith in
      let step : D (suc t) ≡ sub w (Y (suc t)) (Y t) =
        differences (suc t) h
        ∙ ap (λ b. if b then sub w (Y (suc t)) (Y (suc t - 1)) else Y (suc t)) test
        ∙ ap (λ n. sub w (Y (suc t)) (Y n)) before in
      let all : 1 + t ≡ suc t = omega arith in
      ap (fold_back (add w) D (suc t)) (sym all)
      ∙ sym (fold_back-append (add w) (add_assoc w) D (suc t) 0 t)
      ∙ ap (λ n. add w (D (suc t)) (fold_back (add w) D n t)) before
      ∙ ap (add w (D (suc t))) (fold-cell t (omega arith))
      ∙ ap (λ d. add w d (Y t)) step
      ∙ add-sub w (Y (suc t)) (Y t) (words (suc t) h) (words t (omega arith))

module _ (w : ℕ) (hc : HypercubePtr w) where
  -- The hypercube in the memory has these cells.
  abbrev pub HoldsCells : Memory → Memory → Type 0
  HoldsCells m x = (a : ℕ) → a < 4096 → hc.load m a ≡ x a

  abbrev undo : Accessor → Memory → Memory
  undo accessor = inverse_transform_lanes w hc accessor

  lanes-HoldsCells :
      (accessor : Accessor) (n s outer : ℕ) (axis : IsAxis accessor n s outer)
      → ltb accessor.lane_length accessor.side_length ≡ false
      → 0 < accessor.lane_length
      → (m y : Memory) → Words w 4096 y
      → HoldsCells m (axis_difference w n s outer y)
      → HoldsCells (undo accessor m) y
  lanes-HoldsCells accessor n s outer axis single some m y words h a lt =
      let whole : (a : ℕ) → a < 4096 → axis.place_of a ≡ 0 → place n s a ≡ 0 = λ a lt e.
        elim (axis.first a lt e) [
          | inl (prev, carries, _, _) ↦ absurd (false≢true (sym single ∙ carries))
          | inr (edge, _) ↦ edge
        ] in
      inverse_transform_lanes-cells w hc accessor n s outer axis whole some y words m h a
      ∙ rw (lt→ltb a 4096 lt) refl

  module _ (m y : Memory) (words : Words w 4096 y) where
    two :
        HoldsCells m (grid_differences w 2 64 y)
        → HoldsCells (undo inverse_accessor_2_1 (undo inverse_accessor_2_0 m)) y
    unfolding grid_differences axis_difference
    two h =
        let swapped =
          axis_swap w 64 1 64 1 64 1 (omega arith) (omega arith) (omega arith) refl refl y words in
        lanes-HoldsCells inverse_accessor_2_1 64 64 1 inverse_accessor_2_1-IsAxis refl (omega arith)
          _ y words
          (lanes-HoldsCells inverse_accessor_2_0 64 1 64 inverse_accessor_2_0-IsAxis refl
            (omega arith) m _ (axis_difference-Words w 64 64 1 (omega arith) (omega arith) y words)
            (λ a lt. h a lt ∙ ap (λ f. f a) (sym swapped)))

    three :
        HoldsCells m (grid_differences w 3 16 y)
        → HoldsCells (undo accessor_3_2 (undo accessor_3_1 (undo accessor_3_0 m))) y
    unfolding grid_differences axis_difference
    three h =
        let far = axis_difference w 16 256 1 y in
        let far-Words : Words w 4096 far =
          axis_difference-Words w 16 256 1 (omega arith) (omega arith) y words in
        let near-Words : Words w 4096 (axis_difference w 16 16 16 y) =
          axis_difference-Words w 16 16 16 (omega arith) (omega arith) y words in
        let inner : axis_difference w 16 1 256
              (axis_difference w 16 256 1 (axis_difference w 16 16 16 y))
            ≡ axis_difference w 16 256 1
                (axis_difference w 16 1 256 (axis_difference w 16 16 16 y)) =
          axis_swap w 16 1 256 16 256 1 (omega arith) (omega arith) (omega arith) refl refl _
            near-Words in
        let outer : axis_difference w 16 16 16 far
            ≡ axis_difference w 16 256 1 (axis_difference w 16 16 16 y) =
          axis_swap w 16 16 256 1 16 1 (omega arith) (omega arith) (omega arith) refl refl y
            words in
        lanes-HoldsCells accessor_3_2 16 256 1 accessor_3_2-IsAxis refl (omega arith) _ y words (
          lanes-HoldsCells accessor_3_1 16 16 16 accessor_3_1-IsAxis refl (omega arith) _ far
            far-Words
            (lanes-HoldsCells accessor_3_0 16 1 256 accessor_3_0-IsAxis refl (omega arith) m _
              (axis_difference-Words w 16 16 16 (omega arith) (omega arith) far far-Words)
              (λ a lt.
                h a lt ∙ ap (λ f. f a) (sym inner ∙ ap (axis_difference w 16 1 256) (sym outer)))))

module _ (m : ℕ) (hc : HypercubePtr (suc m)) where
  abbrev w : ℕ
  w = suc m

  abbrev complemented : Memory → Memory
  complemented =
      for_up 0 4096 1
        (λ item memory. hc.store item (complement_negative w (hc.load memory item)) memory)

  module _ (before y d : Memory) (words : Words w 4096 d)
      (h : (a : ℕ) → a < 4096 → hc.load before a ≡ complement_negative w (d a)) where
    complemented-HoldsCells : HoldsCells w hc (complemented before) d
    complemented-HoldsCells a lt =
        items_loop w hc (λ i v. complement_negative w v) (hc.load before) 4096
          (λ i hi.
            rw (h i hi)
              (complement_negative-IsWord m _ (complement_negative-IsWord m (d i) (words i hi))))
          before (λ a. refl) a
        ∙ rw (lt→ltb a 4096 lt, h a lt) (complement_negative_twice m (d a) (words a lt))

  module _ (before y : Memory) (words : Words w 4096 y) where
    abbrev pub Restores : ℕ → ℕ → Type 0
    Restores dims n =
        Words w 4096 (grid_differences w dims n y)
        → ((a : ℕ)
            → a < 4096
            → hc.load before a ≡ complement_negative w (grid_differences w dims n y a))
        → HoldsCells w hc (cuda_inverse_block_transform w hc dims before) y

    pub one-Restores : ((memory : Memory) (i : ℕ) → hc.load memory i ≡ memory i) → Restores 1 4096
    unfolding cuda_inverse_block_transform grid_differences axis_difference
    one-Restores linear dw h a lt =
        let c = complemented before in
        linear (inclusive_scan (add w) 0 4096 c) a
        ∙ inclusive_scan-eq-fold_back (add w) (add_assoc w) 0 4096 c (omega arith) a lt
        ∙ fold-cell w y c words
            (λ b hb.
              sym (linear c b)
              ∙ complemented-HoldsCells before y (grid_differences w 1 4096 y) dw h b hb)
            a lt

    pub two-Restores : Restores 2 64
    unfolding cuda_inverse_block_transform
    two-Restores dw h =
        two w hc (complemented before) y words
          (complemented-HoldsCells before y (grid_differences w 2 64 y) dw h)

    pub three-Restores : Restores 3 16
    unfolding cuda_inverse_block_transform
    three-Restores dw h =
        three w hc (complemented before) y words
          (complemented-HoldsCells before y (grid_differences w 3 16 y) dw h)
