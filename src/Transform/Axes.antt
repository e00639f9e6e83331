-- ===== src/Transform/Axes.antt =====
-- The transform's passes as differences along the axes of a grid.
use native.Mathlib.Nat.{mod-lt}
use mathlib.Core.WellFounded
use ndzip.Base.{
  ℕ, ◌+◌, ◌-◌, ◌*◌, ◌/◌, ◌<◌, ◌≡◌, ◌&&◌, arith, ltb, if◌then◌else◌, fun_ext, lt_wf, mul-add-lt,
}
use ndzip.Word.{IsWord, sub}
use ndzip.Word.Laws.{add-sub, sub-IsWord}
use ndzip.Memory.{Memory}
use ndzip.Transform.Cells.{cell, cell_of, block, place, line, has_prev, prev_parts}
use ndzip.Transform.Steps.{running_sum}
use ndzip.Transform.Regions.{Combines}

-- The cells below `size` hold words.
abbrev pub Words : ℕ → ℕ → Memory → Type 0
Words w size x = (a : ℕ) → a < size → IsWord w (x a)

-- The array of `outer` blocks of `n * s` cells: each cell that is not the first in its direction
-- becomes its difference to its neighbour `s` before.
unfoldable pub axis_difference : ℕ → ℕ → ℕ → ℕ → Memory → Memory
axis_difference w n s outer x =
    λ a. if ltb (block n s a) outer && has_prev n s a then sub w (x a) (x (a - s)) else x a

module _ (w n s outer : ℕ) (hn : 0 < n) (hs : 0 < s) where
  abbrev pub size : ℕ
  size = outer * (n * s)

  pub inside : (a : ℕ) → block n s a < outer → a < size
  inside a h =
      let row : block n s a * n + place n s a < outer * n =
        mul-add-lt (block n s a) (place n s a) outer n h (mod-lt (a / s) hn) in
      let here : cell n s (block n s a) (place n s a) (line n s a) < outer * n * s =
        mul-add-lt _ _ (outer * n) s row (mod-lt a hs) in
      omega (arith, cell_of n s a)

  pub axis_difference-Words :
      (x : Memory) → Words w size x → Words w size (axis_difference w n s outer x)
  unfolding axis_difference
  axis_difference-Words x h a lt = ground (arith, h a lt, sub-IsWord w (x a) (x (a - s)))

  -- A pass of running sums takes the differences back.
  pub running_sum-axis_difference :
      (f : Memory → Memory)
      → Combines s (has_prev n s) (running_sum w) (λ a. ltb (block n s a) outer) f
      → (x : Memory) → Words w size x
      → f (axis_difference w n s outer x) ≡ x
  unfolding axis_difference
  running_sum-axis_difference f acts x words = fun_ext λ a.
      WellFounded.induction lt_wf {C = λ a. f (axis_difference w n s outer x) a ≡ x a} a λ a ih.
        ground (
          arith,
          acts (axis_difference w n s outer x) a,
          ih (a - s),
          inside a,
          inside (a - s),
          prev_parts n s a,
          words a,
          words (a - s),
          add-sub w (x a) (x (a - s)),
        )
