-- ===== src/Transform/Steps.antt =====
-- `block_transform_step` and its inverse on one line of the array.
use ndzip.Base.{
  ℕ, suc, ◌+◌, ◌-◌, ◌*◌, ◌/◌, ◌<◌, ◌≡◌, refl, ap, Bool, ◌&&◌, arith, ltb, ◌==◌, if◌then◌else◌,
  for_up, for_up_inv,
}
use native.Mathlib.Decide.{ℕ_discrete}
use native.Mathlib.Nat.{mod-lt}
use ndzip.Word.{add, sub}
use ndzip.Memory.{Memory, update, update_self, update_ne}
use ndzip.Transform.{
  difference_round, block_transform_step, sum_round, inverse_block_transform_step,
}
use ndzip.Transform.Cells.{
  cell, block, place, line, has_prev, cell_parts, cell_unique, cell-prev, prev_parts,
}
use ndzip.Transform.Regions.{Combines}

-- What the two steps do to a cell.
abbrev pub difference : ℕ → ℕ → ℕ → ℕ → ℕ
difference w v old new = sub w v old

abbrev pub running_sum : ℕ → ℕ → ℕ → ℕ → ℕ
running_sum w v old new = add w v new

module _ (w n s i j : ℕ) (hn : 0 < n) (hj : j < s) where
  abbrev pub on_line : ℕ → Bool
  on_line a = block n s a == i && line n s a == j

  abbrev pub at : ℕ → ℕ
  at k = cell n s i k j

  -- `y` after the rounds below `k`.
  abbrev pub Filled : (ℕ → ℕ → ℕ → ℕ) → Memory → ℕ → Memory → Type 0
  Filled combine x k y =
      (a : ℕ)
      → y a ≡ (
          if (on_line a && ltb (place n s a) (suc k)) && has_prev n s a
          then combine (x a) (x (a - s)) (y (a - s))
          else x a)

  -- One more cell.
  Filled-suc :
      (combine : ℕ → ℕ → ℕ → ℕ) (x y : Memory) (k v : ℕ)
      → suc k < n
      → v ≡ combine (x (at (suc k))) (x (at k)) (y (at k))
      → Filled combine x k y
      → Filled combine x (suc k) (update y (at (suc k)) v)
  Filled-suc combine x y k v hk e h a = elim (ℕ_discrete a (at (suc k))) [
    | yes here ↦
        let parts = cell_parts n s i (suc k) j hk hj in
        let before : at (suc k) - s ≡ at k = cell-prev n s i k j in
        let kept : update y (at (suc k)) v (at k) ≡ y (at k) =
          update_ne y (at (suc k)) v (at k) (omega arith) in
        rw here (
          rw
            (
              before,
              kept,
              update_self y (at (suc k)) v (at (suc k)) refl,
              parts.0,
              parts.1,
              parts.2,
            )
            (ground arith))
    | no elsewhere ↦ ground (
      arith,
      update_ne y (at (suc k)) v a elsewhere,
      update_ne y (at (suc k)) v (a - s),
      cell_parts n s i (suc k) j hk hj,
      cell_unique n s i (suc k) j a,
      prev_parts n s a,
      h a,
    )
  ]

  -- The next cell still has its first value.
  Filled-next :
      (combine : ℕ → ℕ → ℕ → ℕ) (x y : Memory) (k : ℕ)
      → suc k < n
      → Filled combine x k y
      → y (at (suc k)) ≡ x (at (suc k))
  Filled-next combine x y k hk h = ground (arith, h (at (suc k)), cell_parts n s i (suc k) j hk hj)

  Filled-zero : (combine : ℕ → ℕ → ℕ → ℕ) (x : Memory) → Filled combine x 0 x
  Filled-zero combine x a = ground arith

  -- A step whose round `k` fills the cell number `k`.
  Filled-Combines :
      (combine : ℕ → ℕ → ℕ → ℕ) (x y : Memory)
      → Filled combine x (n - 1) y
      → (a : ℕ)
      → y a ≡ (if on_line a && has_prev n s a then combine (x a) (x (a - s)) (y (a - s)) else x a)
  Filled-Combines combine x y h a = ground (arith, h a, mod-lt (a / s) hn)

  -- `block_transform_step` from the first cell of a line takes the differences on the line.
  pub block_transform_step-Combines :
      (p : ℕ)
      → p ≡ at 0
      → Combines s (has_prev n s) (difference w) on_line (block_transform_step w p n s)
  unfolding block_transform_step
  block_transform_step-Combines p e x = Filled-Combines (difference w) x _ (all.1)
    where
      P : ℕ → Memory × ℕ → Type 0
      P k t = (t.1 ≡ x (at k)) × Filled (difference w) x k t.0

      round :
          (k : ℕ) (t : Memory × ℕ)
          → k < n - 1
          → P k t
          → P (suc k) (difference_round w p s (1 + k * 1) t)
      round k t lt h =
          let here : p + (1 + k * 1) * s ≡ at (suc k) = omega arith in
          let fresh = Filled-next (difference w) x t.0 k (omega arith) h.1 in
          rw here (fresh, Filled-suc (difference w) x t.0 k _ (omega arith) (rw (fresh, h.0)) h.1)

      all : P (n - 1) (for_up 1 n 1 (difference_round w p s) (x, x (p + 0 * s)))
      all =
          for_up_inv P (n - 1) 1 n 1 (difference_round w p s) (x, x (p + 0 * s)) (omega arith)
            (omega arith) round
            (ap x (let here : p + 0 * s ≡ at 0 = omega arith in here), Filled-zero (difference w) x)

  -- `inverse_block_transform_step` from the first cell of a line adds up along the line.
  pub inverse_block_transform_step-Combines :
      (p : ℕ)
      → p ≡ at 0
      → Combines s (has_prev n s) (running_sum w) on_line (inverse_block_transform_step w p n s)
  unfolding inverse_block_transform_step
  inverse_block_transform_step-Combines p e x = Filled-Combines (running_sum w) x _ all
    where
      round :
          (k : ℕ) (y : Memory)
          → k < n - 1
          → Filled (running_sum w) x k y
          → Filled (running_sum w) x (suc k) (sum_round w p s (1 + k * 1) y)
      round k y lt h =
          let here : p + (1 + k * 1) * s ≡ at (suc k) = omega arith in
          let before : p + (1 + k * 1 - 1) * s ≡ at k = rw e (grind arith) in
          rw (here, before)
            (Filled-suc (running_sum w) x y k _ (omega arith)
              (rw (Filled-next (running_sum w) x y k (omega arith) h)) h)

      all : Filled (running_sum w) x (n - 1) (for_up 1 n 1 (sum_round w p s) x)
      all =
          for_up_inv (Filled (running_sum w) x) (n - 1) 1 n 1 (sum_round w p s) x (omega arith)
            (omega arith) round (Filled-zero (running_sum w) x)
