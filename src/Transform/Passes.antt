-- ===== src/Transform/Passes.antt =====
-- The passes of the transform over the lines of one direction, in the shapes of the source's loops.
use ndzip.Base.{ℕ, ◌+◌, ◌*◌, ◌<◌, ◌≡◌, ap, ◌∙◌, Bool, true, ◌&&◌, arith, ltb, ◌==◌, for_up}
use native.Mathlib.Nat.{mod-lt}
use ndzip.Memory.{Memory}
use ndzip.Transform.Cells.{cell, block, line, has_prev, prev_parts}
use ndzip.Transform.Regions.{Combines, for_up-Combines}

-- A region may be given by an equal test.
pub Combines_cong :
    (s : ℕ) (prev : ℕ → Bool) (combine : ℕ → ℕ → ℕ → ℕ) (r r' : ℕ → Bool) (f : Memory → Memory)
    → ((a : ℕ) → r a ≡ r' a)
    → Combines s prev combine r f
    → Combines s prev combine r' f
Combines_cong s prev combine r r' f e acts x a = rw (← e a) (acts x a)

module _ (n s : ℕ) (combine : ℕ → ℕ → ℕ → ℕ) (step : ℕ → Memory → Memory) (hn : 0 < n) (hs : 0 < s)
    (acts : (i j p : ℕ)
      → j < s
      → p ≡ cell n s i 0 j
      → Combines s (has_prev n s) combine (λ a. block n s a == i && line n s a == j) (step p)) where
  -- All lines of the blocks below `outer`.
  abbrev pub Passes : ℕ → (Memory → Memory) → Type 0
  Passes outer = Combines s (has_prev n s) combine (λ a. ltb (block n s a) outer)

  -- The lines of one block, one after the other: `start j` is where the line `j` begins.
  pub columns-Combines :
      (i : ℕ) (start : ℕ → ℕ)
      → ((j : ℕ) → start j ≡ cell n s i 0 j)
      → Combines s
          (has_prev n s)
          combine
          (λ a. block n s a == i)
          (for_up 0 s 1 (λ j. step (start j)))
  columns-Combines i start at =
      Combines_cong s (has_prev n s) combine _ _ _ (λ a. ground (arith, mod-lt a hs))
        (for_up-Combines s (has_prev n s) combine (line n s) (λ a. block n s a == i)
          (λ a h. ground (arith, prev_parts n s a)) s 0 s 1 (λ j. step (start j)) (omega arith)
          (omega arith)
          (λ j lt.
            acts i j (start (0 + j * 1)) lt
              (at (0 + j * 1) ∙ ap (cell n s i 0) (let e : 0 + j * 1 ≡ j = omega arith in e))))

  -- One block: the array of the region is a single block.
  pub one_block-Passes :
      (start : ℕ → ℕ) → ((j : ℕ) → start j ≡ j) → Passes 1 (for_up 0 s 1 (λ j. step (start j)))
  one_block-Passes start at =
      Combines_cong s (has_prev n s) combine _ _ _ (λ a. ground arith)
        (columns-Combines 0 start (λ j. omega (arith, at j)))

  -- Every block, in a loop over the blocks' first cells, and every line of the block in an inner
  -- loop.
  pub blocks-Passes :
      (outer limit stride : ℕ)
      → stride ≡ n * s
      → limit ≡ outer * stride
      → Passes outer (for_up 0 limit stride (λ i. for_up 0 s 1 (λ j. step (i + j))))
  blocks-Passes outer limit stride e f =
      for_up-Combines s (has_prev n s) combine (block n s) (λ a. true)
        (λ a h. ground (arith, prev_parts n s a)) outer 0 limit stride
        (λ i. for_up 0 s 1 (λ j. step (i + j))) (rw e (grind arith)) (omega arith)
        (λ i lt. columns-Combines i (λ j. 0 + i * stride + j) (λ j. rw e (omega arith)))

  -- Lines of neighbouring cells: each block is one line.
  pub rows-Passes :
      (outer limit : ℕ) → s ≡ 1 → limit ≡ outer * n → Passes outer (for_up 0 limit n step)
  rows-Passes outer limit e f =
      for_up-Combines s (has_prev n s) combine (block n s) (λ a. true)
        (λ a h. ground (arith, prev_parts n s a)) outer 0 limit n step hn (omega arith)
        (λ i lt.
          Combines_cong s (has_prev n s) combine _ _ _ (λ a. ground (arith, mod-lt a hs))
            (acts i 0 (0 + i * n) hs (rw e (omega arith))))
