-- ===== src/Transform/Cells.antt =====
-- The cells of an array as lines of `n` cells, each `s` after the one before: the cell number `k`
-- of the line `j` of the block `i` stands at `(i * n + k) * s + j`.
use native.Mathlib.Nat.{div-add-mod', mod-lt}
use ndzip.Base.{
  ℕ, suc, ◌+◌, ◌-◌, ◌*◌, ◌/◌, ◌%◌, ◌<◌, ◌≡◌, ap, ◌∙◌, sym, Bool, arith, ltb, div-mul-add,
  mod-mul-add,
}

module _ (n s : ℕ) where
  abbrev pub cell : ℕ → ℕ → ℕ → ℕ
  cell i k j = (i * n + k) * s + j

  abbrev pub block : ℕ → ℕ
  block a = a / s / n

  abbrev pub place : ℕ → ℕ
  place a = a / s % n

  abbrev pub line : ℕ → ℕ
  line a = a % s

  -- A cell has a predecessor on its line, unless it is the first.
  abbrev pub has_prev : ℕ → Bool
  has_prev a = ltb 0 (place a)

  pub cell_parts :
      (i k j : ℕ)
      → k < n
      → j < s
      → (block (cell i k j) ≡ i) × (place (cell i k j) ≡ k) × (line (cell i k j) ≡ j)
  cell_parts i k j hk hj =
      let q : cell i k j / s ≡ i * n + k = div-mul-add (i * n + k) j s hj in
      (
        ap (λ (t : ℕ). t / n) q ∙ div-mul-add i k n hk,
        ap (λ (t : ℕ). t % n) q ∙ mod-mul-add i k n hk,
        mod-mul-add (i * n + k) j s hj,
      )

  pub cell_of : (a : ℕ) → cell (block a) (place a) (line a) ≡ a
  cell_of a = ap (λ (t : ℕ). t * s + a % s) (div-add-mod' (a / s) n) ∙ div-add-mod' a s

  -- The predecessor stands on the same line, one place before.
  pub prev_parts :
      (a : ℕ)
      → 0 < s
      → 0 < n
      → 0 < place a
      → (block (a - s) ≡ block a)
        × (suc (place (a - s)) ≡ place a)
        × (line (a - s) ≡ line a)
        × (a - s < a)
  prev_parts a hs hn h =
      let k = place a - 1 in
      let below : place a < n = mod-lt (a / s) hn in
      let parts = cell_parts (block a) k (line a) (omega arith) (mod-lt a hs) in
      let here : cell (block a) (suc k) (line a) ≡ a =
        ap (λ (t : ℕ). cell (block a) t (line a)) (let e : suc k ≡ place a = omega arith in e)
        ∙ cell_of a in
      let before : a - s ≡ cell (block a) k (line a) = omega arith in
      rw before
        (parts.0, let e : suc k ≡ place a = omega arith in ap suc parts.1 ∙ e, parts.2, omega arith)

  -- The predecessor of a cell of given coordinates.
  pub cell-prev : (i k j : ℕ) → cell i (suc k) j - s ≡ cell i k j
  cell-prev i k j = omega arith

  -- The cell of given coordinates is the only one with them.
  pub cell_unique : (i k j a : ℕ) → block a ≡ i → place a ≡ k → line a ≡ j → a ≡ cell i k j
  cell_unique i k j a p q r = rw (← p, ← q, ← r) (sym (cell_of a))
