-- ===== src/Avx2/Columns.antt =====
-- The vertical passes, which work on all words of a row at a time.
use native.Mathlib.Nat.{mod-lt}
use native.Mathlib.Decide.{ℕ_discrete}
use ndzip.Base.{
  ℕ, suc, ◌+◌, ◌-◌, ◌*◌, ◌/◌, ◌≤◌, ◌<◌, ◌≡◌, refl, ◌∙◌, Bool, ◌&&◌, ltb, ◌==◌, if◌then◌else◌, arith,
  for_up, for_up_inv, eq→==, ne→==, lt→ltb, le→ltb,
}
use ndzip.Memory.{Memory}
use ndzip.Transform.Cells.{cell, place, has_prev, prev_parts}
use ndzip.Avx2.{M256, set_lane}
use ndzip.Avx2.Cells.{on_lines, in_row, in_row-on_lines}

-- A loop that sets each register from its old value.
module _ (op : ℕ → M256 → M256) (lanes : ℕ → M256) where
  abbrev Set : ℕ → (ℕ → M256) → Type 0
  Set c r = (k : ℕ) → r k ≡ (if ltb k c then op k (lanes k) else lanes k)

  Set-suc : (c : ℕ) (r : ℕ → M256) → Set c r → Set (suc c) (set_lane r c (op c (r c)))
  unfolding set_lane
  Set-suc c r h k = elim (ℕ_discrete k c) [
    | yes e ↦
        let old : r c ≡ lanes c = h c ∙ rw (le→ltb c c (omega arith)) refl in
        rw (e, eq→== c c refl, old, lt→ltb c (suc c) (omega arith)) refl
    | no ne ↦ rw (ne→== k c ne) (h k ∙ ground arith)
  ]

  pub set_loop :
      (n k : ℕ) → k < n → for_up 0 n 1 (λ j r. set_lane r j (op j (r j))) lanes k ≡ op k (lanes k)
  set_loop n k hk =
      let all : Set n (for_up 0 n 1 (λ j r. set_lane r j (op j (r j))) lanes) =
        for_up_inv Set n 0 n 1 (λ j r. set_lane r j (op j (r j))) lanes (omega arith) (omega arith)
          (λ c r lt h. let e : 0 + c * 1 ≡ c = omega arith in rw e (Set-suc c r h))
          (λ k. ground arith) in
      all k ∙ rw (lt→ltb k n hk) refl

-- What one more row makes of a cell: `here` and `before` tell whether the cell and its predecessor
-- are on the lines, `place` and `place'` are their places.
pub fill_step :
    (here before : Bool) (place place' k new old old' new' other first : ℕ) (combine : ℕ → ℕ)
    → (0 < place → suc place' ≡ place)
    → new ≡ (if here && place == suc k then combine old' else old)
    → new' ≡ (if before && place' == suc k then other else old')
    → old ≡ (if (here && ltb place (suc k)) && ltb 0 place then combine old' else first)
    → new ≡ (if (here && ltb place (suc (suc k))) && ltb 0 place then combine new' else first)
fill_step here before place place' k new old old' new' other first combine prev a b c = ground arith

module _ (n s i j0 : ℕ) (hn : 0 < n) (hs : 0 < s) (hw : j0 + n ≤ s) (combine : ℕ → ℕ → ℕ → ℕ)
    (x : Memory) where
  -- The rows up to the row `k` are combined.
  abbrev pub RowsFilled : ℕ → Memory → Type 0
  RowsFilled k y =
      (a : ℕ)
      → y a ≡ (
          if (on_lines n s i j0 n hn hs hw a && ltb (place n s a) (suc k)) && has_prev n s a
          then combine (x a) (x (a - s)) (y (a - s))
          else x a)

  pub RowsFilled-zero : RowsFilled 0 x
  RowsFilled-zero a = ground arith

  pub RowsFilled-suc :
      (k : ℕ) (y y' : Memory)
      → suc k < n
      → ((a : ℕ)
          → y' a ≡ (
              if in_row n s i j0 n hn hs hw (suc k) a
              then combine (x a) (x (a - s)) (y (a - s))
              else y a))
      → RowsFilled k y
      → RowsFilled (suc k) y'
  RowsFilled-suc k y y' hk new h a =
      fill_step (on_lines n s i j0 n hn hs hw a) (on_lines n s i j0 n hn hs hw (a - s))
        (place n s a) (place n s (a - s)) k (y' a) (y a) (y (a - s)) (y' (a - s))
        (combine (x (a - s)) (x (a - s - s)) (y (a - s - s))) (x a) (combine (x a) (x (a - s)))
        (λ pos. (prev_parts n s a hs hn pos).1)
        (new a ∙ rw (in_row-on_lines n s i j0 n hn hs hw (suc k) a hk) refl)
        (new (a - s) ∙ rw (in_row-on_lines n s i j0 n hn hs hw (suc k) (a - s) hk) refl) (h a)

  pub RowsFilled-next :
      (k m : ℕ) (y : Memory)
      → suc k < n
      → m < n
      → RowsFilled k y
      → y (cell n s i (suc k) j0 + m) ≡ x (cell n s i (suc k) j0 + m)
  RowsFilled-next k m y hk hm h = ground (
    arith,
    h (cell n s i (suc k) j0 + m),
    in_row-on_lines n s i j0 n hn hs hw (suc k) (cell n s i (suc k) j0 + m) hk,
  )

  pub RowsFilled-Combines :
      (y : Memory)
      → RowsFilled (n - 1) y
      → (a : ℕ)
      → y a ≡ (
          if on_lines n s i j0 n hn hs hw a && has_prev n s a
          then combine (x a) (x (a - s)) (y (a - s))
          else x a)
  RowsFilled-Combines y h a = ground (arith, h a, mod-lt (a / s) hn)
