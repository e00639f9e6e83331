-- ===== src/Transform/Regions.antt =====
-- Operations on an array that each act on a region of it, and loops over such regions.
use ndzip.Base.{
  ℕ, suc, ◌+◌, ◌-◌, ◌*◌, ◌<◌, ◌≡◌, Bool, true, ◌&&◌, arith, ltb, ◌==◌, if◌then◌else◌, for_up,
  for_up_inv,
}
use ndzip.Memory.{Memory}

-- A cell `a` with `prev a` has a predecessor `a - s` on its line, and gets the value `combine` of its
-- old value and of the old and the new value of the predecessor.
module _ (s : ℕ) (prev : ℕ → Bool) (combine : ℕ → ℕ → ℕ → ℕ) where
  -- `f` combines the cells of `region` and leaves the others alone.
  abbrev pub Combines : (ℕ → Bool) → (Memory → Memory) → Type 0
  Combines region f =
      (x : Memory) (a : ℕ)
      → f x a ≡ (if region a && prev a then combine (x a) (x (a - s)) (f x (a - s)) else x a)

  -- The part of a region that the first `c` rounds have done, `y` being the array after them.
  abbrev pub Done : (ℕ → ℕ) → (ℕ → Bool) → Memory → ℕ → Memory → Type 0
  Done own guard x c y =
      (a : ℕ)
      → y a ≡ (
          if (guard a && ltb (own a) c) && prev a
          then combine (x a) (x (a - s)) (y (a - s))
          else x a)

  module _ (own : ℕ → ℕ) (guard : ℕ → Bool)
      (closed : (a : ℕ) → prev a ≡ true → (own (a - s) ≡ own a) × (guard (a - s) ≡ guard a)) where
    pub Done-suc :
        (x y y' : Memory) (c : ℕ)
        → ((a : ℕ)
            → y' a ≡ (
                if (guard a && own a == c) && prev a
                then combine (y a) (y (a - s)) (y' (a - s))
                else y a))
        → Done own guard x c y
        → Done own guard x (suc c) y'
    Done-suc x y y' c acts h a = ground (arith, acts a, acts (a - s), h a, h (a - s), closed a)

    -- A loop whose round `c` combines the cells that `own` gives the number `c` combines those below
    -- its number of rounds.
    pub for_up-Combines :
        (n start limit step : ℕ) (body : ℕ → Memory → Memory)
        → 0 < step
        → limit ≡ start + n * step
        → ((c : ℕ) → c < n → Combines (λ a. guard a && own a == c) (body (start + c * step)))
        → Combines (λ a. guard a && ltb (own a) n) (for_up start limit step body)
    for_up-Combines n start limit step body pos e acts x =
        for_up_inv (Done own guard x) n start limit step body x pos e
          (λ c y lt h. Done-suc x y _ c (acts c lt y) h) (λ a. ground arith)
