-- ===== src/Gpu/Inverse/Storing.antt =====
-- A loop that stores the cells of an array, each at an index of its own.
use ndzip.Base.{ℕ, suc, ◌+◌, ◌*◌, ◌<◌, ◌≡◌, ◌≢◌, refl, ap, sym, ◌∙◌, arith, for_up, for_up_inv}
use native.Mathlib.Decide.{ℕ_discrete}
use ndzip.Memory.{Memory, update, update_self, update_ne}

module _ (index : ℕ → ℕ) (src dest : Memory) where
  -- The cells at the first `n` indices are those of `src`, the others those of `dest`.
  abbrev pub Stored : ℕ → Memory → Type 0
  Stored n v =
      ((c : ℕ) → c < n → v (index c) ≡ src (index c))
      × ((a : ℕ) → ((c : ℕ) → c < n → a ≢ index c) → v a ≡ dest a)

  -- A loop that stores cells of an array `src` at an index of its own for each.
  module _ (g : ℕ → ℕ) where
    abbrev put : ℕ → Memory → Memory
    put c v = update v (index c) (g c)

    put-Stored : (n : ℕ) (v : Memory) → g n ≡ src (index n) → Stored n v → Stored (suc n) (put n v)
    put-Stored n v same (stored, others) = (
      (λ c hc. elim (ℕ_discrete (index c) (index n)) [
        | yes e ↦ update_self v (index n) (g n) (index c) e ∙ same ∙ ap src (sym e)
        | no ne ↦
            let before : c < n = elim (ℕ_discrete c n) [
              | yes e ↦ absurd (ne (ap index e))
              | no other ↦ omega arith
            ] in
            update_ne v (index n) (g n) (index c) ne ∙ stored c before
      ]),
      λ a away.
          update_ne v (index n) (g n) a (away n (omega arith))
          ∙ others a (λ c hc. away c (omega arith)),
    )

    pub stores :
        (n : ℕ) → ((c : ℕ) → c < n → g c ≡ src (index c)) → Stored n (for_up 0 n 1 put dest)
    stores n same =
        for_up_inv Stored n 0 n 1 put dest (omega arith) (omega arith)
          (λ j v hj done.
            let e : 0 + j * 1 ≡ j = omega arith in rw e (put-Stored j v (same j hj) done))
          ((λ c hc. absurd (let no : ⊥ = omega arith in no)), (λ a away. refl))
