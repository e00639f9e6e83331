-- ===== src/Base/Loops.antt =====
-- `for (i = start; i < limit; i += step)` over a state, and its rules.
use Prim.Native.Nat.{ℕ, zero, suc, ◌+◌, ◌*◌, ◌≤◌, ◌<◌}
use mathlib.Core.Path.{◌≡◌, refl, subst}
use mathlib.Core.Bool.{true, false}
use native.Mathlib.Omega.{arith}
use ndzip.Base.Tests.{ltb, lt→ltb, le→ltb}

module _ {ℓ} {S : Type ℓ} where
  -- The loop with its test, on fuel.
  pub for_fuel : ℕ → ℕ → ℕ → ℕ → (ℕ → S → S) → S → S
  for_fuel zero i limit step body s = s
  for_fuel (suc fuel) i limit step body s = elim (ltb i limit) [
    | true ↦ for_fuel fuel (i + step) limit step body (body i s)
    | false ↦ s
  ]

  -- Each round adds `step`, which is positive in every loop, so `limit` rounds are enough.
  unfoldable pub for_up : ℕ → ℕ → ℕ → (ℕ → S → S) → S → S
  unfolding for_fuel
  for_up start limit step body s = for_fuel limit start limit step body s

  -- `n` rounds from `i` on, with no test.
  unfoldable pub rounds : ℕ → ℕ → ℕ → (ℕ → S → S) → S → S
  rounds zero i step body s = s
  rounds (suc n) i step body s = rounds n (i + step) step body (body i s)

  for_fuel_done :
      (fuel i limit step : ℕ) (body : ℕ → S → S) (s : S)
      → limit ≤ i
      → for_fuel fuel i limit step body s ≡ s
  unfolding for_fuel
  for_fuel_done zero i limit step body s h = refl
  for_fuel_done (suc fuel) i limit step body s h = rw (le→ltb i limit h, for_fuel)

  for_fuel-eq-rounds :
      (fuel n i limit step : ℕ) (body : ℕ → S → S) (s : S)
      → 0 < step
      → limit ≡ i + n * step
      → limit ≤ i + fuel
      → for_fuel fuel i limit step body s ≡ rounds n i step body s
  unfolding for_fuel rounds
  for_fuel-eq-rounds fuel zero i limit step body s pos e enough =
      for_fuel_done fuel i limit step body s (omega arith)
  for_fuel-eq-rounds zero (suc n) i limit step body s pos e enough = absurd (grind arith)
  for_fuel-eq-rounds (suc fuel) (suc n) i limit step body s pos e enough =
      let below : i < limit = grind arith in
      rw (lt→ltb i limit below, for_fuel)
        (for_fuel-eq-rounds fuel n (i + step) limit step body (body i s) pos (grind arith)
          (omega arith))

  -- A loop whose bounds are a multiple of the step apart makes that many rounds.
  pub for_up-eq-rounds :
      (n i limit step : ℕ) (body : ℕ → S → S) (s : S)
      → 0 < step
      → limit ≡ i + n * step
      → for_up i limit step body s ≡ rounds n i step body s
  unfolding for_up
  for_up-eq-rounds n i limit step body s pos e =
      for_fuel-eq-rounds limit n i limit step body s pos e (omega arith)

  -- The invariant rule for rounds: `P k` holds before round `k`.
  pub rounds_inv {κ} :
      (P : ℕ → S → Type κ) (start step : ℕ) (body : ℕ → S → S) (n k : ℕ) (s : S)
      → ((j : ℕ) (t : S) → k ≤ j → j < k + n → P j t → P (suc j) (body (start + j * step) t))
      → P k s
      → P (k + n) (rounds n (start + k * step) step body s)
  unfolding rounds
  rounds_inv P start step body zero k s keep p = subst (λ m. P m s) (omega arith) p
  rounds_inv P start step body (suc n) k s keep p =
      let here : P (suc k) (body (start + k * step) s) = keep k s (omega arith) (omega arith) p in
      let rest : P (suc k + n)
          (rounds n (start + suc k * step) step body (body (start + k * step) s)) =
        rounds_inv P start step body n (suc k) _ (λ j t lo hi. keep j t (omega arith) (omega arith))
          here in
      let at : start + suc k * step ≡ start + k * step + step = omega arith in
      let end : suc k + n ≡ k + suc n = omega arith in
      subst (λ m. P m (rounds n (start + k * step + step) step body (body (start + k * step) s)))
        end (rw at at rest)

  -- The invariant rule for a loop of `n` rounds.
  pub for_up_inv {κ} :
      (P : ℕ → S → Type κ) (n start limit step : ℕ) (body : ℕ → S → S) (s : S)
      → 0 < step
      → limit ≡ start + n * step
      → ((j : ℕ) (t : S) → j < n → P j t → P (suc j) (body (start + j * step) t))
      → P 0 s
      → P n (for_up start limit step body s)
  for_up_inv P n start limit step body s pos e keep p =
      let all : P (0 + n) (rounds n (start + 0 * step) step body s) =
        rounds_inv P start step body n 0 s (λ j t lo hi. keep j t (omega arith)) p in
      let at : start + 0 * step ≡ start = omega arith in
      let end : 0 + n ≡ n = omega arith in
      rw (for_up-eq-rounds n start limit step body s pos e)
        (subst (λ m. P m (rounds n start step body s)) end (rw at at all))
