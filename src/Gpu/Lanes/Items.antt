-- ===== src/Gpu/Lanes/Items.antt =====
-- A loop that stores to each cell what depends on its old bits.
use ndzip.Base.{
  ℕ, suc, ◌+◌, ◌*◌, ◌^◌, ◌<◌, ◌≡◌, refl, ap, ◌∙◌, arith, for_up, for_up_inv, ltb, if◌then◌else◌,
  eq→==, ne→==, lt→ltb,
}
use native.Mathlib.Decide.{ℕ_discrete}
use ndzip.Memory.{Memory}
use ndzip.Gpu.Lanes.{HypercubePtr}

module _ (w : ℕ) (hc : HypercubePtr w) (g : ℕ → ℕ → ℕ) (x : ℕ → ℕ) (cells : ℕ)
    (fits : (i : ℕ) → i < cells → g i (x i) < 2 ^ w) where
  abbrev item : ℕ → Memory → Memory
  item i memory = hc.store i (g i (hc.load memory i)) memory

  abbrev Reached : ℕ → Memory → Type 0
  Reached j y = (a : ℕ) → hc.load y a ≡ (if ltb a j then g a (x a) else x a)

  Reached-suc : (j : ℕ) (y : Memory) → j < cells → Reached j y → Reached (suc j) (item j y)
  Reached-suc j y hj done a =
      let here : hc.load y j ≡ x j = done j ∙ ground arith in
      let small : g j (hc.load y j) < 2 ^ w = rw here (fits j hj) in
      hc.load-store y j a (g j (hc.load y j)) small ∙ elim (ℕ_discrete a j) [
        | yes e ↦ rw (e, eq→== j j refl, lt→ltb j (suc j) (omega arith), here) refl
        | no ne ↦
            rw (ne→== a j ne) (done a)
            ∙ ap (λ b. if b then g a (x a) else x a)
                (let t : ltb a j ≡ ltb a (suc j) = ground arith in t)
      ]

  pub items_loop :
      (before : Memory)
      → ((a : ℕ) → hc.load before a ≡ x a)
      → (a : ℕ)
      → hc.load (for_up 0 cells 1 item before) a ≡ (if ltb a cells then g a (x a) else x a)
  items_loop before h =
      for_up_inv Reached cells 0 cells 1 item before (omega arith) (omega arith)
        (λ j y hj done. let e : 0 + j * 1 ≡ j = omega arith in rw e (Reached-suc j y hj done))
        (λ a. h a ∙ ground arith)
