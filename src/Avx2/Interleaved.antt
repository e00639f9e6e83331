-- ===== src/Avx2/Interleaved.antt =====
-- The sums along four rows at a time.
use native.Mathlib.Nat.{mod-lt}
use native.Mathlib.Decide.{ℕ_discrete}
use ndzip.Base.{
  ℕ, zero, suc, ◌+◌, ◌-◌, ◌*◌, ◌/◌, ◌<◌, ◌≡◌, refl, ap, ◌∙◌, sym, Bool, ◌&&◌, Bool-cases, inl, inr,
  ltb, leb, ◌==◌, if◌then◌else◌, arith, for_up, for_up_inv,
}
use ndzip.Word.{add}
use ndzip.Word.Laws.{add_comm}
use ndzip.Memory.{Memory, update, update_self, update_ne}
use ndzip.Transform.Cells.{
  cell, block, place, has_prev, prev_parts, cell_parts, cell_unique, cell-prev,
}
use ndzip.Transform.Steps.{running_sum}
use ndzip.Avx2.{interleave, interleaved_round, interleaved_rows}
use ndzip.Avx2.Columns.{fill_step}

-- The four elements of `vec`, each set from its old value.
set_four :
    (f : ℕ → ℕ → ℕ) (v : Memory) (k : ℕ)
    → k < interleave
    → for_up 0 interleave 1 (λ k v. update v k (f k (v k))) v k ≡ f k (v k)
unfolding for_up update
set_four f v zero h = refl
set_four f v (suc zero) h = refl
set_four f v (suc (suc zero)) h = refl
set_four f v (suc (suc (suc zero))) h = refl
set_four f v (suc (suc (suc (suc k)))) h = omega arith

module _ (w n b : ℕ) (hn : 0 < n) where
  -- The four rows.
  abbrev four : ℕ → Bool
  four a = leb b (block n 1 a) && ltb (block n 1 a) (b + interleave)

  -- The column `j` of `c` rows is stored.
  abbrev Stored : ℕ → Memory → Memory → ℕ → Memory → Type 0
  Stored j vec y c y' =
      (a : ℕ)
      → y' a ≡ (
          if (leb b (block n 1 a) && ltb (block n 1 a) (b + c)) && place n 1 a == j
          then vec (block n 1 a - b)
          else y a)

  Stored-suc :
      (j c : ℕ) (vec y y' : Memory)
      → j < n
      → Stored j vec y c y'
      → Stored j vec y (suc c) (update y' (cell n 1 (b + c) j 0) (vec c))
  Stored-suc j c vec y y' hj h a = elim (ℕ_discrete a (cell n 1 (b + c) j 0)) [
    | yes here ↦
        let parts = cell_parts n 1 (b + c) j 0 hj (omega arith) in
        let number : b + c - b ≡ c = omega arith in
        rw here (
          rw
            (
              update_self y' (cell n 1 (b + c) j 0) (vec c) (cell n 1 (b + c) j 0) refl,
              parts.0,
              parts.1,
              number,
            )
            (ground arith))
    | no elsewhere ↦
        update_ne y' (cell n 1 (b + c) j 0) (vec c) a elsewhere
        ∙ h a
        ∙ ground (arith, cell_unique n 1 (b + c) j 0 a)
  ]

  stores :
      (j : ℕ) (vec y : Memory) (at : ℕ → ℕ)
      → j < n
      → ((k : ℕ) → at k ≡ cell n 1 (b + k) j 0)
      → Stored j vec y interleave (for_up 0 interleave 1 (λ k y. update y (at k) (vec k)) y)
  stores j vec y at hj e =
      for_up_inv (Stored j vec y) interleave 0 interleave 1 (λ k y. update y (at k) (vec k)) y
        (omega arith) (omega arith)
        (λ c y' lt h.
          let index : 0 + c * 1 ≡ c = omega arith in rw (index, e c) (Stored-suc j c vec y y' hj h))
        (λ a. ground arith)

  -- The columns up to the column `j` are summed.
  abbrev Summed : Memory → ℕ → Memory → Type 0
  Summed x j y =
      (a : ℕ)
      → y a ≡ (
          if (four a && ltb (place n 1 a) (suc j)) && has_prev n 1 a
          then running_sum w (x a) (x (a - 1)) (y (a - 1))
          else x a)

  abbrev State : Memory → ℕ → Memory × Memory → Type 0
  State x j t = Summed x j t.0 × ((k : ℕ) → k < interleave → t.1 k ≡ t.0 (cell n 1 (b + k) j 0))

  Summed-next :
      (x y : Memory) (j k : ℕ)
      → suc j < n
      → Summed x j y
      → y (cell n 1 (b + k) (suc j) 0) ≡ x (cell n 1 (b + k) (suc j) 0)
  Summed-next x y j k hj h =
      ground (arith, h (cell n 1 (b + k) (suc j) 0), cell_parts n 1 (b + k) (suc j) 0 hj)

  summed_value :
      (x y vec : Memory) (j : ℕ)
      → suc j < n
      → ((k : ℕ)
          → k < interleave
          → vec k
            ≡ running_sum w
                (x (cell n 1 (b + k) (suc j) 0))
                (x (cell n 1 (b + k) j 0))
                (y (cell n 1 (b + k) j 0)))
      → (a : ℕ)
      → (if four a && place n 1 a == suc j then vec (block n 1 a - b) else y a) ≡ (
          if four a && place n 1 a == suc j
          then running_sum w (x a) (x (a - 1)) (y (a - 1))
          else y a)
  summed_value x y vec j hj sums a = elim (Bool-cases (four a && place n 1 a == suc j)) [
    | inl e ↦
        let k = block n 1 a - b in
        let few : k < interleave = ground (arith, e) in
        let number : block n 1 a ≡ b + k = ground (arith, e) in
        let here : a ≡ cell n 1 (b + k) (suc j) 0 =
          cell_unique n 1 (b + k) (suc j) 0 a number (ground (arith, e)) (omega arith) in
        let before : a - 1 ≡ cell n 1 (b + k) j 0 =
          ap (λ (t : ℕ). t - 1) here ∙ cell-prev n 1 (b + k) j 0 in
        rw e (
          sums k few
          ∙ sym (
              ap (λ (t : ℕ). add w (x t) (y (a - 1))) here
              ∙ ap (λ (t : ℕ). add w (x (cell n 1 (b + k) (suc j) 0)) (y t)) before))
    | inr e ↦ rw e refl
  ]

  read_back :
      (j : ℕ) (vec y y' : Memory) (k : ℕ)
      → j < n
      → k < interleave
      → Stored j vec y interleave y'
      → vec k ≡ y' (cell n 1 (b + k) j 0)
  read_back j vec y y' k hj hk stored =
      let parts = cell_parts n 1 (b + k) j 0 hj (omega arith) in
      let number : b + k - b ≡ k = omega arith in
      sym (stored (cell n 1 (b + k) j 0) ∙ rw (parts.0, parts.1, number) (ground arith))

  Summed-suc :
      (x y y' vec : Memory) (j : ℕ)
      → suc j < n
      → ((k : ℕ)
          → k < interleave
          → vec k
            ≡ running_sum w
                (x (cell n 1 (b + k) (suc j) 0))
                (x (cell n 1 (b + k) j 0))
                (y (cell n 1 (b + k) j 0)))
      → Stored (suc j) vec y interleave y'
      → Summed x j y
      → Summed x (suc j) y'
  Summed-suc x y y' vec j hj sums stored h a =
      fill_step (four a) (four (a - 1)) (place n 1 a) (place n 1 (a - 1)) j (y' a) (y a) (y (a - 1))
        (y' (a - 1)) (vec (block n 1 (a - 1) - b)) (x a) (running_sum w (x a) (x (a - 1)))
        (λ pos. (prev_parts n 1 a (omega arith) hn pos).1)
        (stored a ∙ summed_value x y vec j hj sums a) (stored (a - 1)) (h a)

  State-suc :
      (x : Memory) (q j : ℕ) (t : Memory × Memory)
      → suc j < n
      → q ≡ cell n 1 b 0 0
      → State x j t
      → State x (suc j) (interleaved_round w n q (suc j) t)
  unfolding interleaved_round
  State-suc x q j (y, vec) hj e (summed, held) =
      let vec' =
        for_up 0 interleave 1 (λ k vec. update vec k (add w (vec k) (y (q + suc j + k * n)))) vec in
      let at : (k : ℕ) → q + suc j + k * n ≡ cell n 1 (b + k) (suc j) 0 = λ k. omega (arith, e) in
      let sums : (k : ℕ)
          → k < interleave
          → vec' k
            ≡ running_sum w (x (cell n 1 (b + k) (suc j) 0)) (x (cell n 1 (b + k) j 0))
                (y (cell n 1 (b + k) j 0)) =
        λ k h.
          set_four (λ k v. add w v (y (q + suc j + k * n))) vec k h
          ∙ add_comm w (vec k) (y (q + suc j + k * n))
          ∙ ap (λ (t : ℕ). add w t (vec k)) (ap y (at k) ∙ Summed-next x y j k hj summed)
          ∙ ap (add w (x (cell n 1 (b + k) (suc j) 0))) (held k h) in
      let stored = stores (suc j) vec' y (λ k. q + suc j + k * n) hj at in
      (
        Summed-suc x y _ vec' j hj sums stored summed,
        λ k h. read_back (suc j) vec' y _ k hj h stored,
      )

  -- The four rows are summed, whatever `vec` held.
  pub interleaved_rows-sums :
      (x vec : Memory) (q : ℕ)
      → q ≡ cell n 1 b 0 0
      → (a : ℕ)
      → (interleaved_rows w n q (x, vec)).0 a ≡ (
          if four a && has_prev n 1 a
          then running_sum w (x a) (x (a - 1)) ((interleaved_rows w n q (x, vec)).0 (a - 1))
          else x a)
  unfolding interleaved_rows
  interleaved_rows-sums x vec q e a = ground (arith, all.0 a, mod-lt (a / 1) hn)
    where
      vec' : Memory
      vec' = for_up 0 interleave 1 (λ k vec. update vec k (x (q + k * n))) vec

      first : State x 0 (x, vec')
      first = (
        λ a. ground arith,
        λ k h.
            set_four (λ k v. x (q + k * n)) vec k h
            ∙ ap x (let at : q + k * n ≡ cell n 1 (b + k) 0 0 = omega (arith, e) in at),
      )

      all : State x (n - 1) (for_up 1 n 1 (interleaved_round w n q) (x, vec'))
      all =
          for_up_inv (State x) (n - 1) 1 n 1 (interleaved_round w n q) (x, vec') (omega arith)
            (omega arith)
            (λ j t lt h.
              let index : 1 + j * 1 ≡ suc j = omega arith in
              rw index (State-suc x q j t (omega arith) e h))
            first
