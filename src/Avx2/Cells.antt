-- ===== src/Avx2/Cells.antt =====
-- A row of `n` words as cells on `n` lines.
use ndzip.Base.{
  ℕ, ◌+◌, ◌-◌, ◌≤◌, ◌<◌, ◌≡◌, subst, inl, inr, Bool-cases, Bool, true, ◌&&◌, ltb, leb, ◌==◌, arith,
}
use ndzip.Transform.Cells.{cell, block, place, line, cell_parts, cell_unique}

module _ (n s i j0 width : ℕ) (hn : 0 < n) (hs : 0 < s) (hw : j0 + width ≤ s) where
  -- The lines from `j0` on, in the block `i`.
  abbrev pub on_lines : ℕ → Bool
  on_lines a = block n s a == i && (leb j0 (line n s a) && ltb (line n s a) (j0 + width))

  -- The cells number `k` of these lines.
  abbrev pub in_row : ℕ → ℕ → Bool
  in_row k a = leb (cell n s i k j0) a && ltb a (cell n s i k j0 + width)

  in_row-parts :
      (k a : ℕ)
      → k < n
      → in_row k a ≡ true
      → (block n s a ≡ i) × (place n s a ≡ k) × (j0 ≤ line n s a) × (line n s a < j0 + width)
  in_row-parts k a hk h =
      let lo : cell n s i k j0 ≤ a = ground arith in
      let hi : a < cell n s i k j0 + width = ground arith in
      let j = j0 + (a - cell n s i k j0) in
      let here : cell n s i k j ≡ a = omega arith in
      let parts = cell_parts n s i k j hk (omega arith) in
      subst
        (λ c. (block n s c ≡ i) × (place n s c ≡ k) × (j0 ≤ line n s c) × (line n s c < j0 + width))
        here (parts.0, parts.1, omega (arith, parts.2), omega (arith, parts.2))

  pub in_row-on_lines : (k a : ℕ) → k < n → in_row k a ≡ (on_lines a && place n s a == k)
  in_row-on_lines k a hk = elim (Bool-cases (in_row k a)) [
    | inl e ↦ ground (arith, in_row-parts k a hk e)
    | inr e ↦ ground (arith, cell_unique n s i k (line n s a) a)
  ]
