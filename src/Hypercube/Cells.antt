-- ===== src/Hypercube/Cells.antt =====
-- Which cells of the grid a hypercube has, and what loading and storing it do with them.
use native.Mathlib.Nat.{mul-le-mul_right}
use native.Mathlib.Decide.{dec_lt}
use ndzip.Base.{
  ℕ, suc, ◌+◌, ◌-◌, ◌*◌, ◌/◌, ◌%◌, ◌≤◌, ◌<◌, ◌≡◌, refl, ap, sym, ◌∙◌, inl, inr, arith, div-mul-add,
  mod-mul-add,
}
use ndzip.Memory.{Memory}
use ndzip.Extent.{Extent, linear_index}
use ndzip.Hypercube.{memcpy_elems, load_hypercube, store_hypercube}
use ndzip.Hypercube.Rows.{rows, row_start, for_each_hypercube_slice-inv, memcpy_elems_lem}

-- The cell of the grid that is the cell `c` of the hypercube with its first cell at `base`.
abbrev pub cell_address : ℕ → ℕ → Extent → ℕ → ℕ → ℕ
cell_address dims side size base c = base + row_start dims side size (c / side) + c % side

module _ (dims side : ℕ) (hc_offset size : Extent) (lo : 0 < dims) (hi : dims ≤ 3)
    (hs : 0 < side) where
  abbrev pub base : ℕ
  base = linear_index dims size hc_offset

  abbrev address : ℕ → ℕ
  address = cell_address dims side size (linear_index dims size hc_offset)

  address-row :
      (r j : ℕ) → j < side → address (r * side + j) ≡ base + row_start dims side size r + j
  address-row r j hj = rw (div-mul-add r j side hj, mod-mul-add r j side hj) refl

  -- The cell `c` of the last of `suc r` rows.
  last_row :
      (r c : ℕ)
      → r * side ≤ c
      → c < suc r * side
      → (r * side + (c - r * side) ≡ c) × (c - r * side < side)
  last_row r c ge lt = (omega arith, omega arith)

  -- Each cell of the hypercube is the one of the grid.
  pub load_hypercube_lem :
      (values cube : Memory) (c : ℕ)
      → c < rows dims side * side
      → load_hypercube dims side hc_offset size values cube c ≡ values (address c)
  unfolding load_hypercube
  load_hypercube_lem values cube =
      for_each_hypercube_slice-inv side hs (λ src dest n. memcpy_elems values src dest n) base
        (λ r x. (c : ℕ) → c < r * side → x c ≡ values (address c)) dims hc_offset size lo hi refl
        (λ r x hr loaded c hc.
          let start = base + row_start dims side size r in
          let (inside, outside) = memcpy_elems_lem values start (r * side) side x in
          elim (dec_lt c (r * side)) [
            | yes before ↦ outside c (inl before) ∙ loaded c before
            | no ge ↦
                let (e, lt) = last_row r c (omega arith) hc in
                ap (memcpy_elems values start (r * side) side x) (sym e)
                ∙ inside (c - r * side) lt
                ∙ ap values (sym (address-row r (c - r * side) lt) ∙ ap address e)
          ])
        cube (λ c hc. absurd (omega arith))

  -- Storing a hypercube with the cells of an array `src` makes these cells equal to `src`, and
  -- leaves no cell different that was equal.
  pub store_hypercube_lem :
      (src cube dest : Memory)
      → ((c : ℕ) → c < rows dims side * side → cube c ≡ src (address c))
      → ((a : ℕ) → dest a ≡ src a → store_hypercube dims side hc_offset size cube dest a ≡ src a)
        × ((c : ℕ)
            → c < rows dims side * side
            → store_hypercube dims side hc_offset size cube dest (address c) ≡ src (address c))
  unfolding store_hypercube
  store_hypercube_lem src cube dest same =
      for_each_hypercube_slice-inv side hs (λ dest src n. memcpy_elems cube src dest n) base
        (λ r x.
          ((a : ℕ) → dest a ≡ src a → x a ≡ src a)
          × ((c : ℕ) → c < r * side → x (address c) ≡ src (address c)))
        dims hc_offset size lo hi refl
        (λ r x hr (kept, stored).
          let start = base + row_start dims side size r in
          let x' = memcpy_elems cube (r * side) start side x in
          let (inside, outside) = memcpy_elems_lem cube (r * side) start side x in
          let room : suc r * side ≤ rows dims side * side = mul-le-mul_right side hr in
          let row : (j : ℕ) → j < side → x' (start + j) ≡ src (start + j) =
            λ j hj. inside j hj ∙ same (r * side + j) (omega arith) ∙ ap src (address-row r j hj) in
          let keep : (a : ℕ) → x a ≡ src a → x' a ≡ src a = λ a e. elim (dec_lt a start) [
            | yes lt ↦ outside a (inl lt) ∙ e
            | no ge ↦ elim (dec_lt a (start + side)) [
              | yes lt ↦
                  let at : start + (a - start) ≡ a = omega arith in
                  rw at at (row (a - start) (omega arith))
              | no past ↦ outside a (inr (omega arith)) ∙ e
            ]
          ] in
          (
            (λ a e. keep a (kept a e)),
            λ c hc. elim (dec_lt c (r * side)) [
              | yes before ↦ keep (address c) (stored c before)
              | no ge ↦
                  let (e, lt) = last_row r c (omega arith) hc in
                  let at : address c ≡ start + (c - r * side) =
                    ap address (sym e) ∙ address-row r (c - r * side) lt in
                  rw at (row (c - r * side) lt)
            ],
          ))
        dest ((λ a e. e), (λ c hc. absurd (omega arith)))
