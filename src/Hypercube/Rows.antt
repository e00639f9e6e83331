-- ===== src/Hypercube/Rows.antt =====
-- The rows of a hypercube in the grid, and what loading and storing it do.
use native.Mathlib.Nat.{mul-le-mul_right}
use native.Mathlib.Decide.{ℕ_discrete}
use ndzip.Base.{
  ℕ, zero, suc, ◌+◌, ◌*◌, ◌/◌, ◌%◌, ◌==◌, if◌then◌else◌, ◌≤◌, ◌<◌, ◌≡◌, refl, ap, subst, sym, ◌∙◌,
  ◌⊎◌, arith, for_up, for_up_inv, div-mul-add, mod-mul-add,
}
use ndzip.Word.{u32}
use ndzip.Memory.{Memory, update, update_self, update_ne}
use ndzip.Extent.{Extent, linear_index}
use ndzip.Hypercube.{slice_round, plane_round, for_each_hypercube_slice, memcpy_elems}

-- How many rows a hypercube has, and where the row `r` begins, from the first cell on.
abbrev pub rows : ℕ → ℕ → ℕ
rows dims side = if dims == 1 then 1 else if dims == 2 then side else side * side

abbrev pub row_start : ℕ → ℕ → Extent → ℕ → ℕ
row_start dims side size r =
    if dims == 1
    then 0
    else if dims == 2
    then r * size 1
    else r / side * u32 (size 1 * size 2) + r % side * size 2

module _ (side : ℕ) (hs : 0 < side) (f : ℕ → ℕ → ℕ → Memory → Memory) (base : ℕ)
    (P : ℕ → Memory → Type 0) where
  -- `f` takes the row `r` that begins at `start r`.
  abbrev Steps : (ℕ → ℕ) → ℕ → Type 0
  Steps start total =
      (r : ℕ) (s : Memory) → r < total → P r s → P (suc r) (f (base + start r) (r * side) side s)

  -- The loop's variables after the rows before `r`.
  abbrev AtRow : ℕ → ℕ → Memory × ℕ × ℕ → Type 0
  AtRow r here t = P r t.0 × (t.1 ≡ base + here) × (t.2 ≡ r * side)

  rows-AtRow :
      (start : ℕ → ℕ) (stride total r : ℕ)
      → ((j : ℕ) → j < side → start (r + j) ≡ start r + j * stride)
      → r + side ≤ total
      → Steps start total
      → (t : Memory × ℕ × ℕ) → AtRow r (start r) t
      → AtRow (r + side) (start r + side * stride) (for_up 0 side 1 (slice_round side stride f) t)
  unfolding slice_round
  rows-AtRow start stride total r even room steps t at =
      for_up_inv (λ j. AtRow (r + j) (start r + j * stride)) side 0 side 1
        (slice_round side stride f) t (omega arith) (omega arith)
        (λ j (s, slice_ptr, cube_ptr) hj (p, here, cell).
          let at_row : slice_ptr ≡ base + start (r + j) =
            here ∙ ap (λ (k : ℕ). base + k) (sym (even j hj)) in
          let next : suc (r + j) ≡ r + suc j = omega arith in
          (
            subst (λ k. P k (f slice_ptr cube_ptr side s)) next
                (rw (at_row, cell) (steps (r + j) s (omega arith) p)),
            omega (arith, here),
            omega (arith, cell),
          ))
        (let none : r + 0 ≡ r = omega arith in rw none (at.0, at.1 ∙ omega arith, at.2))

  planes-AtRow :
      (stride0 stride1 : ℕ)
      → Steps (λ r. r / side * stride0 + r % side * stride1) (side * side)
      → (t : Memory × ℕ × ℕ) → AtRow 0 0 t
      → AtRow
          (side * side)
          (side * stride0)
          (for_up 0 side 1 (plane_round side stride0 stride1 f) t)
  unfolding plane_round
  planes-AtRow stride0 stride1 steps t at =
      for_up_inv (λ i. AtRow (i * side) (i * stride0)) side 0 side 1
        (plane_round side stride0 stride1 f) t (omega arith) (omega arith)
        (λ i (s, slice_ptr, cube_ptr) hi (p, here, cell).
          let start = λ (r : ℕ). r / side * stride0 + r % side * stride1 in
          let room : suc i * side ≤ side * side = mul-le-mul_right side hi in
          let at_start : (j : ℕ) → j < side → start (i * side + j) ≡ i * stride0 + j * stride1 =
            λ j hj. rw (div-mul-add i j side hj, mod-mul-add i j side hj) refl in
          let zeroth : start (i * side) ≡ i * stride0 =
            ap start (let e : i * side ≡ i * side + 0 = omega arith in e)
            ∙ at_start 0 hs
            ∙ omega arith in
          let inner =
            rows-AtRow start stride1 (side * side) (i * side)
              (λ j hj. at_start j hj ∙ omega (arith, zeroth)) (omega arith) steps
              (s, slice_ptr, cube_ptr) (p, here ∙ ap (λ (k : ℕ). base + k) (sym zeroth), cell) in
          let e : i * side + side ≡ suc i * side = omega arith in
          (rw e at (inner.0), omega (arith, here), inner.2 ∙ omega arith))
        (let none : 0 * side ≡ 0 = omega arith in rw none (at.0, at.1 ∙ omega arith, at.2))

  -- What `f` keeps from row to row holds after all rows.
  pub for_each_hypercube_slice-inv :
      (dims : ℕ) (hc_offset size : Extent)
      → 0 < dims
      → dims ≤ 3
      → base ≡ linear_index dims size hc_offset
      → Steps (row_start dims side size) (rows dims side)
      → (s : Memory) → P 0 s
      → P (rows dims side) (for_each_hypercube_slice dims side hc_offset size f s)
  unfolding for_each_hypercube_slice
  for_each_hypercube_slice-inv zero hc_offset size lo hi here steps s p = absurd (omega arith)
  for_each_hypercube_slice-inv (suc zero) hc_offset size lo hi here steps s p =
      let first : linear_index 1 size hc_offset ≡ base + 0 = sym here ∙ omega arith in
      let cell : 0 ≡ 0 * side = omega arith in
      subst (P 1)
        (sym (ap (λ (a : ℕ). f a 0 side s) first ∙ ap (λ (c : ℕ). f (base + 0) c side s) cell))
        (steps 0 s (omega arith) p)
  for_each_hypercube_slice-inv (suc (suc zero)) hc_offset size lo hi here steps s p =
      let all =
        rows-AtRow (λ r. r * size 1) (size 1) side 0 (λ j hj. omega arith) (omega arith) steps
          (s, linear_index 2 size hc_offset, 0) (p, sym here ∙ omega arith, omega arith) in
      let total : 0 + side ≡ side = omega arith in
      subst
        (λ k.
          P k
            (for_up 0 side 1 (slice_round side (size 1) f) (s, linear_index 2 size hc_offset, 0)).0)
        total (all.0)
  for_each_hypercube_slice-inv (suc (suc (suc zero))) hc_offset size lo hi here steps s p =
      (planes-AtRow (u32 (size 1 * size 2)) (size 2) steps (s, linear_index 3 size hc_offset, 0)
        (p, sym here ∙ omega arith, omega arith)).0
  for_each_hypercube_slice-inv (suc (suc (suc (suc dims)))) hc_offset size lo hi here steps s p =
      absurd (omega arith)

-- `memcpy` sets its cells and no others.
pub memcpy_elems_lem :
    (src : Memory) (src_ptr dest_ptr n : ℕ) (dest : Memory)
    → ((i : ℕ)
        → i < n
        → memcpy_elems src src_ptr dest_ptr n dest (dest_ptr + i) ≡ src (src_ptr + i))
      × ((a : ℕ)
          → (a < dest_ptr) ⊎ (dest_ptr + n ≤ a)
          → memcpy_elems src src_ptr dest_ptr n dest a ≡ dest a)
unfolding memcpy_elems
memcpy_elems_lem src src_ptr dest_ptr n dest =
    for_up_inv
      (λ c x.
        ((i : ℕ) → i < c → x (dest_ptr + i) ≡ src (src_ptr + i))
        × ((a : ℕ) → (a < dest_ptr) ⊎ (dest_ptr + c ≤ a) → x a ≡ dest a))
      n 0 n 1 (λ i x. update x (dest_ptr + i) (src (src_ptr + i))) dest (omega arith) (omega arith)
      (λ c x hc (inside, outside).
        let e : 0 + c * 1 ≡ c = omega arith in
        let v = src (src_ptr + c) in
        rw e (
          (λ i hi. elim (ℕ_discrete i c) [
            | yes same ↦ rw same (update_self x (dest_ptr + c) v (dest_ptr + c) refl)
            | no ne ↦
                update_ne x (dest_ptr + c) v (dest_ptr + i) (omega arith) ∙ inside i (omega arith)
          ]),
          (λ a away. update_ne x (dest_ptr + c) v a (grind arith) ∙ outside a (grind arith)),
        ))
      ((λ i hi. absurd (omega arith)), (λ a away. refl))
