-- ===== src/Gpu/Hypercubes/Addresses.antt =====
-- The index in the grid that each cell of a hypercube has.
use ndzip.Base.{
  ℕ, zero, suc, ◌+◌, ◌*◌, ◌/◌, ◌%◌, ◌^◌, ◌≤◌, ◌<◌, ◌≡◌, ap, sym, ◌∙◌, arith, div-mul-add,
  mod-mul-add, mod-mul-mod,
}
use native.Mathlib.Nat.{div-lt_iff_lt-mul, mul_comm, mod-eq_of_lt}
use ndzip.Word.{u32}
use ndzip.Extent.{Extent, linear_index, extent_from_linear_id}
use ndzip.Extent.Laws.{volume, value}
use ndzip.Extent.Ids.{extent_from_linear_id-lt, value-extent_from_linear_id}
use ndzip.Extent.Tails.{value_cong}
use ndzip.Hypercube.Rows.{row_start}
use ndzip.Hypercube.Cells.{cell_address}
use ndzip.Hypercube.Coverage.{cell_of, cell_of-address}
use ndzip.Gpu.Hypercubes.{global_offset}

-- The hypercube's first position, within the grid.
abbrev pub IsCorner : ℕ → ℕ → Extent → Extent → Type 0
IsCorner dims side size o = (d : ℕ) → d < dims → (o d / side * side ≡ o d) × (o d + side ≤ size d)

module _ (side : ℕ) (hs : 0 < side) (size o : Extent) (dims : ℕ) (lo : 0 < dims) (hi : dims ≤ 3)
    (small : volume size dims < 2 ^ 32) (cells : volume (λ d. side) dims < 2 ^ 32)
    (corner : IsCorner dims side size o) (c : ℕ) (hc : c < volume (λ d. side) dims) where
  -- The position of the cell in the hypercube, and in the grid.
  abbrev local : Extent
  local = extent_from_linear_id dims c (λ d. side)

  abbrev pub position : Extent
  position d = o d + local d

  local-lt : (d : ℕ) → d < dims → local d < side
  local-lt = extent_from_linear_id-lt dims c (λ d. side) lo (omega arith) hc

  position-mod : (d : ℕ) → d < dims → position d % side ≡ local d
  position-mod d h =
      ap (λ n. (n + local d) % side) (sym (corner d h).0)
      ∙ mod-mul-add (o d / side) (local d) side (local-lt d h)

  position-div : (d : ℕ) → d < dims → position d / side * side ≡ o d
  position-div d h =
      ap (λ n. n * side)
        (ap (λ n. (n + local d) / side) (sym (corner d h).0)
          ∙ div-mul-add (o d / side) (local d) side (local-lt d h))
      ∙ (corner d h).0

  pub within : (d : ℕ) → d < dims → position d < size d
  within d h = omega (arith, local-lt d h, (corner d h).1)

  position-cell : cell_of dims side position ≡ c
  position-cell =
      value_cong (λ d. side) (λ d. position d % side) local dims position-mod
      ∙ value-extent_from_linear_id dims c (λ d. side) lo (omega arith) hc

  pub address-value :
      cell_address dims side size (linear_index dims size o) c ≡ value size position dims
  address-value =
      ap (cell_address dims side size (linear_index dims size o)) (sym position-cell)
      ∙ cell_of-address side hs size position o dims lo hi small
          (within, λ d h. sym (position-div d h))

module _ (side : ℕ) (hs : 0 < side) (size : Extent) (c : ℕ) where
  -- What the loop of `global_offset` adds, in 32 bits, is the start of the cell's row and its place
  -- in it.
  offset_1 :
      c < side → global_offset 1 side c size ≡ u32 (row_start 1 side size (c / side) + c % side)
  unfolding global_offset
  offset_1 h = omega arith

  offset_2 :
      c / side < side
      → global_offset 2 side c size ≡ u32 (row_start 2 side size (c / side) + c % side)
  unfolding global_offset
  offset_2 h =
      let m : c / side % side ≡ c / side = mod-eq_of_lt h in
      let once : 1 * size 1 ≡ size 1 = omega arith in
      let plane : u32 (1 * size 1) * (c / side) % 2 ^ 32 ≡ size 1 * (c / side) % 2 ^ 32 =
        ap (λ k. u32 k * (c / side) % 2 ^ 32) once ∙ mod-mul-mod (size 1) (c / side) (2 ^ 32) in
      let turned : size 1 * (c / side) ≡ c / side * size 1 = mul_comm (size 1) (c / side) in
      rw (m, plane, turned) (omega arith)

  offset_3 :
      c / side / side < side
      → global_offset 3 side c size ≡ u32 (row_start 3 side size (c / side) + c % side)
  unfolding global_offset
  offset_3 h =
      let r = c / side in
      let m : r / side % side ≡ r / side = mod-eq_of_lt h in
      let once : 1 * size 2 ≡ size 2 = omega arith in
      let row : u32 (1 * size 2) * (r % side) % 2 ^ 32 ≡ r % side * size 2 % 2 ^ 32 =
        ap (λ k. u32 k * (r % side) % 2 ^ 32) once
        ∙ mod-mul-mod (size 2) (r % side) (2 ^ 32)
        ∙ ap (λ k. k % 2 ^ 32) (mul_comm (size 2) (r % side)) in
      let stride : u32 (u32 (1 * size 2) * size 1) ≡ u32 (size 1 * size 2) =
        ap (λ k. u32 (u32 k * size 1)) once
        ∙ mod-mul-mod (size 2) (size 1) (2 ^ 32)
        ∙ ap (λ k. k % 2 ^ 32) (mul_comm (size 2) (size 1)) in
      let plane : u32 (u32 (1 * size 2) * size 1) * (r / side) % 2 ^ 32
          ≡ r / side * u32 (size 1 * size 2) % 2 ^ 32 =
        ap (λ k. k * (r / side) % 2 ^ 32) stride
        ∙ ap (λ k. k % 2 ^ 32) (mul_comm (u32 (size 1 * size 2)) (r / side)) in
      rw (m, row, plane) (omega arith)

  pub global_offset-eq :
      (dims : ℕ)
      → 0 < dims
      → dims ≤ 3
      → c < volume (λ d. side) dims
      → global_offset dims side c size ≡ u32 (row_start dims side size (c / side) + c % side)
  global_offset-eq zero lo hi h = absurd (let no : ⊥ = omega arith in no)
  global_offset-eq (suc zero) lo hi h = offset_1 (omega arith)
  global_offset-eq (suc (suc zero)) lo hi h = offset_2 ((div-lt_iff_lt-mul hs).1 (omega arith))
  global_offset-eq (suc (suc (suc zero))) lo hi h =
      offset_3 ((div-lt_iff_lt-mul hs).1 ((div-lt_iff_lt-mul hs).1 (omega arith)))
  global_offset-eq (suc (suc (suc (suc dims)))) lo hi h = absurd (let no : ⊥ = omega arith in no)
