-- ===== src/Gpu/Hypercubes/Corners.antt =====
-- Where the hypercubes of a grid start, and the index of each of their cells.
use ndzip.Base.{
  ℕ, ◌+◌, ◌*◌, ◌/◌, ◌^◌, ◌≤◌, ◌<◌, ◌≡◌, inl, inr, refl, ap, ◌∙◌, arith, subst, lt→ltb, div-mul-add,
}
use native.Mathlib.Nat.{mod-eq_of_lt, div-add-mod', div-le_self}
use ndzip.Word.{u32, rotate_left_1, complement_negative}
use ndzip.Memory.{Memory}
use ndzip.Extent.{
  Extent, linear_index, linear_offset, extent_from_linear_id, mul_extent, div_extent,
}
use ndzip.Extent.Laws.{volume, volume-le, value-lt-volume, linear_offset-eq-linear_index}
use ndzip.Extent.Ids.{extent_from_linear_id-lt, component-le-volume}
use ndzip.Extent.Pointwise.{div_extent-at, mul_extent-at}
use ndzip.Transform.{ipow, for_each_cell, differences, block_transform}
use ndzip.Hypercube.Rows.{rows}
use ndzip.Hypercube.Cells.{cell_address}
use ndzip.Gpu.Lanes.Agreement.{IsProfile, side_of}
use ndzip.Gpu.Hypercubes.{global_offset}
use ndzip.Gpu.Hypercubes.Addresses.{IsCorner, position, within, address-value, global_offset-eq}

-- `hc_offset` of `for_hypercube_indices`.
abbrev pub origin : ℕ → ℕ → Extent → ℕ → Extent
origin dims side size hc_index =
    mul_extent dims (extent_from_linear_id dims hc_index (div_extent dims size side)) side

module _ (dims side : ℕ) (hs : 0 < side) (lo : 0 < dims) (size : Extent)
    (small : volume size dims < 2 ^ 32) (k : ℕ)
    (hk : k < volume (div_extent dims size side) dims) where
  abbrev counts : Extent
  counts = div_extent dims size side

  counts-at : (d : ℕ) → d < dims → counts d ≡ size d / side
  counts-at d h = rw (div_extent-at dims size side d, lt→ltb d dims h) refl

  -- The volume of the grid is not 0, nor more than `2 ^ 32`.
  counts-small : volume counts dims ≤ 2 ^ 32
  counts-small =
      omega
        (arith, volume-le counts size dims (λ d h. rw (counts-at d h) (div-le_self (size d) side)))

  origin-IsCorner : IsCorner dims side size (origin dims side size k)
  origin-IsCorner d h =
      let e = extent_from_linear_id dims k counts d in
      let below : e < size d / side =
        subst (λ n. e < n) (counts-at d h)
          (extent_from_linear_id-lt dims k counts lo counts-small hk d h) in
      let most : e * side + side ≤ size d = grind (arith, div-add-mod' (size d) side) in
      let whole : size d ≤ volume size dims = component-le-volume size dims d h (
        omega (
          arith,
          volume-le counts size dims (λ d h. rw (counts-at d h) (div-le_self (size d) side)),
        )) in
      let at : origin dims side size k d ≡ e * side =
        rw (mul_extent-at dims (extent_from_linear_id dims k counts) side d, lt→ltb d dims h)
          (mod-eq_of_lt (omega arith)) in
      let quotient : e * side / side ≡ e =
        ap (λ n. n / side) (let z : e * side ≡ e * side + 0 = omega arith in z)
        ∙ div-mul-add e 0 side hs in
      rw (at, quotient) (refl, most)

-- The hypercubes of the profiles have 4096 cells.
pub record HasCount (dims side : ℕ) : Type 0 where
  pub positive : 0 < dims
  pub most : dims ≤ 3
  pub some_side : 0 < side
  pub power : side ^ dims ≡ 4096
  pub loop : ipow 32 side dims ≡ 4096
  pub positions : volume (λ d. side) dims ≡ 4096
  pub row_cells : rows dims side * side ≡ 4096

pub profile-HasCount : (bytes dims : ℕ) → IsProfile bytes dims → HasCount dims (side_of dims)
unfolding ipow
profile-HasCount bytes dims (size, inl e) = rw e (record {
  positive = omega arith;
  most = omega arith;
  some_side = omega arith;
  power = refl;
  loop = refl;
  positions = refl;
  row_cells = refl;
})
profile-HasCount bytes dims (size, inr (inl e)) = rw e (record {
  positive = omega arith;
  most = omega arith;
  some_side = omega arith;
  power = refl;
  loop = refl;
  positions = refl;
  row_cells = refl;
})
profile-HasCount bytes dims (size, inr (inr e)) = rw e (record {
  positive = omega arith;
  most = omega arith;
  some_side = omega arith;
  power = refl;
  loop = refl;
  positions = refl;
  row_cells = refl;
})

pub block_transform-stages :
    (w dims n : ℕ) (x : Memory)
    → for_each_cell
        (ipow 32 n dims)
        (complement_negative w)
        (differences w dims n (for_each_cell (ipow 32 n dims) (rotate_left_1 w) x))
      ≡ block_transform w dims n x
unfolding block_transform
block_transform-stages w dims n x = refl

module _ (bytes dims : ℕ) (profile : IsProfile bytes dims) (size : Extent)
    (small : volume size dims < 2 ^ 32) (k : ℕ)
    (hk : k < volume (div_extent dims size (side_of dims)) dims) where
  abbrev side : ℕ
  side = side_of dims

  abbrev o : Extent
  o = origin dims (side_of dims) size k

  count : HasCount dims (side_of dims)
  count = profile-HasCount bytes dims profile

  corner : IsCorner dims side size o
  corner = origin-IsCorner dims side count.some_side count.positive size small k hk

  -- The index that a cell of the hypercube has in the grid.
  pub global_idx-eq :
      (c : ℕ)
      → c < 4096
      → u32 (linear_offset dims o size + global_offset dims side c size)
        ≡ cell_address dims side size (linear_index dims size o) c
  global_idx-eq c hc =
      let inside : c < volume (λ d. side) dims = rw count.positions hc in
      let few : volume (λ d. side) dims < 2 ^ 32 = rw count.positions (omega arith) in
      let at =
        address-value side count.some_side size o dims count.positive count.most small few corner c
          inside in
      let below =
        value-lt-volume dims size
          (position side count.some_side size o dims count.positive count.most small few corner c
            inside)
          dims
          (within side count.some_side size o dims count.positive count.most small few corner c
            inside) in
      let first : o 0 < 2 ^ 32 = omega (
        arith,
        (corner 0 count.positive).1,
        component-le-volume size dims 0 count.positive (omega arith),
      ) in
      rw
        (
          linear_offset-eq-linear_index dims size o count.positive first,
          global_offset-eq side count.some_side size c dims count.positive count.most inside,
        )
        (omega (arith, at, below))
