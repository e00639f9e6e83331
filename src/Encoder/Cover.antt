-- ===== src/Encoder/Cover.antt =====
-- A cell of the grid that is not behind the last hypercube of some dimension, as a hypercube's cell.
use native.Mathlib.Nat.{mod-eq_of_lt, div-lt_iff_lt-mul}
use native.Mathlib.Decide.{dec_lt}
use ndzip.Base.{
  ℕ, zero, suc, ◌+◌, ◌*◌, ◌/◌, ◌^◌, ◌≤◌, ◌<◌, ◌≡◌, ap, sym, ◌∙◌, ◌⊎◌, inl, inr, arith, lt→ltb,
}
use ndzip.Extent.{Extent, linear_index, mul_extent, div_extent, extent_from_linear_id}
use ndzip.Extent.Laws.{volume, value, value-lt-volume}
use ndzip.Grid.{Profile, num_hypercubes}
use ndzip.Grid.Visits.{cube_counts, cube_origin}
use ndzip.Grid.Order.{position-eq, num_hypercubes-eq}
use ndzip.Border.{border_begin}
use ndzip.Hypercube.Cells.{cell_address}
use ndzip.Hypercube.Coverage.{cell_of, cell_of-address, digit-value}

-- Whether the position is before the border in all of the first `n` dimensions.
pub find_behind :
    (size q : Extent) (side n : ℕ)
    → ((d : ℕ) → d < n → q d < border_begin size side d)
      ⊎ ((e : ℕ) × (e < n) × (border_begin size side e ≤ q e))
find_behind size q side zero = inl (λ d h. absurd (omega arith))
find_behind size q side (suc n) = elim (find_behind size q side n) [
  | inr (e, he, behind) ↦ inr (e, omega arith, behind)
  | inl before ↦ elim (dec_lt (q n) (border_begin size side n)) [
    | no ge ↦ inr (n, omega arith, omega arith)
    | yes lt ↦ inl (λ d h. elim (dec_lt d n) [
      | yes hd ↦ before d hd
      | no last ↦ let e : d ≡ n = omega arith in rw e lt
    ])
  ]
]

module _ (pr : Profile) (size : Extent) (hs : 0 < pr.side) (lo : 0 < pr.dims) (hi : pr.dims ≤ 3)
    (room : (d : ℕ) → d < pr.dims → size d + pr.side < 2 ^ 32)
    (cells : volume size pr.dims < 2 ^ 32)
    (counted : volume (cube_counts pr.side size) pr.dims < 2 ^ 32) (q : Extent)
    (within : (d : ℕ) → d < pr.dims → q d < size d)
    (before : (d : ℕ) → d < pr.dims → q d < border_begin size pr.side d) where
  -- The number of the hypercube that the position lies in.
  abbrev pub number : ℕ
  number = value (cube_counts pr.side size) (λ d. q d / pr.side) pr.dims

  quotient-lt : (d : ℕ) → d < pr.dims → q d / pr.side < cube_counts pr.side size d
  quotient-lt d h = (div-lt_iff_lt-mul hs).1 (before d h)

  number-small : number < volume (cube_counts pr.side size) pr.dims
  number-small =
      value-lt-volume pr.dims (cube_counts pr.side size) (λ d. q d / pr.side) pr.dims quotient-lt

  pub number-lt : number < num_hypercubes pr size
  number-lt =
      let all : num_hypercubes pr size ≡ volume (cube_counts pr.side size) pr.dims =
        num_hypercubes-eq pr size ∙ mod-eq_of_lt counted in
      rw all number-small

  pub number-address :
      cell_address pr.dims pr.side size
        (linear_index pr.dims size (
          mul_extent pr.dims
            (extent_from_linear_id pr.dims number (div_extent pr.dims size pr.side))
            pr.side))
        (cell_of pr.dims pr.side q)
      ≡ value size q pr.dims
  number-address =
      let o =
        mul_extent pr.dims (extent_from_linear_id pr.dims number (div_extent pr.dims size pr.side))
          pr.side in
      let same : cube_origin pr.dims pr.side size number ≡ o =
        position-eq pr size lo room counted number number-small in
      cell_of-address pr.side hs size q o pr.dims lo hi cells (
        within,
        λ d h.
            ap (λ (e : Extent). e d) (sym same)
            ∙ rw (lt→ltb d pr.dims h) (
                ap (λ (t : ℕ). t * pr.side)
                  (digit-value (cube_counts pr.side size) (λ k. q k / pr.side) pr.dims d quotient-lt
                    h)),
      )
