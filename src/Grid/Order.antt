-- ===== src/Grid/Order.antt =====
-- The CPU encoder's loop over the hypercubes meets them as the GPU encoders number them.
use native.Mathlib.Nat.{mod-eq_of_lt, mul-le-mul_right, div-add-mod'}
use native.Mathlib.Decide.{dec_lt}
use ndzip.Base.{
  ℕ, zero, suc, ◌+◌, ◌*◌, ◌^◌, ◌≤◌, ◌<◌, ◌≡◌, refl, ap, sym, ◌∙◌, arith, fun_ext, for_up, rounds,
  for_up-eq-rounds, lt→ltb, le→ltb,
}
use ndzip.Word.{u32}
use ndzip.Extent.{Extent, extent_from_linear_id, num_elements, mul_extent, div_extent}
use ndzip.Extent.Laws.{volume, num_elements-eq}
use ndzip.Extent.Ids.{extent_from_linear_id-lt}
use ndzip.Extent.Pointwise.{div_extent-at, mul_extent-at}
use ndzip.Grid.{Profile, num_hypercubes, for_each_hypercube}
use ndzip.Extent.Tails.{span, volume-span}
use ndzip.Extent.Digits.{
  digit, digit_cong, extent_from_linear_id-digit, extent_from_linear_id-blank,
}
use ndzip.Grid.Visits.{cube_counts, cube_origin, iter_hypercubes-rounds}

-- Rounds from 0 on whose bodies agree.
rounds_cong {ℓ} :
    {S : Type ℓ} (g h : ℕ → S → S) (n i : ℕ) (s : S)
    → ((k : ℕ) → i ≤ k → k < i + n → g k ≡ h k)
    → rounds n i 1 g s ≡ rounds n i 1 h s
unfolding rounds
rounds_cong g h zero i s same = refl
rounds_cong g h (suc n) i s same =
    rw (same i (omega arith) (omega arith))
      (rounds_cong g h n (i + 1) (h i s) (λ k lo hi. same k (omega arith) (omega arith)))

pub num_hypercubes-eq :
    (pr : Profile) (size : Extent)
    → num_hypercubes pr size ≡ u32 (volume (cube_counts pr.side size) pr.dims)
unfolding num_hypercubes num_elements
num_hypercubes-eq pr size = num_elements-eq pr.dims (cube_counts pr.side size) (λ d. 0)

module _ (pr : Profile) (size : Extent) (hd : 0 < pr.dims)
    (room : (d : ℕ) → d < pr.dims → size d + pr.side < 2 ^ 32)
    (fits : volume (cube_counts pr.side size) pr.dims < 2 ^ 32) where
  abbrev pub grid : Extent
  grid = div_extent pr.dims size pr.side

  -- The position of the hypercube number `k` by the arithmetic on extents.
  abbrev pub position : ℕ → Extent
  position k = mul_extent pr.dims (extent_from_linear_id pr.dims k grid) pr.side

  grid-eq : (d : ℕ) → d < pr.dims → grid d ≡ cube_counts pr.side size d
  grid-eq d h = div_extent-at pr.dims size pr.side d ∙ rw (lt→ltb d pr.dims h) refl

  component :
      (k e : ℕ)
      → e < pr.dims
      → extent_from_linear_id pr.dims k grid e ≡ digit (cube_counts pr.side size) pr.dims k e
  component k e he =
      extent_from_linear_id-digit pr.dims grid k e he
      ∙ digit_cong grid (cube_counts pr.side size) pr.dims k e grid-eq

  component-small :
      (k e : ℕ)
      → k < volume (cube_counts pr.side size) pr.dims
      → e < pr.dims
      → digit (cube_counts pr.side size) pr.dims k e * pr.side < 2 ^ 32
  component-small k e hk he =
      let q = cube_counts pr.side size in
      let below : digit q pr.dims k e < q e =
        rw (extent_from_linear_id-digit pr.dims q k e he) at
          (extent_from_linear_id-lt pr.dims k q hd (omega arith) hk e he) in
      let most : digit q pr.dims k e * pr.side ≤ q e * pr.side =
        mul-le-mul_right pr.side (omega arith) in
      omega (arith, most, div-add-mod' (size e) pr.side, room e he)

  pub position-eq :
      (k : ℕ)
      → k < volume (cube_counts pr.side size) pr.dims
      → cube_origin pr.dims pr.side size k ≡ position k
  position-eq k hk = fun_ext λ e. elim (dec_lt e pr.dims) [
    | yes lt ↦
        rw
          (
            lt→ltb e pr.dims lt,
            mul_extent-at pr.dims (extent_from_linear_id pr.dims k grid) pr.side e,
            lt→ltb e pr.dims lt,
            component k e lt,
          )
          (sym (mod-eq_of_lt (component-small k e hk lt)))
    | no ge ↦
        rw
          (
            le→ltb e pr.dims (omega arith),
            mul_extent-at pr.dims (extent_from_linear_id pr.dims k grid) pr.side e,
            le→ltb e pr.dims (omega arith),
          )
          (sym (extent_from_linear_id-blank pr.dims grid k e (omega arith)))
  ]

  module _ {ℓ} {S : Type ℓ} (hs : 0 < pr.side) (f : ℕ → Extent → S → S) where
    -- If no loop variable can pass `2 ^ 32`, in at least one dimension and with a side that is not 0:
    -- the loop calls its function once for each number below `num_hypercubes`, in ascending order,
    -- with the position that the number has in the grid of hypercubes.
    pub for_each_hypercube-eq :
        (s : S)
        → for_each_hypercube pr size f s
          ≡ for_up 0
              (num_hypercubes pr size)
              1
              (λ k. f k (
                mul_extent pr.dims
                  (extent_from_linear_id pr.dims k (div_extent pr.dims size pr.side))
                  pr.side))
              s
    unfolding for_each_hypercube
    for_each_hypercube-eq s =
        let q = cube_counts pr.side size in
        let n = volume q pr.dims in
        let all : span q 0 pr.dims ≡ n =
          let z : 0 + pr.dims ≡ pr.dims = omega arith in
          let v : volume q (0 + pr.dims) ≡ volume q pr.dims = ap (volume q) z in
          omega (arith, v, volume-span q pr.dims 0) in
        let number : num_hypercubes pr size ≡ n = num_hypercubes-eq pr size ∙ mod-eq_of_lt fits in
        let one : 0 < 1 = omega arith in
        let whole : n ≡ 0 + n * 1 = omega arith in
        let bound : span q 0 pr.dims < 2 ^ 32 = rw all fits in
        iter_hypercubes-rounds pr.dims pr.side hs size room f bound s
        ∙ rw (all, number, for_up-eq-rounds n 0 n 1 (λ k. f k (position k)) s one whole)
            (rounds_cong _ _ n 0 s (λ k lo hi. ap (f k) (position-eq k (omega arith))))
