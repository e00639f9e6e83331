-- ===== src/Hypercube/Coverage.antt =====
-- Every cell of the grid that is not in the border is a cell of some hypercube.
use native.Mathlib.Nat.{mod-lt, mod-eq_of_lt, div-add-mod', mul-le-mul_right, pow-zero, pow-suc}
use native.Mathlib.Decide.{ℕ_discrete}
use ndzip.Base.{
  ℕ, zero, suc, ◌+◌, ◌*◌, ◌/◌, ◌%◌, ◌^◌, ◌≤◌, ◌<◌, ◌≡◌, refl, ap, sym, ◌∙◌, arith, div-mul-add,
  mod-mul-add, eq→==, ne→==,
}
use ndzip.Word.{u32}
use ndzip.Extent.{Extent, linear_index}
use ndzip.Extent.Laws.{volume, value, value-lt-volume}
use ndzip.Extent.Ids.{linear_index-value}
use ndzip.Extent.Digits.{digit}
use ndzip.Hypercube.Rows.{rows}
use ndzip.Hypercube.Cells.{cell_address}

-- The cell of its hypercube that the position `q` has.
abbrev pub cell_of : ℕ → ℕ → Extent → ℕ
cell_of dims side q = value (λ d. side) (λ d. q d % side) dims

module _ (side : ℕ) (hs : 0 < side) (size q o : Extent) where
  abbrev IsOrigin : ℕ → Type 0
  IsOrigin dims =
      ((d : ℕ) → d < dims → q d < size d) × ((d : ℕ) → d < dims → o d ≡ q d / side * side)

  origin-value :
      (dims : ℕ)
      → 0 < dims
      → volume size dims < 2 ^ 32
      → IsOrigin dims
      → linear_index dims size o ≡ value size o dims
  origin-value dims hd fits (within, at) =
      linear_index-value dims size o hd fits
        (λ d h. omega (arith, within d h, at d h, div-add-mod' (q d) side))

  split : (dims d : ℕ) → IsOrigin dims → d < dims → q d ≡ o d + q d % side
  split dims d (within, at) h = omega (arith, at d h, div-add-mod' (q d) side)

  pub cell_of-address :
      (dims : ℕ)
      → 0 < dims
      → dims ≤ 3
      → volume size dims < 2 ^ 32
      → IsOrigin dims
      → cell_address dims side size (linear_index dims size o) (cell_of dims side q)
        ≡ value size q dims
  cell_of-address zero lo hi fits h = absurd (omega arith)
  cell_of-address (suc zero) lo hi fits h =
      let base = origin-value 1 lo fits h in
      let a = mod-lt (q 0) hs in
      let e : cell_of 1 side q ≡ q 0 % side = omega arith in
      let m : q 0 % side % side ≡ q 0 % side = mod-eq_of_lt a in
      rw (base, e, m) (omega (arith, split 1 0 h (omega arith)))
  cell_of-address (suc (suc zero)) lo hi fits h =
      let base = origin-value 2 lo fits h in
      let a = q 0 % side in
      let b = q 1 % side in
      let e : cell_of 2 side q ≡ a * side + b = omega arith in
      let d = div-mul-add a b side (mod-lt (q 1) hs) in
      let m = mod-mul-add a b side (mod-lt (q 1) hs) in
      rw (base, e, d, m)
        (omega (
          arith,
          ap (λ (t : ℕ). t * size 1) (split 2 0 h (omega arith)),
          split 2 1 h (omega arith),
        ))
  cell_of-address (suc (suc (suc zero))) lo hi fits h =
      let base = origin-value 3 lo fits h in
      let a = q 0 % side in
      let b = q 1 % side in
      let c = q 2 % side in
      let e : cell_of 3 side q ≡ (a * side + b) * side + c = omega arith in
      let d = div-mul-add (a * side + b) c side (mod-lt (q 2) hs) in
      let m = mod-mul-add (a * side + b) c side (mod-lt (q 2) hs) in
      let d' = div-mul-add a b side (mod-lt (q 1) hs) in
      let m' = mod-mul-add a b side (mod-lt (q 1) hs) in
      let plane : 1 * (size 1 * size 2) ≤ size 0 * (size 1 * size 2) =
        mul-le-mul_right (size 1 * size 2) (omega (arith, h.0 0 (omega arith))) in
      let stride : u32 (size 1 * size 2) ≡ size 1 * size 2 = mod-eq_of_lt (omega (arith, fits)) in
      rw (base, e, d, m, d', m', stride)
        (omega (
          arith,
          ap (λ (t : ℕ). t * (size 1 * size 2)) (split 3 0 h (omega arith)),
          ap (λ (t : ℕ). t * size 2) (split 3 1 h (omega arith)),
          split 3 2 h (omega arith),
        ))
  cell_of-address (suc (suc (suc (suc dims)))) lo hi fits h = absurd (omega arith)

cells-volume :
    (dims side : ℕ) → 0 < dims → dims ≤ 3 → rows dims side * side ≡ volume (λ d. side) dims
cells-volume zero side lo hi = absurd (omega arith)
cells-volume (suc zero) side lo hi = omega arith
cells-volume (suc (suc zero)) side lo hi = omega arith
cells-volume (suc (suc (suc zero))) side lo hi = omega arith
cells-volume (suc (suc (suc (suc dims)))) side lo hi = absurd (omega arith)

pub cells-pow : (dims side : ℕ) → 0 < dims → dims ≤ 3 → rows dims side * side ≡ side ^ dims
cells-pow dims side lo hi = cells-volume dims side lo hi ∙ sym (power dims)
  where
    power : (k : ℕ) → side ^ k ≡ volume (λ d. side) k
    power zero = pow-zero side
    power (suc k) = pow-suc side k ∙ ap (λ (t : ℕ). t * side) (power k)

-- It is one of the hypercube's cells.
pub cell_of-lt :
    (dims side : ℕ) (q : Extent)
    → 0 < dims
    → dims ≤ 3
    → 0 < side
    → cell_of dims side q < rows dims side * side
cell_of-lt dims side q lo hi hs =
    rw (cells-volume dims side lo hi)
      (value-lt-volume dims (λ d. side) (λ d. q d % side) dims (λ d h. mod-lt (q d) hs))

-- The digits of the value of a position are its components.
pub digit-value :
    (counts p : Extent) (m e : ℕ)
    → ((d : ℕ) → d < m → p d < counts d)
    → e < m
    → digit counts m (value counts p m) e ≡ p e
digit-value counts p zero e within h = absurd (omega arith)
digit-value counts p (suc m) e within h = elim (ℕ_discrete e m) [
  | yes here ↦
      rw
        (
          here,
          eq→== m m refl,
          mod-mul-add (value counts p m) (p m) (counts m) (within m (omega arith)),
        )
        refl
  | no ne ↦
      rw (ne→== e m ne, div-mul-add (value counts p m) (p m) (counts m) (within m (omega arith)))
        (digit-value counts p m e (λ d lt. within d (omega arith)) (omega arith))
]
