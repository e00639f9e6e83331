-- ===== src/Gpu/BorderMap/Located.antt =====
-- The map that the constructor makes has every position of the border.
use ndzip.Base.{
  ℕ, zero, suc, ◌-◌, ◌*◌, ◌/◌, ◌^◌, ◌≤◌, ◌<◌, ◌≡◌, ◌⊎◌, inl, inr, ap, sym, ◌∙◌, subst, arith,
}
use native.Mathlib.Nat.{mul-le-mul_right}
use native.Mathlib.Decide.{ℕ_discrete}
use ndzip.Extent.{Extent}
use ndzip.Extent.Laws.{volume, stride, value-lt-volume}
use ndzip.Extent.Ids.{component-le-volume}
use ndzip.Gpu.BorderMap.{BorderMap, border_map, border_size, border_position}
use ndzip.Gpu.BorderMap.Built.{
  whole, cells, border_cells, whole-le, mul-le-mul, Built, border_map-Built,
}
use ndzip.Gpu.BorderMap.Reached.{reach_1, reach_2, reach_3}

pub volume-stride :
    (dims : ℕ) (size : Extent) (k : ℕ)
    → k ≤ dims
    → volume size (dims - k) * stride dims size k ≡ volume size dims
volume-stride dims size zero h = let e : dims - 0 ≡ dims = omega arith in rw e (omega arith)
volume-stride dims size (suc k) h =
    let e : dims - k ≡ suc (dims - 1 - k) = omega arith in
    let f : dims - suc k ≡ dims - 1 - k = omega arith in
    let ih = volume-stride dims size k (omega arith) in
    rw f (omega (arith, ih, ap (λ (t : ℕ). volume size t * stride dims size k) e))

module _ (dims side : ℕ) (size : Extent) (small : volume size dims < 2 ^ 32)
    (some_volume : 0 < volume size dims) where
  stride-le : (k : ℕ) → k ≤ dims → stride dims size k ≤ volume size dims
  stride-le k h =
      let all = volume-stride dims size k h in
      let some : 0 < volume size (dims - k) = grind arith in
      let once : 1 * stride dims size k ≤ volume size (dims - k) * stride dims size k =
        mul-le-mul_right (stride dims size k) some in
      omega arith

  border_cells-le : (d : ℕ) → border_cells dims side size d ≤ cells dims side size d
  border_cells-le zero = omega arith
  border_cells-le (suc d) = omega arith

  built : (m : BorderMap) → Built dims side size dims (border_map dims side size m)
  built =
      border_map-Built dims side size (λ d h. omega (arith, stride-le d h))
        (λ d h.
          let most =
            mul-le-mul (whole dims side size d) (size (dims - 1 - d))
              (border_cells dims side size d) (cells dims side size d) (whole-le dims side size d)
              (border_cells-le d) in
          omega (arith, stride-le (suc d) h))

  module _ (lo : 0 < dims) (m : BorderMap) where
    pub border_size-eq :
        border_size (border_map dims side size m) ≡ border_cells dims side size dims
    border_size-eq =
        let first : dims - 1 - (dims - 1) ≡ 0 = omega arith in
        let last : suc (dims - 1) ≡ dims = omega arith in
        ap (border_map dims side size m).border (sym first)
        ∙ (built m).border (dims - 1) (omega arith)
        ∙ ap (border_cells dims side size) last

    pub border_size-le : border_size (border_map dims side size m) ≤ volume size dims
    border_size-le =
        omega (arith, border_size-eq, border_cells-le dims, stride-le dims (omega arith))

module _ (side : ℕ) (size : Extent) (q : Extent) where
  -- The map has the position `q`.
  abbrev pub Located : ℕ → BorderMap → Type 0
  Located dims m =
      (i : ℕ) × (i < border_size m) × ((d : ℕ) → d < dims → border_position dims m i d ≡ q d)

  abbrev pub IsBehind : ℕ → Type 0
  IsBehind d = size d / side * side ≤ q d

  module _ (dims : ℕ) (small : volume size dims < 2 ^ 32)
      (within : (d : ℕ) → d < dims → q d < size d) (m : BorderMap) where
    positive : 0 < volume size dims
    positive = omega (arith, value-lt-volume dims size q dims within)

    few : (d : ℕ) → d < dims → size (dims - 1 - d) < 2 ^ 32
    few d h = omega (arith, component-le-volume size dims (dims - 1 - d) (omega arith) positive)

    inside : (d : ℕ) → d < dims → q (dims - 1 - d) < size (dims - 1 - d)
    inside d h = within (dims - 1 - d) (omega arith)

    made : Built dims side size dims (border_map dims side size m)
    made = built dims side size small positive m

  module _ (m : BorderMap) where
    one-Located :
        volume size 1 < 2 ^ 32
        → ((d : ℕ) → d < 1 → q d < size d)
        → IsBehind 0
        → Located 1 (border_map 1 side size m)
    unfolding border_position
    one-Located small within h =
        let b = made 1 small within m in
        let (i, hi, e) =
          reach_1 1 side size (border_map 1 side size m) b q (inside 1 small within m)
            (few 1 small within m) (omega arith) h in
        (
          i,
          subst (λ t. i < t) (sym (b.border 0 (omega arith))) hi,
          λ d hd. let z : d ≡ 0 = omega arith in rw z e,
        )

    two-Located :
        volume size 2 < 2 ^ 32
        → ((d : ℕ) → d < 2 → q d < size d)
        → IsBehind 1 ⊎ IsBehind 0
        → Located 2 (border_map 2 side size m)
    unfolding border_position
    two-Located small within h =
        let b = made 2 small within m in
        let (i, hi, e) =
          reach_2 2 side size (border_map 2 side size m) b q (inside 2 small within m)
            (few 2 small within m) (omega arith) h in
        (
          i,
          subst (λ t. i < t) (sym (b.border 1 (omega arith))) hi,
          λ d hd. elim (ℕ_discrete d 0) [
            | yes z ↦ rw z (ap (λ x. x.0) e)
            | no ne ↦ let z : d ≡ 1 = omega arith in rw z (ap (λ x. x.1) e)
          ],
        )

    three-Located :
        volume size 3 < 2 ^ 32
        → ((d : ℕ) → d < 3 → q d < size d)
        → IsBehind 2 ⊎ (IsBehind 1 ⊎ IsBehind 0)
        → Located 3 (border_map 3 side size m)
    unfolding border_position
    three-Located small within h =
        let b = made 3 small within m in
        let (i, hi, e) =
          reach_3 3 side size (border_map 3 side size m) b q (inside 3 small within m)
            (few 3 small within m) (omega arith) h in
        (
          i,
          subst (λ t. i < t) (sym (b.border 2 (omega arith))) hi,
          λ d hd. elim (ℕ_discrete d 0) [
            | yes z ↦ rw z (ap (λ x. x.0) e)
            | no ne ↦ elim (ℕ_discrete d 1) [
              | yes z ↦ rw z (ap (λ x. x.1) e)
              | no other ↦ let z : d ≡ 2 = omega arith in rw z (ap (λ x. x.2) e)
            ]
          ],
        )

    pub border_map-Located :
        (dims : ℕ)
        → 0 < dims
        → dims ≤ 3
        → volume size dims < 2 ^ 32
        → ((d : ℕ) → d < dims → q d < size d)
        → (e : ℕ) → e < dims
        → IsBehind e
        → Located dims (border_map dims side size m)
    border_map-Located zero lo hi small within e he h = absurd (let no : ⊥ = omega arith in no)
    border_map-Located (suc zero) lo hi small within e he h =
        let z : e ≡ 0 = omega arith in one-Located small within (subst IsBehind z h)
    border_map-Located (suc (suc zero)) lo hi small within e he h =
        two-Located small within (elim (ℕ_discrete e 0) [
          | yes z ↦ inr (subst IsBehind z h)
          | no ne ↦ let z : e ≡ 1 = omega arith in inl (subst IsBehind z h)
        ])
    border_map-Located (suc (suc (suc zero))) lo hi small within e he h =
        three-Located small within (elim (ℕ_discrete e 0) [
          | yes z ↦ inr (inr (subst IsBehind z h))
          | no ne ↦ elim (ℕ_discrete e 1) [
            | yes z ↦ inr (inl (subst IsBehind z h))
            | no other ↦ let z : e ≡ 2 = omega arith in inl (subst IsBehind z h)
          ]
        ])
    border_map-Located (suc (suc (suc (suc dims)))) lo hi small within e he h =
        absurd (let no : ⊥ = omega arith in no)
