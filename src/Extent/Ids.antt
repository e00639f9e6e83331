-- ===== src/Extent/Ids.antt =====
-- `extent_from_linear_id` finds the position of a linear index.
use native.Mathlib.Nat.{mod-lt, mod-eq_of_lt, div-add-mod', div-lt_iff_lt-mul}
use native.Mathlib.Decide.{ℕ_discrete}
use ndzip.Base.{
  ℕ, zero, suc, ◌+◌, ◌-◌, ◌*◌, ◌%◌, ◌^◌, ◌≤◌, ◌<◌, ◌≡◌, refl, ap, ◌∙◌, arith, for_up, for_up_inv,
}
use ndzip.Word.{u32}
use ndzip.Memory.{update, update_self, update_ne}
use ndzip.Extent.{Extent, linear_index, id_round, extent_from_linear_id}
use ndzip.Extent.Laws.{
  volume, value, stride, tail_value, value_split, linear_index-eq, value-lt-volume,
}

tail_value-update :
    (dims : ℕ) (size pos : Extent) (v c k : ℕ)
    → c < dims
    → k ≤ c
    → tail_value dims size (update pos (dims - 1 - c) v) k ≡ tail_value dims size pos k
tail_value-update dims size pos v c zero hc hk = refl
tail_value-update dims size pos v c (suc k) hc hk =
    rw (update_ne pos (dims - 1 - c) v (dims - 1 - k) (omega arith))
      (omega (arith, tail_value-update dims size pos v c k hc (omega arith)))

-- No component of an extent exceeds a volume that is not 0.
pub component-le-volume :
    (size : Extent) (k d : ℕ) → d < k → 0 < volume size k → size d ≤ volume size k
component-le-volume size zero d h pos = absurd (omega arith)
component-le-volume size (suc k) d h pos =
    let both : (0 < volume size k) × (0 < size k) = (grind arith, grind arith) in
    elim (ℕ_discrete d k) [
      | yes e ↦ rw e (grind arith)
      | no ne ↦ let ih = component-le-volume size k d (omega arith) both.0 in grind arith
    ]

first-lt :
    (dims : ℕ) (size pos : Extent)
    → 0 < dims
    → volume size dims ≤ 2 ^ 32
    → ((d : ℕ) → d < dims → pos d < size d)
    → pos 0 < 2 ^ 32
first-lt dims size pos hd fits within =
    let some_volume : 0 < volume size dims =
      omega (arith, value-lt-volume dims size pos dims within) in
    omega (arith, within 0 hd, component-le-volume size dims 0 hd some_volume)

module _ (dims id : ℕ) (size : Extent) where
  -- The loop's variables after `c` rounds.
  record IdUpTo (c : ℕ) (t : Extent × ℕ) : Type 0 where
    splits : t.1 * stride dims size c + tail_value dims size t.0 c ≡ id
    below : (d : ℕ) → dims - c ≤ d → d < dims → t.0 d < size d
    rest : t.1 < volume size (dims - c)

  IdUpTo-suc :
      (c : ℕ) (t : Extent × ℕ) → c < dims → IdUpTo c t → IdUpTo (suc c) (id_round dims size c t)
  unfolding id_round
  IdUpTo-suc c (ext, r) hc h =
      let d = dims - 1 - c in
      let e : dims - c ≡ suc d = omega arith in
      let f : dims - suc c ≡ d = omega arith in
      let room : r < volume size d * size d = rw e at (h.rest) in
      let pos : 0 < size d = grind arith in
      let self = update_self ext d (r % size d) d refl in
      record {
        splits =
            rw (self, tail_value-update dims size ext (r % size d) c c hc (omega arith))
              (omega (
                arith,
                h.splits,
                ap (λ (t : ℕ). t * stride dims size c) (div-add-mod' r (size d)),
              ));
        below = λ k lo hi. elim (ℕ_discrete k d) [
          | yes here ↦ rw (here, self) (mod-lt r pos)
          | no ne ↦ rw (update_ne ext d (r % size d) k ne) (h.below k (omega arith) hi)
        ];
        rest = rw f ((div-lt_iff_lt-mul pos).1 room);
      }

  module _ (hd : 0 < dims) (fits : volume size dims ≤ 2 ^ 32) (hid : id < volume size dims) where
    found : IdUpTo dims (for_up 0 dims 1 (id_round dims size) ((λ d. 0), id))
    found =
        for_up_inv IdUpTo dims 0 dims 1 (id_round dims size) ((λ d. 0), id) (omega arith)
          (omega arith)
          (λ c t hc h. let at : 0 + c * 1 ≡ c = omega arith in rw at (IdUpTo-suc c t hc h))
          (record {
            splits = omega arith;
            below = λ d lo hi. absurd (omega arith);
            rest = let e : dims - 0 ≡ dims = omega arith in rw e hid;
          })

    -- The position lies within the extent.
    pub extent_from_linear_id-lt :
        (d : ℕ) → d < dims → extent_from_linear_id dims id size d < size d
    unfolding extent_from_linear_id
    extent_from_linear_id-lt d h = found.below d (omega arith) h

    pub value-extent_from_linear_id : value size (extent_from_linear_id dims id size) dims ≡ id
    unfolding extent_from_linear_id
    value-extent_from_linear_id =
        let t = for_up 0 dims 1 (id_round dims size) ((λ d. 0), id) in
        let none : dims - dims ≡ 0 = omega arith in
        let last : t.1 < 1 = rw none at (found.rest) in
        let zero_rest : t.1 ≡ 0 = omega arith in
        let splits : t.1 * stride dims size dims + tail_value dims size t.0 dims ≡ id =
          found.splits in
        let tail : tail_value dims size t.0 dims ≡ id =
          omega (arith, splits, ap (λ (r : ℕ). r * stride dims size dims) zero_rest) in
        omega (
          arith,
          tail,
          value_split dims size t.0 dims (omega arith),
          ap (λ (k : ℕ). value size t.0 k * stride dims size dims) none,
        )

    -- In an extent of at least one component and of at most `2 ^ 32` cells, the position found from
    -- a number below the number of cells has that number as its linear index.
    pub linear_index-extent_from_linear_id :
        linear_index dims size (extent_from_linear_id dims id size) ≡ id
    linear_index-extent_from_linear_id =
        let pos = extent_from_linear_id dims id size in
        let small : pos 0 < 2 ^ 32 = first-lt dims size pos hd fits extent_from_linear_id-lt in
        linear_index-eq dims size pos hd small
        ∙ ap u32 value-extent_from_linear_id
        ∙ mod-eq_of_lt (omega arith)

-- The linear index of a position within an extent of fewer than `2 ^ 32` cells is its value.
pub linear_index-value :
    (dims : ℕ) (size pos : Extent)
    → 0 < dims
    → volume size dims < 2 ^ 32
    → ((d : ℕ) → d < dims → pos d < size d)
    → linear_index dims size pos ≡ value size pos dims
linear_index-value dims size pos hd fits within =
    linear_index-eq dims size pos hd (first-lt dims size pos hd (omega arith) within)
    ∙ mod-eq_of_lt (omega (arith, value-lt-volume dims size pos dims within))
