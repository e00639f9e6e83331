-- ===== src/Extent/Laws.antt =====
-- The linear index of a position, as the value of its components in mixed radix.
use native.Mathlib.Nat.{mod-eq_of_lt, mul-le-mul_right}
use ndzip.Base.{
  ℕ, zero, suc, ◌+◌, ◌-◌, ◌*◌, ◌^◌, ◌≤◌, ◌<◌, ◌≡◌, refl, ap, ◌∙◌, sym, arith, for_up, for_up_inv,
  mod-mul-mod, mul-add-lt,
}
use ndzip.Word.{u32}
use ndzip.Extent.{Extent, num_elements, offset_round, linear_offset, linear_index}

-- The number of positions with `k` components, and the value of the first `k` components of `pos`.
abbrev pub volume : Extent → ℕ → ℕ
volume size zero = 1
volume size (suc k) = volume size k * size k

abbrev pub value : Extent → Extent → ℕ → ℕ
value size pos zero = 0
value size pos (suc k) = value size pos k * size k + pos k

-- The stride and the offset that `linear_offset` has for the last `k` of `dims` components.
abbrev pub stride : ℕ → Extent → ℕ → ℕ
stride dims size zero = 1
stride dims size (suc k) = stride dims size k * size (dims - 1 - k)

abbrev pub tail_value : ℕ → Extent → Extent → ℕ → ℕ
tail_value dims size pos zero = 0
tail_value dims size pos (suc k) =
    tail_value dims size pos k + stride dims size k * pos (dims - 1 - k)

-- Splitting the components anywhere gives the value of all.
pub value_split :
    (dims : ℕ) (size pos : Extent) (k : ℕ)
    → k ≤ dims
    → value size pos (dims - k) * stride dims size k + tail_value dims size pos k
      ≡ value size pos dims
value_split dims size pos zero h = let e : dims - 0 ≡ dims = omega arith in rw e (omega arith)
value_split dims size pos (suc k) h =
    let e : dims - k ≡ suc (dims - 1 - k) = omega arith in
    let f : dims - suc k ≡ dims - 1 - k = omega arith in
    let ih = value_split dims size pos k (omega arith) in
    rw f (omega (arith, ih, ap (λ (t : ℕ). value size pos t * stride dims size k) e))

-- A product and a sum of residues.
mul_u32 : (a b : ℕ) → u32 (u32 a * b) ≡ u32 (a * b)
mul_u32 a b = mod-mul-mod a b (2 ^ 32)

module _ (dims : ℕ) (size pos : Extent) where
  linear_index-round :
      (c l : ℕ)
      → l ≡ u32 (value size pos (suc c))
      → u32 (u32 (l * size (suc c)) + pos (suc c)) ≡ u32 (value size pos (suc (suc c)))
  linear_index-round c l e = rw e (omega (arith, mul_u32 (value size pos (suc c)) (size (suc c))))

  -- `linear_index` is the value of the position, in 32 bits.
  pub linear_index-eq :
      0 < dims → pos 0 < 2 ^ 32 → linear_index dims size pos ≡ u32 (value size pos dims)
  unfolding linear_index
  linear_index-eq hd h =
      let all : for_up 1 dims 1 (λ d l. u32 (u32 (l * size d) + pos d)) (pos 0)
          ≡ u32 (value size pos (suc (dims - 1))) =
        for_up_inv (λ c l. l ≡ u32 (value size pos (suc c))) (dims - 1) 1 dims 1 _ (pos 0)
          (omega arith) (omega arith)
          (λ c l hc e. let at : 1 + c * 1 ≡ suc c = omega arith in rw at (linear_index-round c l e))
          (omega (arith, mod-eq_of_lt h)) in
      all
      ∙ ap (λ (t : ℕ). u32 (value size pos t)) (let e : suc (dims - 1) ≡ dims = omega arith in e)

  -- The loop's variables after `c` rounds.
  OffsetUpTo : ℕ → ℕ × ℕ → Type 0
  OffsetUpTo c t = (t.0 ≡ u32 (tail_value dims size pos c)) × (t.1 ≡ u32 (stride dims size c))

  OffsetUpTo-suc :
      (c : ℕ) (t : ℕ × ℕ) → OffsetUpTo c t → OffsetUpTo (suc c) (offset_round dims pos size c t)
  unfolding OffsetUpTo offset_round
  OffsetUpTo-suc c (offset, s) (o, e) =
      let d = dims - 1 - c in
      (
        rw (o, e) (omega (arith, mul_u32 (stride dims size c) (pos d))),
        rw e (mul_u32 (stride dims size c) (size d)),
      )

  -- `linear_offset` is the same value.
  pub linear_offset-eq : linear_offset dims pos size ≡ u32 (value size pos dims)
  unfolding linear_offset OffsetUpTo
  linear_offset-eq =
      let all : OffsetUpTo dims (for_up 0 dims 1 (offset_round dims pos size) (0, 1)) =
        for_up_inv OffsetUpTo dims 0 dims 1 (offset_round dims pos size) (0, 1) (omega arith)
          (omega arith)
          (λ c t hc h. let at : 0 + c * 1 ≡ c = omega arith in rw at (OffsetUpTo-suc c t h))
          (refl, refl) in
      let none : dims - dims ≡ 0 = omega arith in
      all.0
      ∙ ap u32 (
          omega (
            arith,
            value_split dims size pos dims (omega arith),
            ap (λ (t : ℕ). value size pos t * stride dims size dims) none,
          ))

  -- With at least one component and a first component below `2 ^ 32`, both index computations give
  -- the same number, wrap-around included.
  pub linear_offset-eq-linear_index :
      0 < dims → pos 0 < 2 ^ 32 → linear_offset dims pos size ≡ linear_index dims size pos
  linear_offset-eq-linear_index hd h = linear_offset-eq ∙ sym (linear_index-eq hd h)

  -- `num_elements` is the number of positions, in 32 bits.
  pub num_elements-eq : num_elements dims size ≡ u32 (volume size dims)
  unfolding num_elements
  num_elements-eq =
      for_up_inv (λ c n. n ≡ u32 (volume size c)) dims 0 dims 1 (λ d n. u32 (n * size d)) 1
        (omega arith) (omega arith)
        (λ c n hc e.
          let at : 0 + c * 1 ≡ c = omega arith in rw at (rw e (mul_u32 (volume size c) (size c))))
        refl

  -- A position within an extent has a value below the extent's volume.
  pub value-lt-volume :
      (k : ℕ) → ((d : ℕ) → d < k → pos d < size d) → value size pos k < volume size k
  value-lt-volume zero h = omega arith
  value-lt-volume (suc k) h =
      mul-add-lt (value size pos k) (pos k) (volume size k) (size k)
        (value-lt-volume k (λ d lt. h d (omega arith))) (h k (omega arith))

-- Extents that are no larger have no more positions.
pub volume-le :
    (small large : Extent) (m : ℕ)
    → ((d : ℕ) → d < m → small d ≤ large d)
    → volume small m ≤ volume large m
volume-le small large zero h = omega arith
volume-le small large (suc m) h =
    let a : volume small m * small m ≤ volume large m * small m =
      mul-le-mul_right (small m) (volume-le small large m (λ d lt. h d (omega arith))) in
    let b : small m * volume large m ≤ large m * volume large m =
      mul-le-mul_right (volume large m) (h m (omega arith)) in
    omega arith
