-- ===== src/Gpu/BorderMap/Count.antt =====
-- The size of the border map, and the number of border elements that the CPU encoder counts.
use ndzip.Base.{
  ℕ, zero, suc, ◌+◌, ◌-◌, ◌*◌, ◌/◌, ◌^◌, ◌<◌, ◌≡◌, refl, ap, sym, ◌∙◌, arith, for_up_inv,
  mod-mul-mod,
}
use native.Mathlib.Nat.{mul_comm}
use ndzip.Word.{u32, sub}
use ndzip.Extent.{Extent}
use ndzip.Extent.Laws.{volume, stride}
use ndzip.Border.{border_element_count}
use ndzip.Gpu.BorderMap.{BorderMap, border_map, border_size}
use ndzip.Gpu.BorderMap.Built.{cells, whole_cells, whole_cells-le, border_cells}
use ndzip.Gpu.BorderMap.Located.{volume-stride, border_size-eq}

u32_product : (a b : ℕ) → u32 (u32 a * u32 b) ≡ u32 (a * b)
u32_product a b =
    mod-mul-mod a (u32 b) (2 ^ 32)
    ∙ ap u32 (mul_comm a (u32 b))
    ∙ mod-mul-mod b a (2 ^ 32)
    ∙ ap u32 (mul_comm b a)

sub_cong : {a b c d : ℕ} → a ≡ b → c ≡ d → sub 32 a c ≡ sub 32 b d
sub_cong p q = rw (p, q) refl

stride-volume : (dims : ℕ) (size : Extent) → stride dims size dims ≡ volume size dims
stride-volume dims size =
    let none : dims - dims ≡ 0 = omega arith in
    let all = volume-stride dims size dims (omega arith) in
    omega (arith, all, ap (λ k. volume size k * stride dims size dims) none)

module _ (dims side : ℕ) (size : Extent) where
  -- The part of each dimension that hypercubes fill.
  abbrev filled : Extent
  filled d = size d / side * side

  whole_cells-stride : (k : ℕ) → whole_cells dims side size k ≡ stride dims filled k
  whole_cells-stride zero = refl
  whole_cells-stride (suc k) = ap (λ n. n * filled (dims - 1 - k)) (whole_cells-stride k)

  border_cells-eq :
      (k : ℕ)
      → 0 < k
      → border_cells dims side size k ≡ cells dims side size k - whole_cells dims side size k
  border_cells-eq zero h = absurd (let no : ⊥ = omega arith in no)
  border_cells-eq (suc k) h = refl

  border_element_count-eq :
      border_element_count dims size side
      ≡ sub 32 (u32 (volume size dims)) (u32 (volume filled dims))
  unfolding border_element_count
  border_element_count-eq =
      let counts =
        for_up_inv (λ c t. (t.0 ≡ u32 (volume filled c)) × (t.1 ≡ u32 (volume size c))) dims 0 dims
          1
          (λ d (n_cube_elems, n_all_elems).
            (u32 (n_cube_elems * u32 (size d / side * side)), u32 (n_all_elems * size d)))
          (1, 1) (omega arith) (omega arith)
          (λ c t hc (cubes, elements).
            let at : 0 + c * 1 ≡ c = omega arith in
            rw at (
              ap (λ n. u32 (n * u32 (filled c))) cubes ∙ u32_product (volume filled c) (filled c),
              ap (λ n. u32 (n * size c)) elements ∙ mod-mul-mod (volume size c) (size c) (2 ^ 32),
            ))
          (refl, refl) in
      sub_cong counts.1 counts.0

  -- For a grid of at least one dimension with some, and fewer than `2 ^ 32`, elements: the border
  -- map of the GPU encoders has as many elements as `border_element_count` counts, whatever its
  -- members held before.
  pub border_size-border_element_count :
      0 < dims
      → volume size dims < 2 ^ 32
      → 0 < volume size dims
      → (m : BorderMap)
      → border_size (border_map dims side size m) ≡ border_element_count dims size side
  border_size-border_element_count lo small some m =
      let most = whole_cells-le dims side size dims in
      let elements = stride-volume dims size in
      let cubes = whole_cells-stride dims ∙ stride-volume dims filled in
      border_size-eq dims side size small some lo m
      ∙ border_cells-eq dims lo
      ∙ (let e : cells dims side size dims - whole_cells dims side size dims
              ≡ sub 32 (u32 (volume size dims)) (u32 (volume filled dims)) =
            omega (arith, most, elements, cubes) in
          e)
      ∙ sym border_element_count-eq
