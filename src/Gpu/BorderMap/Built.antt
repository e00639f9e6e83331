-- ===== src/Gpu/BorderMap/Built.antt =====
-- What the constructor of `border_map` leaves in the members, without wrap-around.
use ndzip.Base.{
  ℕ, zero, suc, ◌+◌, ◌-◌, ◌*◌, ◌/◌, ◌^◌, ◌≤◌, ◌<◌, ◌≡◌, refl, ap, sym, ◌∙◌, arith, for_up_inv,
}
use native.Mathlib.Nat.{mod-eq_of_lt, div-mul-le_self, mul-le-mul_left, mul-le-mul_right}
use native.Mathlib.Decide.{ℕ_discrete}
use ndzip.Word.{u32, sub}
use ndzip.Memory.{update, update_self, update_ne}
use ndzip.Extent.{Extent}
use ndzip.Extent.Laws.{stride}
use ndzip.Gpu.BorderMap.{BorderMap, border_map, border_map_round}

-- A product that is not 0 and fits bounds each of its factors' products.
pub mul-le-mul : (a b c d : ℕ) → a ≤ b → c ≤ d → a * c ≤ b * d
mul-le-mul a b c d h k = omega (arith, mul-le-mul_right c h, mul-le-mul_left b k)

module _ (dims side : ℕ) (size : Extent) where
  -- The whole hypercubes' part of the dimension `d` from the end.
  abbrev pub whole : ℕ → ℕ
  whole d = size (dims - 1 - d) / side * side

  abbrev pub cells : ℕ → ℕ
  cells = stride dims size

  abbrev pub whole_cells : ℕ → ℕ
  whole_cells zero = 1
  whole_cells (suc d) = whole_cells d * whole d

  -- The cells of the border in the last `d` dimensions; with none, one cell.
  abbrev pub border_cells : ℕ → ℕ
  border_cells zero = 1
  border_cells (suc d) = cells (suc d) - whole_cells (suc d)

  pub whole-le : (d : ℕ) → whole d ≤ size (dims - 1 - d)
  whole-le d = div-mul-le_self (size (dims - 1 - d)) side

  pub whole_cells-le : (d : ℕ) → whole_cells d ≤ cells d
  whole_cells-le zero = omega arith
  whole_cells-le (suc d) =
      mul-le-mul (whole_cells d) (cells d) (whole d) (size (dims - 1 - d)) (whole_cells-le d)
        (whole-le d)

  -- The members after `k` rounds, in the last `k` dimensions.
  pub record Built (k : ℕ) (m : BorderMap) : Type 0 where
    pub inner : (d : ℕ) → d < k → m.inner (dims - 1 - d) ≡ whole d
    pub stride : (d : ℕ) → d < k → m.stride (dims - 1 - d) ≡ cells d
    pub edge : (d : ℕ) → d < k → m.edge (dims - 1 - d) ≡ whole d * border_cells d
    pub border : (d : ℕ) → d < k → m.border (dims - 1 - d) ≡ border_cells (suc d)

  module _ (small : (d : ℕ) → d ≤ dims → cells d < 2 ^ 32)
      (part : (d : ℕ) → d < dims → whole d * border_cells d < 2 ^ 32) where
    abbrev HasBuilt : ℕ → BorderMap × ℕ × ℕ × ℕ → Type 0
    HasBuilt k t = Built k t.0 × (t.1 ≡ cells k) × (t.2 ≡ whole_cells k) × (t.3 ≡ border_cells k)

    extended :
        (k v : ℕ) (x : Extent) (value : ℕ → ℕ)
        → k < dims
        → v ≡ value k
        → ((d : ℕ) → d < k → x (dims - 1 - d) ≡ value d)
        → (d : ℕ) → d < suc k
        → update x (dims - 1 - k) v (dims - 1 - d) ≡ value d
    extended k v x value hk e before d h = elim (ℕ_discrete d k) [
      | yes at ↦
          update_self x (dims - 1 - k) v (dims - 1 - d) (ap (λ c. dims - 1 - c) at)
          ∙ e
          ∙ ap value (sym at)
      | no ne ↦ update_ne x (dims - 1 - k) v (dims - 1 - d) (omega arith) ∙ before d (omega arith)
    ]

    border_map_round-HasBuilt :
        (k : ℕ) (t : BorderMap × ℕ × ℕ × ℕ)
        → k < dims
        → HasBuilt k t
        → HasBuilt (suc k) (border_map_round dims side size k t)
    unfolding border_map_round
    border_map_round-HasBuilt k (m, outer_acc, inner_acc, edge_acc) hk
          (built, e_outer, e_inner, e_edge) =
        let most = small (suc k) hk in
        let outer : u32 (outer_acc * size (dims - 1 - k)) ≡ cells (suc k) =
          ap (λ n. u32 (n * size (dims - 1 - k))) e_outer ∙ mod-eq_of_lt most in
        let inner : u32 (inner_acc * whole k) ≡ whole_cells (suc k) =
          ap (λ n. u32 (n * whole k)) e_inner
          ∙ mod-eq_of_lt (omega (arith, whole_cells-le (suc k))) in
        let edge : u32 (whole k * edge_acc) ≡ whole k * border_cells k =
          ap (λ n. u32 (whole k * n)) e_edge ∙ mod-eq_of_lt (part k hk) in
        let difference : sub 32 (cells (suc k)) (whole_cells (suc k)) ≡ border_cells (suc k) =
          omega (arith, whole_cells-le (suc k)) in
        let rest =
          ap (λ a. sub 32 a (u32 (inner_acc * whole k))) outer
          ∙ ap (sub 32 (cells (suc k))) inner
          ∙ difference in
        (
          record {
            inner = extended k (whole k) m.inner whole hk refl built.inner;
            stride = extended k outer_acc m.stride cells hk e_outer built.stride;
            edge = extended k _ m.edge (λ d. whole d * border_cells d) hk edge built.edge;
            border = extended k _ m.border (λ d. border_cells (suc d)) hk rest built.border;
          },
          outer,
          inner,
          rest,
        )

    pub border_map-Built : (m : BorderMap) → Built dims (border_map dims side size m)
    unfolding border_map
    border_map-Built m =
        (for_up_inv HasBuilt dims 0 dims 1 (border_map_round dims side size) (m, 1, 1, 1)
          (omega arith) (omega arith)
          (λ j t hj h.
            let e : 0 + j * 1 ≡ j = omega arith in rw e (border_map_round-HasBuilt j t hj h))
          (
            record {
              inner = λ d h. absurd (let no : ⊥ = omega arith in no);
              stride = λ d h. absurd (let no : ⊥ = omega arith in no);
              edge = λ d h. absurd (let no : ⊥ = omega arith in no);
              border = λ d h. absurd (let no : ⊥ = omega arith in no);
            },
            refl,
            refl,
            refl,
          )).0
