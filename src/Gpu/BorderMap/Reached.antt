-- ===== src/Gpu/BorderMap/Reached.antt =====
-- Every position of the border is `border_map[i]` for some `i`.
use ndzip.Base.{
  ℕ, suc, ◌+◌, ◌-◌, ◌*◌, ◌/◌, ◌%◌, ◌^◌, ◌≤◌, ◌<◌, ◌≡◌, ◌⊎◌, inl, inr, refl, ap, sym, ◌∙◌, subst,
  arith, leb, le→leb, lt→leb, true, false, div-mul-add, mod-mul-add,
}
use native.Mathlib.Nat.{mod-eq_of_lt, mul-le-mul_right}
use native.Mathlib.Decide.{dec_lt}
use ndzip.Word.{u32}
use ndzip.Extent.{Extent}
use ndzip.Gpu.BorderMap.{BorderMap, index_1, index_2, index_3}
use ndzip.Gpu.BorderMap.Built.{
  whole, cells, whole_cells, border_cells, whole-le, whole_cells-le, Built,
}

sums : (a b c : ℕ) → a * (b + c) ≡ a * b + a * c
sums a b c = omega arith

-- The border of `s` slices of `c` cells, the first `n` of which have `i` cells in hypercubes.
border-split : (s n c i : ℕ) → n ≤ s → i ≤ c → c * s - i * n ≡ n * (c - i) + (s - n) * c
border-split s n c i hn hi =
    let all : s ≡ n + (s - n) = omega arith in
    let each : c ≡ i + (c - i) = omega arith in
    let top : c * s ≡ c * n + c * (s - n) = ap (λ t. c * t) all ∙ sums c n (s - n) in
    let bottom : n * c ≡ n * i + n * (c - i) = ap (λ t. n * t) each ∙ sums n i (c - i) in
    omega (arith, top, bottom)

-- The index of an element of one of the whole slices behind the hypercubes.
module _ (n b c s p r : ℕ) (lo : n ≤ p) (hi : p < s) (hr : r < c) where
  behind :
      (i : ℕ) × (i < n * b + (s - n) * c)
      × (leb (n * b) i ≡ true)
      × (n + (i - n * b) / c ≡ p)
      × ((i - n * b) % c ≡ r)
  behind =
      let i = n * b + ((p - n) * c + r) in
      let rest : i - n * b ≡ (p - n) * c + r = omega arith in
      let next : suc (p - n) * c ≤ (s - n) * c = mul-le-mul_right c (omega arith) in
      let room : suc (p - n) * c ≡ (p - n) * c + c = omega arith in
      let whole : n + (p - n) ≡ p = omega arith in
      (
        i,
        omega arith,
        le→leb (n * b) i (omega arith),
        ap (λ t. n + t / c) rest ∙ ap (λ t. n + t) (div-mul-add (p - n) r c hr) ∙ whole,
        ap (λ t. t % c) rest ∙ mod-mul-add (p - n) r c hr,
      )

-- The index of an element of the border within a slice.
module _ (n b p j rest : ℕ) (hp : p < n) (hj : j < b) where
  beside : (i : ℕ) × (i < n * b + rest) × (leb (n * b) i ≡ false) × (i / b ≡ p) × (i % b ≡ j)
  beside =
      let next : suc p * b ≤ n * b = mul-le-mul_right b hp in
      (
        p * b + j,
        omega arith,
        lt→leb (n * b) (p * b + j) (omega arith),
        div-mul-add p j b hj,
        mod-mul-add p j b hj,
      )

module _ (dims side : ℕ) (size : Extent) (m : BorderMap) (built : Built dims side size dims m)
    (q : Extent) (within : (d : ℕ) → d < dims → q (dims - 1 - d) < size (dims - 1 - d))
    (few : (d : ℕ) → d < dims → size (dims - 1 - d) < 2 ^ 32) where
  abbrev n : ℕ → ℕ
  n = whole dims side size

  abbrev b : ℕ → ℕ
  b = border_cells dims side size

  abbrev c : ℕ → ℕ
  c = cells dims side size

  -- The components from the end.
  abbrev p : ℕ → ℕ
  p d = q (dims - 1 - d)

  abbrev s : ℕ → ℕ
  s d = size (dims - 1 - d)

  border_cells-suc :
      (d : ℕ) → b (suc d) ≡ n d * (c d - whole_cells dims side size d) + (s d - n d) * c d
  border_cells-suc d =
      border-split (s d) (n d) (c d) (whole_cells dims side size d) (whole-le dims side size d)
        (whole_cells-le dims side size d)

  pub reach_1 : 0 < dims → n 0 ≤ p 0 → (i : ℕ) × (i < b 1) × (index_1 dims m i ≡ p 0)
  reach_1 hd lo =
      let first : dims - 1 - 0 ≡ dims - 1 = omega arith in
      let edge : m.edge (dims - 1) ≡ n 0 * 1 = ap m.edge (sym first) ∙ built.edge 0 hd in
      let here = within 0 hd in
      (
        p 0 - n 0,
        omega arith,
        ap (λ e. u32 (e + (p 0 - n 0))) edge
            ∙ (let e : u32 (n 0 * 1 + (p 0 - n 0)) ≡ p 0 = omega (arith, few 0 hd) in e),
      )

  fit : (d : ℕ) → d < dims → u32 (p d) ≡ p d
  fit d h = mod-eq_of_lt (omega (arith, few d h, within d h))

  -- A border position in the last dimension, or in that before it.
  pub reach_2 :
      1 < dims → (n 0 ≤ p 0) ⊎ (n 1 ≤ p 1) → (i : ℕ) × (i < b 2) × (index_2 dims m i ≡ (p 1, p 0))
  unfolding behind beside
  reach_2 hd some_behind =
      let at : dims - 2 ≡ dims - 1 - 1 = omega arith in
      let last : dims - 1 ≡ dims - 1 - 0 = omega arith in
      let edge : m.edge (dims - 2) ≡ n 1 * b 1 = ap m.edge at ∙ built.edge 1 hd in
      let inner : m.inner (dims - 2) ≡ n 1 = ap m.inner at ∙ built.inner 1 hd in
      let row : m.stride (dims - 2) ≡ c 1 = ap m.stride at ∙ built.stride 1 hd in
      let border : m.border (dims - 1) ≡ b 1 = ap m.border last ∙ built.border 0 (omega arith) in
      let cell : p 0 < c 1 = let h = within 0 (omega arith) in omega arith in
      elim (dec_lt (p 1) (n 1)) [
        | yes inside ↦
            let in_row : n 0 ≤ p 0 = elim some_behind [
              | inl h ↦ h
              | inr h ↦ absurd (let no : ⊥ = omega arith in no)
            ] in
            let (j, hj, e) = reach_1 (omega arith) in_row in
            let (i, hi, test, quotient, remainder) =
              beside (n 1) (b 1) (p 1) j ((s 1 - n 1) * c 1) inside hj in
            (
              i,
              subst (λ t. i < t) (sym (border_cells-suc 1)) hi,
              rw (edge, border, test, quotient, remainder, e) refl,
            )
        | no ge ↦
            let (i, hi, test, quotient, remainder) =
              behind (n 1) (b 1) (c 1) (s 1) (p 1) (p 0) (omega arith) (within 1 hd) cell in
            (
              i,
              subst (λ t. i < t) (sym (border_cells-suc 1)) hi,
              rw (edge, inner, row, test, quotient, remainder, fit 1 hd) refl,
            )
      ]

  -- And in three dimensions.
  pub reach_3 :
      2 < dims
      → (n 0 ≤ p 0) ⊎ ((n 1 ≤ p 1) ⊎ (n 2 ≤ p 2))
      → (i : ℕ) × (i < b 3) × (index_3 dims m i ≡ (p 2, p 1, p 0))
  unfolding behind beside
  reach_3 hd some_behind =
      let at : dims - 3 ≡ dims - 1 - 2 = omega arith in
      let before : dims - 2 ≡ dims - 1 - 1 = omega arith in
      let edge : m.edge (dims - 3) ≡ n 2 * b 2 = ap m.edge at ∙ built.edge 2 hd in
      let inner : m.inner (dims - 3) ≡ n 2 = ap m.inner at ∙ built.inner 2 hd in
      let plane : m.stride (dims - 3) ≡ c 2 = ap m.stride at ∙ built.stride 2 hd in
      let row : m.stride (dims - 2) ≡ c 1 = ap m.stride before ∙ built.stride 1 (omega arith) in
      let border : m.border (dims - 2) ≡ b 2 = ap m.border before ∙ built.border 1 (omega arith) in
      let in_row : p 0 < c 1 = let h = within 0 (omega arith) in omega arith in
      let rows : suc (p 1) * c 1 ≤ s 1 * c 1 = mul-le-mul_right (c 1) (within 1 (omega arith)) in
      let cell : p 1 * c 1 + p 0 < c 2 = omega arith in
      let y : (p 1 * c 1 + p 0) / c 1 ≡ p 1 = div-mul-add (p 1) (p 0) (c 1) in_row in
      let x : (p 1 * c 1 + p 0) % c 1 ≡ p 0 = mod-mul-add (p 1) (p 0) (c 1) in_row in
      elim (dec_lt (p 2) (n 2)) [
        | yes inside ↦
            let in_plane : (n 0 ≤ p 0) ⊎ (n 1 ≤ p 1) = elim some_behind [
              | inl h ↦ inl h
              | inr (inl h) ↦ inr h
              | inr (inr h) ↦ absurd (let no : ⊥ = omega arith in no)
            ] in
            let (j, hj, e) = reach_2 (omega arith) in_plane in
            let (i, hi, test, quotient, remainder) =
              beside (n 2) (b 2) (p 2) j ((s 2 - n 2) * c 2) inside hj in
            (
              i,
              subst (λ t. i < t) (sym (border_cells-suc 2)) hi,
              rw (edge, border, test, quotient, remainder, e) refl,
            )
        | no ge ↦
            let (i, hi, test, quotient, remainder) =
              behind (n 2) (b 2) (c 2) (s 2) (p 2) (p 1 * c 1 + p 0) (omega arith) (within 2 hd)
                cell in
            (
              i,
              subst (λ t. i < t) (sym (border_cells-suc 2)) hi,
              rw (edge, inner, plane, row, test, quotient, remainder, y, x, fit 2 hd) refl,
            )
      ]
