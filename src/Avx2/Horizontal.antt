-- ===== src/Avx2/Horizontal.antt =====
-- The differences along a row, by registers.
use native.Mathlib.Nat.{div-add-mod'}
use ndzip.Base.{
  ℕ, zero, suc, ◌+◌, ◌-◌, ◌*◌, ◌/◌, ◌<◌, ◌≡◌, refl, ap, ◌∙◌, mul-add-lt, sym, subst, fun_ext, true,
  false, ◌&&◌, Bool-cases, inl, inr, ltb, leb, ◌==◌, if◌then◌else◌, arith, for_up, for_up_inv,
}
use ndzip.Word.{IsWord, sub}
use ndzip.Word.Laws.{sub_zero}
use ndzip.Transform.Axes.{Words, axis_difference}
use ndzip.Transform.Regions.{Done, Done-suc}
use ndzip.Memory.{Memory}
use ndzip.Avx2.Rounds.{pos-factor}
use ndzip.Avx2.Passes.{quotient-in}
use ndzip.Transform.Steps.{difference}
use ndzip.Transform.Cells.{cell, block, place, has_prev, prev_parts, cell_parts}
use ndzip.Avx2.{
  M256, words_per_256bit_lane, n_256bit_lanes, subtract_packed, load_256, store_aligned_256,
  horizontal_round, block_transform_horizontal_avx2,
}

module _ (w n p : ℕ) (x : Memory) where
  -- The word before the word `m` of the row.
  abbrev before : ℕ → ℕ
  before m = if m == 0 then 0 else x (p + m - 1)

  -- The array after the first `m` words are replaced.
  abbrev Replaced : ℕ → Memory → Type 0
  Replaced m y =
      (a : ℕ) → y a ≡ (if leb p a && ltb a (p + m) then sub w (x a) (before (a - p)) else x a)

  abbrev State : ℕ → Memory × M256 → Type 0
  State j t =
      Replaced (j * words_per_256bit_lane w) t.0
      × ((l : ℕ) → t.1 l ≡ before (j * words_per_256bit_lane w + l))

  -- One more register.
  Replaced-store :
      (m q : ℕ) (y : Memory) (v : M256)
      → q ≡ p + m
      → Replaced m y
      → ((l : ℕ) → v l ≡ before (m + l))
      → Replaced
          (m + words_per_256bit_lane w)
          (store_aligned_256 w q (subtract_packed w (load_256 y q) v) y)
  unfolding store_aligned_256
  Replaced-store m q y v e h held a =
      elim (Bool-cases (leb q a && ltb a (q + words_per_256bit_lane w))) [
        | inl here ↦
            let l = a - q in
            let same : q + l ≡ a = ground (arith, here) in
            let place : m + l ≡ a - p = ground (arith, here) in
            let old : y (q + l) ≡ x a = ap y same ∙ h a ∙ ground (arith, here) in
            rw here (
              ap (λ (t : ℕ). sub w t (v l)) old
              ∙ ap (sub w (x a)) (held l ∙ ap before place)
              ∙ ground (arith, here))
        | inr off ↦ rw off (h a ∙ ground (arith, off))
      ]

  State-suc :
      (j : ℕ) (t : Memory × M256)
      → 0 < words_per_256bit_lane w
      → State j t
      → State (suc j) (horizontal_round w p (0 + j * 1) t)
  unfolding horizontal_round
  State-suc j (y, top_n) some h =
      let m = j * words_per_256bit_lane w in
      let j' : 0 + j * 1 ≡ j = omega arith in
      let next : suc j * words_per_256bit_lane w ≡ m + words_per_256bit_lane w = omega arith in
      rw (j', next)
        (
          Replaced-store m (p + m) y top_n refl h.0 h.1,
          λ l.
              let q = p + (m + words_per_256bit_lane w + l) - 1 in
              let at : p + (j + 1) * words_per_256bit_lane w - 1 + l ≡ q = omega arith in
              ap y at ∙ h.0 q ∙ ground (arith, some),
        )

  setr-before :
      (l : ℕ) → (if l == 0 then 0 else x (p + (l - 1))) ≡ before (0 * words_per_256bit_lane w + l)
  setr-before l = at l ∙ ap before (let e : l ≡ 0 * words_per_256bit_lane w + l = omega arith in e)
    where
      at : (l : ℕ) → (if l == 0 then 0 else x (p + (l - 1))) ≡ before l
      at zero = refl
      at (suc l) =
          let ne : (suc l == 0) ≡ false = ground arith in
          rw ne (ap x (let e : p + (suc l - 1) ≡ p + suc l - 1 = omega arith in e))

  -- Every word of the row is replaced.
  block_transform_horizontal_avx2-Replaced :
      0 < n
      → n_256bit_lanes w n * words_per_256bit_lane w ≡ n
      → Replaced n (block_transform_horizontal_avx2 w n p x)
  unfolding block_transform_horizontal_avx2
  block_transform_horizontal_avx2-Replaced hn full =
      let lanes = n_256bit_lanes w n in
      let some = pos-factor lanes (words_per_256bit_lane w) (rw full hn) in
      let some_lane : 0 < lanes = grind (arith, full, hn) in
      let all : State (lanes - 1) (
          for_up 0 (lanes - 1) 1 (horizontal_round w p)
            (x, (λ l. if l == 0 then 0 else x (p + (l - 1))))) =
        for_up_inv State (lanes - 1) 0 (lanes - 1) 1 (horizontal_round w p) _ (omega arith)
          (omega arith) (λ j t lt h. State-suc j t some h) (λ a. ground arith, setr-before) in
      let size : (lanes - 1) * words_per_256bit_lane w + words_per_256bit_lane w ≡ n =
        (let e : lanes ≡ suc (lanes - 1) = omega arith in
          let f : (lanes - 1) * words_per_256bit_lane w + words_per_256bit_lane w
              ≡ suc (lanes - 1) * words_per_256bit_lane w =
            omega arith in
          f ∙ ap (λ (t : ℕ). t * words_per_256bit_lane w) (sym e) ∙ full) in
      subst (λ t. Replaced t (block_transform_horizontal_avx2 w n p x)) size
        (Replaced-store ((lanes - 1) * words_per_256bit_lane w)
          (p + (lanes - 1) * words_per_256bit_lane w) _ _ refl all.0 all.1)

-- The difference of the word `k`, of which the first is kept.
first_word :
    (w p : ℕ) (x : Memory)
    → IsWord w (x p)
    → (k a : ℕ) → p + k ≡ a
    → sub w (x a) (before w w p x k) ≡ (if ltb 0 k then difference w (x a) (x (a - 1)) 0 else x a)
first_word w p x word zero a e =
    let same : a ≡ p = omega (arith, e) in sub_zero w (x a) (rw same word)
first_word w p x word (suc k) a e =
    let some : (suc k == 0) ≡ false = ground arith in
    let more : ltb 0 (suc k) ≡ true = ground arith in
    rw (some, more)
      (ap (λ (t : ℕ). sub w (x a) (x t)) (let f : p + suc k - 1 ≡ a - 1 = omega (arith, e) in f))

-- A row that starts with a word: its cells get the difference to the cell before, if they have one.
pub horizontal-row :
    (w n i p : ℕ) (x : Memory) (hn : 0 < n)
    → n_256bit_lanes w n * words_per_256bit_lane w ≡ n
    → p ≡ cell n 1 i 0 0
    → IsWord w (x p)
    → (a : ℕ)
    → block_transform_horizontal_avx2 w n p x a
      ≡ (if block n 1 a == i && has_prev n 1 a then difference w (x a) (x (a - 1)) 0 else x a)
horizontal-row w n i p x hn full at word a =
    let start : p ≡ i * n = at ∙ omega arith in
    let here : a / 1 ≡ a = omega arith in
    let inside : (leb p a && ltb a (p + n)) ≡ (block n 1 a == i) =
      rw start (quotient-in n hn a i ∙ ap (λ (t : ℕ). t / n == i) (sym here)) in
    block_transform_horizontal_avx2-Replaced w n p x hn full a
    ∙ elim (Bool-cases (block n 1 a == i)) [
      | inl e ↦
          let row : block n 1 a ≡ i = ground (arith, e) in
          let offset : a - p ≡ place n 1 a =
            let parts = div-add-mod' (a / 1) n in
            let begins : block n 1 a * n ≡ i * n = ap (λ (t : ℕ). t * n) row in
            omega (arith, parts) in
          let same : p + place n 1 a ≡ a = ground (arith, inside, e, offset) in
          rw (inside, e, offset) (first_word w p x word (place n 1 a) a same)
      | inr e ↦ rw (inside, e) refl
    ]

-- Such rows one after the other.
pub horizontal_rows :
    (w n outer start limit step : ℕ) (at : ℕ → ℕ) (x : Memory) (hn : 0 < n)
    → n_256bit_lanes w n * words_per_256bit_lane w ≡ n
    → 0 < step
    → limit ≡ start + outer * step
    → ((i : ℕ) → at (start + i * step) ≡ cell n 1 i 0 0)
    → Words w (outer * n) x
    → for_up start limit step (λ i. block_transform_horizontal_avx2 w n (at i)) x
      ≡ axis_difference w n 1 outer x
unfolding axis_difference
horizontal_rows w n outer start limit step at x hn full pos count rows words = fun_ext (
    for_up_inv (Done 1 (has_prev n 1) (difference w) (block n 1) (λ a. true) x) outer start limit
      step (λ i. block_transform_horizontal_avx2 w n (at i)) x pos count
      (λ i y lt h.
        Done-suc 1 (has_prev n 1) (difference w) (block n 1) (λ a. true)
          (λ a prev. ground (arith, prev_parts n 1 a)) x y _ i
          (horizontal-row w n i _ y hn full (rows i) (word i y lt h)) h)
      (λ a. ground arith))
  where
    word :
        (i : ℕ) (y : Memory)
        → i < outer
        → Done 1 (has_prev n 1) (difference w) (block n 1) (λ a. true) x i y
        → IsWord w (y (at (start + i * step)))
    word i y lt h =
        let parts = cell_parts n 1 i 0 0 hn (omega arith) in
        let kept : y (cell n 1 i 0 0) ≡ x (cell n 1 i 0 0) =
          h (cell n 1 i 0 0) ∙ ground (arith, parts) in
        let below : cell n 1 i 0 0 < outer * n = omega (arith, mul-add-lt i 0 outer n lt hn) in
        rw (rows i, kept) (words (cell n 1 i 0 0) below)
