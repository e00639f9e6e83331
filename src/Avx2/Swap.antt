-- ===== src/Avx2/Swap.antt =====
-- Differences along two axes of a grid, in either order.
use native.Mathlib.Nat.{
  mod-le, le-div_iff_mul-le, div-div-eq-div-mul, add-mul-div_right, add-mul-mod_self_right,
  div-lt_iff_lt-mul,
}
use ndzip.Base.{
  ℕ, ◌+◌, ◌-◌, ◌*◌, ◌/◌, ◌%◌, ◌≤◌, ◌<◌, ◌≡◌, refl, ap, ◌∙◌, sym, fun_ext, Bool, lt→ltb, true, false,
  ◌&&◌, ltb, if◌then◌else◌, arith,
}
use ndzip.Word.{IsWord, sub}
use ndzip.Word.Laws.{sub-sub}
use ndzip.Memory.{Memory}
use ndzip.Transform.Cells.{block, place, has_prev, prev_parts}
use ndzip.Transform.Axes.{Words, axis_difference, inside}

-- One cell, of which `A` and `B` tell whether it has a neighbour on either axis, and `A'` and `B'`
-- whether the neighbours do.
swap_cell :
    (w : ℕ) (A A' B B' : Bool) (x y z t t' : ℕ)
    → (A ≡ true → B' ≡ B)
    → (B ≡ true → A' ≡ A)
    → t' ≡ t
    → (A ≡ true → B ≡ true → IsWord w y × IsWord w z × IsWord w t)
    → (if A
        then sub w (if B then sub w x z else x) (if B' then sub w y t else y)
        else (if B then sub w x z else x))
      ≡ (if B
          then sub w (if A then sub w x y else x) (if A' then sub w z t' else z)
          else (if A then sub w x y else x))
swap_cell w true A' true B' x y z t t' p q e words =
    let (hy, hz, ht) = words refl refl in rw (p refl, q refl, e) (sub-sub w x z y t hz hy ht)
swap_cell w true A' false B' x y z t t' p q e words = rw (p refl) refl
swap_cell w false A' true B' x y z t t' p q e words = rw (q refl) refl
swap_cell w false A' false B' x y z t t' p q e words = refl

-- The inner axis has stride `s`, the outer axis stride `n * t * s`.
module _ (w n s t outer outer' : ℕ) (hn : 0 < n) (hs : 0 < s) (ht : 0 < t)
    (same : outer * (n * s) ≡ outer' * (n * (n * t * s))) where
  abbrev s' : ℕ
  s' = n * t * s

  abbrev inner : ℕ → Bool
  inner a = ltb (block n s a) outer && has_prev n s a

  abbrev far : ℕ → Bool
  far a = ltb (block n s' a) outer' && has_prev n s' a

  stride-pos : 0 < s'
  stride-pos = grind arith

  row_number : (a : ℕ) → a / s' ≡ block n s a / t
  row_number a =
      ap (λ (d : ℕ). a / d) (let e : n * t * s ≡ s * n * t = omega arith in e)
      ∙ sym (
          div-div-eq-div-mul (a / s) n t
          ∙ div-div-eq-div-mul a s (n * t)
          ∙ ap (λ (d : ℕ). a / d) (let e : s * (n * t) ≡ s * n * t = omega arith in e))

  -- A neighbour on the inner axis stands in the same row of the outer axis.
  far_same : (a : ℕ) → inner a ≡ true → far (a - s) ≡ far a
  far_same a h =
      let parts = prev_parts n s a hs hn (ground (arith, h)) in
      let row : (a - s) / s' ≡ a / s' =
        row_number (a - s) ∙ ap (λ (b : ℕ). b / t) parts.0 ∙ sym (row_number a) in
      ap (λ (q : ℕ). ltb (q / n) outer' && ltb 0 (q % n)) row

  in_grid : (a : ℕ) → a < outer' * (n * s') → block n s a < outer
  in_grid a lt =
      let below : a < outer * n * s =
        (let e : outer * n * s ≡ outer * (n * s) = omega arith in rw (e, same) lt) in
      (div-lt_iff_lt-mul hn).1 ((div-lt_iff_lt-mul hs).1 below)

  -- A neighbour on the outer axis stands at the same place of the inner axis.
  inner_same : (a : ℕ) → far a ≡ true → inner (a - s') ≡ inner a
  inner_same a h =
      let parts = prev_parts n s' a stride-pos hn (ground (arith, h)) in
      let b = a - s' in
      let sum : b + n * t * s ≡ a =
        (let some : 0 < a / s' =
            omega (arith, mod-le (a / s') n, (let p : 0 < place n s' a = ground (arith, h) in p)) in
          let enough : 1 * s' ≤ a =
            (le-div_iff_mul-le {k = s'} {x = 1} {y = a} stride-pos).0 some in
          omega (arith, enough)) in
      let row : b / s + n * t ≡ a / s =
        sym (add-mul-div_right b (n * t) {z = s} hs) ∙ ap (λ (c : ℕ). c / s) sum in
      let turns : b / s + t * n ≡ a / s = omega (arith, row) in
      let placed : place n s b ≡ place n s a =
        sym (add-mul-mod_self_right (b / s) t n) ∙ ap (λ (c : ℕ). c % n) turns in
      let here = in_grid a (inside w n s' outer' hn stride-pos a (ground (arith, h))) in
      let before = in_grid b (
        let lt : b < outer' * (n * s') =
          omega (arith, parts.3, inside w n s' outer' hn stride-pos a (ground (arith, h))) in
        lt) in
      rw (placed, lt→ltb (block n s a) outer here, lt→ltb (block n s b) outer before) refl

  pub axis_difference_swap :
      (x : Memory)
      → Words w (outer * (n * s)) x
      → axis_difference w n s outer (axis_difference w n s' outer' x)
        ≡ axis_difference w n s' outer' (axis_difference w n s outer x)
  unfolding axis_difference
  axis_difference_swap x words = fun_ext λ a.
      swap_cell w (inner a) (inner (a - s')) (far a) (far (a - s)) (x a) (x (a - s)) (x (a - s'))
        (x (a - s - s')) (x (a - s' - s)) (far_same a) (inner_same a)
        (ap x (let e : a - s' - s ≡ a - s - s' = omega arith in e))
        (λ here there.
          let lt = inside w n s outer hn hs a (ground (arith, here)) in
          (
            words (a - s) (omega (arith, lt)),
            words (a - s') (omega (arith, lt)),
            words (a - s - s') (omega (arith, lt)),
          ))

-- With the outer stride given by its value.
pub axis_swap :
    (w n s s' t outer outer' : ℕ)
    → 0 < n
    → 0 < s
    → 0 < t
    → s' ≡ n * t * s
    → outer * (n * s) ≡ outer' * (n * s')
    → (x : Memory) → Words w (outer * (n * s)) x
    → axis_difference w n s outer (axis_difference w n s' outer' x)
      ≡ axis_difference w n s' outer' (axis_difference w n s outer x)
axis_swap w n s s' t outer outer' hn hs ht stride same x words = rw stride (
    axis_difference_swap w n s t outer outer' hn hs ht
      (same ∙ ap (λ (d : ℕ). outer' * (n * d)) stride) x words)
