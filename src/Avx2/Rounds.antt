-- ===== src/Avx2/Rounds.antt =====
-- One round of a vertical pass, which loads, combines and stores a row, as cells of the row.
use native.Mathlib.Nat.{div-add-mod', div-lt_iff_lt-mul}
use ndzip.Base.{
  ℕ, suc, ◌+◌, ◌-◌, ◌*◌, ◌/◌, ◌%◌, ◌≤◌, ◌<◌, ◌≡◌, refl, ap, ◌∙◌, sym, inl, inr, Bool-cases, true,
  false, ◌&&◌, ltb, leb, if◌then◌else◌, arith, for_up, for_up_inv,
}
use ndzip.Word.{add, sub}
use ndzip.Word.Laws.{add_comm}
use ndzip.Memory.{Memory}
use ndzip.Transform.Cells.{cell, has_prev}
use ndzip.Transform.Regions.{Combines}
use ndzip.Transform.Steps.{difference, running_sum}
use ndzip.Avx2.{
  M256, words_per_256bit_lane, n_256bit_lanes, add_packed, subtract_packed, load_256, load_lanes,
  store_lanes, difference_lanes, sum_lanes, set_lane,
}
use ndzip.Avx2.Cells.{on_lines, in_row}
use ndzip.Avx2.Columns.{
  set_loop, RowsFilled, RowsFilled-zero, RowsFilled-suc, RowsFilled-next, RowsFilled-Combines,
}

pub pos-factor : (a b : ℕ) → 0 < a * b → 0 < b
pos-factor a b h = grind arith

module _ (w n s i j0 : ℕ) (hn : 0 < n) (hs : 0 < s) (hw : j0 + n ≤ s)
    (full : n_256bit_lanes w n * words_per_256bit_lane w ≡ n) where
  abbrev lane : ℕ → ℕ
  lane m = m / words_per_256bit_lane w

  abbrev slot : ℕ → ℕ
  slot m = m % words_per_256bit_lane w

  lane-lt : (m : ℕ) → m < n → lane m < n_256bit_lanes w n
  lane-lt m h =
      let some_word : 0 < words_per_256bit_lane w =
        pos-factor (n_256bit_lanes w n) (words_per_256bit_lane w) (rw full hn) in
      (div-lt_iff_lt-mul some_word).1 (rw full h)

  load_lanes-row : (x : Memory) (p m : ℕ) → load_lanes w x p (lane m) (slot m) ≡ x (p + m)
  load_lanes-row x p m = ap (λ (t : ℕ). x (p + t)) (div-add-mod' m (words_per_256bit_lane w))

  abbrev row : ℕ → ℕ
  row k = cell n s i k j0

  -- A stored row, whose register cells are `v`.
  store_lanes-row :
      (k : ℕ) (lanes : ℕ → M256) (x : Memory) (v : ℕ → ℕ)
      → ((m : ℕ) → m < n → lanes (lane m) (slot m) ≡ v (row k + m))
      → (a : ℕ)
      → store_lanes w n (row k) lanes x a ≡ (if in_row n s i j0 n hn hs hw k a then v a else x a)
  unfolding store_lanes
  store_lanes-row k lanes x v e a = elim (Bool-cases (in_row n s i j0 n hn hs hw k a)) [
    | inl here ↦
        let inside : leb (row k) a && ltb a (row k + n_256bit_lanes w n * words_per_256bit_lane w)
            ≡ true =
          ap (λ (t : ℕ). leb (row k) a && ltb a (row k + t)) full ∙ here in
        let m = a - row k in
        let below : m < n = ground (arith, here) in
        let at : row k + m ≡ a = ground (arith, here) in rw (inside, here) (e m below ∙ ap v at)
    | inr off ↦
        let outside : leb (row k) a && ltb a (row k + n_256bit_lanes w n * words_per_256bit_lane w)
            ≡ false =
          ap (λ (t : ℕ). leb (row k) a && ltb a (row k + t)) full ∙ off in
        rw (outside, off) refl
  ]

  -- The state of `block_transform_vertical_avx2` after the row `k`: the rows so far are replaced, and
  -- `lanes_b` holds the old row `k`.
  abbrev pub Differences : Memory → ℕ → Memory × (ℕ → M256) → Type 0
  Differences x k t =
      RowsFilled n s i j0 hn hs hw (difference w) x k t.0
      × ((m : ℕ) → m < n → t.1 (lane m) (slot m) ≡ x (row k + m))

  Differences-zero : (x : Memory) (p : ℕ) → p ≡ row 0 → Differences x 0 (x, load_lanes w x p)
  Differences-zero x p e = (
    RowsFilled-zero n s i j0 hn hs hw (difference w) x,
    λ m h. load_lanes-row x p m ∙ ap (λ (t : ℕ). x (t + m)) e,
  )

  Differences-suc :
      (x : Memory) (k q : ℕ) (t : Memory × (ℕ → M256))
      → suc k < n
      → q ≡ row (suc k)
      → Differences x k t
      → Differences x (suc k) (difference_lanes w n q t)
  unfolding difference_lanes
  Differences-suc x k q (y, lanes_b) hk e (filled, held) =
      let fresh : (m : ℕ) → m < n → load_lanes w y q (lane m) (slot m) ≡ x (row (suc k) + m) =
        λ m h.
          load_lanes-row y q m
          ∙ ap (λ (t : ℕ). y (t + m)) e
          ∙ RowsFilled-next n s i j0 hn hs hw (difference w) x k m y hk h filled in
      let lanes_a =
        for_up 0 (n_256bit_lanes w n) 1
          (λ j lanes. set_lane lanes j (subtract_packed w (load_lanes w y q j) (lanes j)))
          lanes_b in
      let before : (m : ℕ) → row (suc k) + m - s ≡ row k + m = λ m. omega arith in
      (
        RowsFilled-suc n s i j0 hn hs hw (difference w) x k y _ hk
            (λ a.
              ap (λ (t : ℕ). store_lanes w n t lanes_a y a) e
              ∙ store_lanes-row (suc k) lanes_a y (λ a. sub w (x a) (x (a - s)))
                  (λ m h.
                    ap (λ (v : M256). v (slot m))
                      (set_loop (λ j. subtract_packed w (load_lanes w y q j)) lanes_b
                        (n_256bit_lanes w n) (lane m) (lane-lt m h))
                    ∙ ap (λ (v : ℕ). sub w v (lanes_b (lane m) (slot m))) (fresh m h)
                    ∙ ap (sub w (x (row (suc k) + m))) (held m h ∙ ap x (sym (before m))))
                  a)
            filled,
        fresh,
      )

  -- The state of `inverse_block_transform_vertical_avx2` after the row `k`, which `lanes_a` holds.
  abbrev pub Sums : Memory → ℕ → Memory × (ℕ → M256) → Type 0
  Sums x k t =
      RowsFilled n s i j0 hn hs hw (running_sum w) x k t.0
      × ((m : ℕ) → m < n → t.1 (lane m) (slot m) ≡ t.0 (row k + m))

  Sums-zero : (x : Memory) (p : ℕ) → p ≡ row 0 → Sums x 0 (x, load_lanes w x p)
  Sums-zero x p e = (
    RowsFilled-zero n s i j0 hn hs hw (running_sum w) x,
    λ m h. load_lanes-row x p m ∙ ap (λ (t : ℕ). x (t + m)) e,
  )

  Sums-suc :
      (x : Memory) (k q : ℕ) (t : Memory × (ℕ → M256))
      → suc k < n
      → q ≡ row (suc k)
      → Sums x k t
      → Sums x (suc k) (sum_lanes w n q t)
  unfolding sum_lanes
  Sums-suc x k q (y, lanes_a) hk e (filled, held) =
      let before : (m : ℕ) → row (suc k) + m - s ≡ row k + m = λ m. omega arith in
      let lanes_a' =
        for_up 0 (n_256bit_lanes w n) 1
          (λ j lanes.
            set_lane lanes j
              (add_packed w (lanes j) (load_256 y (q + j * words_per_256bit_lane w))))
          lanes_a in
      let v = λ (a : ℕ). add w (x a) (y (a - s)) in
      let summed : (m : ℕ) → m < n → lanes_a' (lane m) (slot m) ≡ v (row (suc k) + m) = λ m h.
        ap (λ (v : M256). v (slot m))
          (set_loop (λ j v. add_packed w v (load_256 y (q + j * words_per_256bit_lane w))) lanes_a
            (n_256bit_lanes w n) (lane m) (lane-lt m h))
        ∙ add_comm w (lanes_a (lane m) (slot m)) (y (q + lane m * words_per_256bit_lane w + slot m))
        ∙ ap (λ (c : ℕ). add w c (lanes_a (lane m) (slot m)))
            (ap y (
                let e : q + lane m * words_per_256bit_lane w + slot m
                    ≡ q + (lane m * words_per_256bit_lane w + slot m) =
                  omega arith in
                e)
              ∙ load_lanes-row y q m
              ∙ ap (λ (t : ℕ). y (t + m)) e
              ∙ RowsFilled-next n s i j0 hn hs hw (running_sum w) x k m y hk h filled)
        ∙ ap (add w (x (row (suc k) + m))) (held m h ∙ ap y (sym (before m))) in
      let stored : (a : ℕ)
          → store_lanes w n q lanes_a' y a
            ≡ (if in_row n s i j0 n hn hs hw (suc k) a then v a else y a) =
        λ a.
          ap (λ (t : ℕ). store_lanes w n t lanes_a' y a) e
          ∙ store_lanes-row (suc k) lanes_a' y v summed a in
      (
        RowsFilled-suc n s i j0 hn hs hw (running_sum w) x k y _ hk stored filled,
        λ m h. summed m h ∙ sym (stored (row (suc k) + m) ∙ ground arith),
      )

  -- The rounds of either pass, over the rows from the second on.
  module _ (start limit step : ℕ) (at : ℕ → ℕ) (pos : 0 < step)
      (count : limit ≡ start + (n - 1) * step)
      (rows : (k : ℕ) → at (start + k * step) ≡ row (suc k)) (p : ℕ) (first : p ≡ row 0) where
    pub difference_lanes-Combines :
        Combines s (has_prev n s) (difference w) (on_lines n s i j0 n hn hs hw) (λ x.
          (for_up start limit step (λ j. difference_lanes w n (at j)) (x, load_lanes w x p)).0)
    difference_lanes-Combines x =
        RowsFilled-Combines n s i j0 hn hs hw (difference w) x _
          (for_up_inv (Differences x) (n - 1) start limit step (λ j. difference_lanes w n (at j))
            (x, load_lanes w x p) pos count
            (λ k t lt h. Differences-suc x k _ t (omega arith) (rows k) h)
            (Differences-zero x p first)).0

    pub sum_lanes-Combines :
        Combines s
          (has_prev n s)
          (running_sum w)
          (on_lines n s i j0 n hn hs hw)
          (λ x. (for_up start limit step (λ j. sum_lanes w n (at j)) (x, load_lanes w x p)).0)
    sum_lanes-Combines x =
        RowsFilled-Combines n s i j0 hn hs hw (running_sum w) x _
          (for_up_inv (Sums x) (n - 1) start limit step (λ j. sum_lanes w n (at j))
            (x, load_lanes w x p) pos count (λ k t lt h. Sums-suc x k _ t (omega arith) (rows k) h)
            (Sums-zero x p first)).0
