-- ===== src/Border/Coverage.antt =====
-- The slices of the border hold every cell behind the last whole hypercube of some dimension.
use native.Mathlib.Nat.{mod-eq_of_lt, mul-le-mul_right, div-add-mod'}
use native.Mathlib.Decide.{ℕ_discrete, dec_lt}
use ndzip.Base.{
  ℕ, zero, suc, ◌+◌, ◌-◌, ◌*◌, ◌%◌, ◌^◌, ◌≤◌, ◌<◌, ◌≡◌, ◌≢◌, refl, ap, subst, sym, ◌∙◌, inl, inr,
  arith, lt→ltb, List, [], ◌∷◌, ◌++◌, none, some,
}
use ndzip.Word.{u32, sub}
use ndzip.Memory.{update, update_self, update_ne}
use ndzip.Extent.{Extent, linear_index, num_elements}
use ndzip.Extent.Laws.{volume, value, linear_index-eq, num_elements-eq, value-lt-volume}
use ndzip.Extent.Ids.{component-le-volume}
use ndzip.Extent.Tails.{span, volume-span, value-ge, value-lt, value-zeros, value_cong}
use ndzip.Border.{border_begin, BorderScan, whole_array, with_border, border_scan}
use ndzip.Border.Scan.{Finds, border_scan-Finds}
use ndzip.Border.Slices.{joined, slice_at, slices, slices_found, border_slices}
use ndzip.Border.RoundTrip.{InSlices}

InSlices-left : (k l : List (ℕ × ℕ)) (a : ℕ) → InSlices k a → InSlices (k ++ l) a
InSlices-left [] l a h = absurd h
InSlices-left ((offset, count) ∷ k) l a (inl h) = inl h
InSlices-left ((offset, count) ∷ k) l a (inr h) = inr (InSlices-left k l a h)

InSlices-right : (k l : List (ℕ × ℕ)) (a : ℕ) → InSlices l a → InSlices (k ++ l) a
InSlices-right [] l a h = h
InSlices-right ((offset, count) ∷ k) l a h = inr (InSlices-right k l a h)

InSlices-joined :
    (g : ℕ → List (ℕ × ℕ)) (p a n i : ℕ)
    → i ≤ p
    → p < i + n
    → InSlices (g p) a
    → InSlices (joined n i g) a
InSlices-joined g p a zero i lo hi h = absurd (omega arith)
InSlices-joined g p a (suc n) i lo hi h = elim (ℕ_discrete p i) [
  | yes e ↦ InSlices-left (g i) (joined n (i + 1) g) a (rw (← e) h)
  | no ne ↦
      InSlices-right (g i) (joined n (i + 1) g) a
        (InSlices-joined g p a n (i + 1) (omega arith) (omega arith) h)
]

sub-small : (a b : ℕ) → b ≤ a → a < 2 ^ 32 → sub 32 a b ≡ a - b
sub-small a b h small = omega arith

module _ (dims : ℕ) (size : Extent) (side : ℕ) (hs : 0 < side) (fits : volume size dims < 2 ^ 32)
    (q : Extent) (within : (d : ℕ) → d < dims → q d < size d) where
  -- The position that the recursion has reached has the first `d` components of `q`.
  record Agrees (d : ℕ) (pos : Extent) : Type 0 where
    prefix : (e : ℕ) → e < d → pos e ≡ q e
    zeros : (e : ℕ) → d < e → e < dims → pos e ≡ 0

  Agrees-update : (d v : ℕ) (pos : Extent) → Agrees d pos → Agrees d (update pos d v)
  Agrees-update d v pos h = record {
    prefix = λ e lt. update_ne pos d v e (omega arith) ∙ h.prefix e lt;
    zeros = λ e lt hi. update_ne pos d v e (omega arith) ∙ h.zeros e lt hi;
  }

  Agrees-suc : (d : ℕ) (pos : Extent) → Agrees d pos → Agrees (d + 1) (update pos d (q d))
  Agrees-suc d pos h = record {
    prefix = λ e lt. elim (ℕ_discrete e d) [
      | yes here ↦ rw here (update_self pos d (q d) d refl)
      | no ne ↦ update_ne pos d (q d) e ne ∙ h.prefix e (omega arith)
    ];
    zeros = λ e lt hi. update_ne pos d (q d) e (omega arith) ∙ h.zeros e (omega arith) hi;
  }

  -- The index of a position on the edge of the slice.
  edge-index :
      (d left v : ℕ) (pos : Extent)
      → suc d + left ≡ dims
      → Agrees d pos
      → v ≤ size d
      → (linear_index dims size (update pos d v)
          ≡ (value size q d * size d + v) * span size (suc d) left)
        × ((value size q d * size d + v) * span size (suc d) left < 2 ^ 32)
  edge-index d left v pos hd h hv =
      let edge = update pos d v in
      let W = span size (suc d) left in
      let V = value size q d in
      let self : edge d ≡ v = update_self pos d v d refl in
      let same : value size edge d ≡ V =
        value_cong size edge q d (λ e lt. update_ne pos d v e (omega arith) ∙ h.prefix e lt) in
      let zeros : value size edge (suc d + left) ≡ (value size edge d * size d + edge d) * W =
        value-zeros size edge left (suc d)
          (λ e lo hi. update_ne pos d v e (omega arith) ∙ h.zeros e (omega arith) (omega arith)) in
      let all : value size edge dims ≡ (V * size d + v) * W =
        ap (value size edge) (sym hd) ∙ zeros ∙ rw (self, same) refl in
      let below : V < volume size d =
        value-lt-volume dims size q d (λ e lt. within e (omega arith)) in
      let rows : suc V * size d ≤ volume size d * size d = mul-le-mul_right (size d) below in
      let most : (V * size d + v) * W ≤ volume size d * size d * W =
        mul-le-mul_right W (omega arith) in
      let whole : volume size d * size d * W ≡ volume size dims =
        volume-span size left (suc d) ∙ ap (volume size) hd in
      let small : (V * size d + v) * W < 2 ^ 32 = omega arith in
      let some_volume : 0 < volume size dims =
        omega (arith, value-lt-volume dims size q dims within) in
      let first : edge 0 < 2 ^ 32 = elim (ℕ_discrete 0 d) [
        | yes e ↦
            let c = component-le-volume size dims d (omega arith) some_volume in
            omega (arith, ap edge e)
        | no ne ↦
            let c = component-le-volume size dims 0 (omega arith) some_volume in
            omega (arith, update_ne pos d v 0 ne, h.prefix 0 (omega arith), within 0 (omega arith))
      ] in
      (linear_index-eq dims size edge (omega arith) first ∙ ap u32 all ∙ mod-eq_of_lt small, small)

  slice_at-InSlices :
      (d left : ℕ) (pos : Extent)
      → suc d + left ≡ dims
      → Agrees d pos
      → border_begin size side d ≤ q d
      → InSlices (slice_at dims size side d pos) (value size q dims)
  slice_at-InSlices d left pos hd h hq =
      let W = span size (suc d) left in
      let V = value size q d in
      let b = border_begin size side d in
      let room : q d < size d = within d (omega arith) in
      let (begin, begin-small) = edge-index d left b pos hd h (omega arith) in
      let (end, end-small) = edge-index d left (size d) pos hd h (omega arith) in
      let low : (V * size d + b) * W ≤ (V * size d + q d) * W = mul-le-mul_right W (omega arith) in
      let high : suc (V * size d + q d) * W ≤ (V * size d + size d) * W =
        mul-le-mul_right W (omega arith) in
      let above : (V * size d + q d) * W ≤ value size q dims =
        subst (λ n. (V * size d + q d) * W ≤ value size q n) hd (value-ge size q left (suc d)) in
      let below : value size q dims < (V * size d + q d + 1) * W =
        subst (λ n. value size q n < (V * size d + q d + 1) * W) hd
          (value-lt size q left (suc d) (λ e lo hi. within e (omega arith))) in
      let count : sub 32 ((V * size d + size d) * W) ((V * size d + b) * W)
          ≡ (V * size d + size d) * W - (V * size d + b) * W =
        sub-small _ _ (omega arith) end-small in
      rw (lt→ltb b (size d) (omega arith), begin, end, count) (inl (omega arith, omega arith))

  slices-InSlices :
      (left d rest e : ℕ) (pos : Extent)
      → d + suc (left + rest) ≡ dims
      → Agrees d pos
      → d ≤ e
      → e ≤ d + left
      → border_begin size side e ≤ q e
      → InSlices (slices dims size side left d pos) (value size q dims)
  slices-InSlices zero d rest e pos hd h lo hi hq =
      let here : e ≡ d = omega arith in slice_at-InSlices d rest pos (omega arith) h (rw here at hq)
  slices-InSlices (suc left) d rest e pos hd h lo hi hq =
      let n = border_begin size side d in
      let g = λ (p : ℕ). slices dims size side left (d + 1) (update pos d p) in
      elim (dec_lt (q d) n) [
        | yes inside ↦
            let later : e ≢ d =
              λ here. absurd (omega (arith, ap q here, ap (border_begin size side) here)) in
            InSlices-left (joined n 0 g) _ _ (
              InSlices-joined g (q d) (value size q dims) n 0 (omega arith) (omega arith) (
                slices-InSlices left (d + 1) rest e (update pos d (q d)) (omega arith)
                  (Agrees-suc d pos h) (omega arith) (omega arith) hq))
        | no behind ↦ InSlices-right (joined n 0 g) _ _ (
            slice_at-InSlices d (suc (left + rest)) (update pos d n) (omega arith)
              (Agrees-update d n pos h) (omega arith))
      ]

  slices_found-InSlices :
      (e : ℕ) (scan : BorderScan)
      → border_begin size side e ≤ q e
      → Finds e dims scan
      → InSlices (slices_found dims size side scan) (value size q dims)
  slices_found-InSlices e whole_array hq found =
      let all : num_elements dims size ≡ volume size dims =
        num_elements-eq dims size q ∙ mod-eq_of_lt fits in
      rw all (inl (omega arith, omega (arith, value-lt-volume dims size q dims within)))
  slices_found-InSlices e (with_border none) hq found = absurd found
  slices_found-InSlices e (with_border (some last)) hq (le, lt) =
      slices-InSlices last 0 (dims - suc last) e (λ d. 0) (omega arith)
        (record { prefix = λ k h. absurd (omega arith); zeros = λ k lo hi. refl }) (omega arith)
        (omega arith) hq

  pub border_slices-InSlices :
      (e : ℕ)
      → e < dims
      → border_begin size side e ≤ q e
      → InSlices (border_slices dims size side) (value size q dims)
  border_slices-InSlices e he hq =
      let odd : size e % side ≢ 0 =
        λ even. absurd (omega (arith, div-add-mod' (size e) side, within e he)) in
      let all : 0 + dims ≡ dims = omega arith in
      slices_found-InSlices e (border_scan size side dims 0 none) hq
        (rw all at (border_scan-Finds size side dims 0 e none (omega arith) (omega arith) odd))
