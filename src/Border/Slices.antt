-- ===== src/Border/Slices.antt =====
-- The slices of the border as a list, in the order in which `for_each_border_slice` passes them on.
use ndzip.Base.{
  ℕ, zero, suc, ◌+◌, ◌*◌, ◌≡◌, refl, ap, sym, ◌∙◌, arith, ltb, Bool, true, false, for_up, rounds,
  for_up-eq-rounds, List, [], ◌∷◌, ◌++◌, none, some,
}
use ndzip.Word.{sub}
use ndzip.Memory.{update}
use ndzip.Extent.{Extent, num_elements, linear_index}
use ndzip.Border.{
  border_begin, BorderScan, whole_array, with_border, border_scan, last_slice,
  for_each_border_slice_recursive, for_each_border_slice,
}

-- Calling `fn` for each slice in turn.
abbrev pub run {ℓ} : {S : Type ℓ} → (ℕ → ℕ → S → S) → List (ℕ × ℕ) → S → S
run fn [] s = s
run fn ((offset, count) ∷ l) s = run fn l (fn offset count s)

abbrev pub slice_if : Bool → ℕ → ℕ → List (ℕ × ℕ)
slice_if true offset count = (offset, count) ∷ []
slice_if false offset count = []

-- The lists `g i`, `g (i + 1)`, … after each other.
abbrev pub joined : ℕ → ℕ → (ℕ → List (ℕ × ℕ)) → List (ℕ × ℕ)
joined zero i g = []
joined (suc n) i g = g i ++ joined n (i + 1) g

run-++ {ℓ} :
    {S : Type ℓ} (fn : ℕ → ℕ → S → S) (a b : List (ℕ × ℕ)) (s : S)
    → run fn (a ++ b) s ≡ run fn b (run fn a s)
run-++ fn [] b s = refl
run-++ fn ((offset, count) ∷ a) b s = run-++ fn a b (fn offset count s)

run-joined {ℓ} :
    {S : Type ℓ} (fn : ℕ → ℕ → S → S) (g : ℕ → List (ℕ × ℕ)) (h : ℕ → S → S)
    → ((p : ℕ) (s : S) → h p s ≡ run fn (g p) s)
    → (n i : ℕ) (s : S) → rounds n i 1 h s ≡ run fn (joined n i g) s
unfolding rounds
run-joined fn g h same zero i s = refl
run-joined fn g h same (suc n) i s =
    ap (rounds n (i + 1) 1 h) (same i s)
    ∙ run-joined fn g h same n (i + 1) (run fn (g i) s)
    ∙ sym (run-++ fn (g i) (joined n (i + 1) g) s)

module _ (dims : ℕ) (size : Extent) (side : ℕ) where
  abbrev pub slice_at : ℕ → Extent → List (ℕ × ℕ)
  slice_at d pos =
      let offset = linear_index dims size (update pos d (border_begin size side d)) in
      let count = sub 32 (linear_index dims size (update pos d (size d))) offset in
      slice_if (ltb (border_begin size side d) (size d)) offset count

  abbrev pub slices : ℕ → ℕ → Extent → List (ℕ × ℕ)
  slices zero d pos = slice_at d pos
  slices (suc left) d pos =
      joined (border_begin size side d) 0 (λ p. slices left (d + 1) (update pos d p))
      ++ slice_at d (update pos d (border_begin size side d))

  abbrev pub slices_found : BorderScan → List (ℕ × ℕ)
  slices_found whole_array = (0, num_elements dims size) ∷ []
  slices_found (with_border none) = []
  slices_found (with_border (some last)) = slices last 0 (λ d. 0)

  abbrev pub border_slices : List (ℕ × ℕ)
  border_slices = slices_found (border_scan size side dims 0 none)

  module _ {ℓ} {S : Type ℓ} (fn : ℕ → ℕ → S → S) where
    last_slice-run :
        (d : ℕ) (pos : Extent) (s : S)
        → last_slice dims size side fn d pos s ≡ run fn (slice_at d pos) s
    unfolding last_slice
    last_slice-run d pos s =
        let offset = linear_index dims size (update pos d (border_begin size side d)) in
        let count = sub 32 (linear_index dims size (update pos d (size d))) offset in
        elim (ltb (border_begin size side d) (size d))
          as (λ b.
            elim b [ true ↦ fn offset count s | false ↦ s ] ≡ run fn (slice_if b offset count) s) [
              | true ↦ refl
              | false ↦ refl
            ]

    recursive-run :
        (left d : ℕ) (pos : Extent) (s : S)
        → for_each_border_slice_recursive dims size side fn left d pos s
          ≡ run fn (slices left d pos) s
    unfolding for_each_border_slice_recursive
    recursive-run zero d pos s = last_slice-run d pos s
    recursive-run (suc left) d pos s =
        let n = border_begin size side d in
        let inner = λ (p : ℕ).
          for_each_border_slice_recursive dims size side fn left (d + 1) (update pos d p) in
        let whole : n ≡ 0 + n * 1 = omega arith in
        last_slice-run d (update pos d n) (for_up 0 n 1 inner s)
        ∙ ap (run fn (slice_at d (update pos d n))) (
            for_up-eq-rounds n 0 n 1 inner s (omega arith) whole
            ∙ run-joined fn (λ p. slices left (d + 1) (update pos d p)) inner
                (λ p t. recursive-run left (d + 1) (update pos d p) t) n 0 s)
        ∙ sym (
            run-++ fn (joined n 0 (λ p. slices left (d + 1) (update pos d p)))
              (slice_at d (update pos d n)) s)

    -- The loops over the border call the function for the slices of the list.
    pub for_each_border_slice-run :
        (s : S) → for_each_border_slice dims size side fn s ≡ run fn border_slices s
    unfolding for_each_border_slice
    for_each_border_slice-run s =
        elim (border_scan size side dims 0 none)
          as (λ scan.
            elim scan [
              | whole_array ↦ fn 0 (num_elements dims size) s
              | with_border none ↦ s
              | with_border (some last) ↦
                  for_each_border_slice_recursive dims size side fn last 0 (λ d. 0) s
            ]
            ≡ run fn (slices_found scan) s) [
              | whole_array ↦ refl
              | with_border none ↦ refl
              | with_border (some last) ↦ recursive-run last 0 (λ d. 0) s
            ]
