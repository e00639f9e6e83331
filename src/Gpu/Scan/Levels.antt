-- ===== src/Gpu/Scan/Levels.antt =====
-- The hierarchical scan folds the values of the whole buffer.
use ndzip.Base.{
  ℕ, zero, suc, ◌+◌, ◌-◌, ◌*◌, ◌/◌, ◌%◌, ◌^◌, ◌≤◌, ◌<◌, ◌≡◌, refl, ap, sym, ◌∙◌, arith, ltb, leb,
  ◌&&◌, if◌then◌else◌, true, false, lt→ltb, le→ltb, Bool, List, [], ◌∷◌,
}
use native.Mathlib.Decide.{dec_lt}
use ndzip.Stream.{div_ceil, ceil}
use ndzip.Gpu.Scan.{
  CudaBuffer, inclusive_scan, hierarchical_inclusive_scan_reduce,
  hierarchical_inclusive_scan_expand, hierarchical_inclusive_scan_allocate, reduce_loop,
  expand_loop, hierarchical_inclusive_scan,
}
use ndzip.Gpu.Scan.Folds.{fold_back, fold_back-cong, fold_back-append, fold_back-blocks}
use ndzip.Gpu.Scan.Blocks.{inclusive_scan-eq-fold_back}

module _ {A : Type 0} (op : A → A → A) (assoc : (a b c : A) → op (op a b) c ≡ op a (op b c))
    (nothing : A) where
  module _ (blocks : ℕ) (f small : ℕ → A) where
    abbrev reduced : (ℕ → A) × (ℕ → A)
    reduced = hierarchical_inclusive_scan_reduce op nothing blocks f small

    block-eq-fold_back :
        (b r : ℕ)
        → r < 512
        → inclusive_scan op nothing 512 (λ i. f (b * 512 + i)) r ≡ fold_back op f (b * 512 + r) r
    block-eq-fold_back b r h =
        inclusive_scan-eq-fold_back op assoc nothing 512 (λ i. f (b * 512 + i)) (omega arith) r h
        ∙ fold_back-cong op (λ i. f (b * 512 + i)) f r (b * 512 + r) r
            (λ j hj. ap f (let e : b * 512 + (r - j) ≡ b * 512 + r - j = omega arith in e))

    reduced-big : (a : ℕ) → a < blocks * 512 → reduced.0 a ≡ fold_back op f a (a % 512)
    unfolding hierarchical_inclusive_scan_reduce
    reduced-big a h =
        ap
          (λ (b : Bool).
            if b then inclusive_scan op nothing 512 (λ i. f (a / 512 * 512 + i)) (a % 512) else f a)
          (lt→ltb (a / 512) blocks (omega arith))
        ∙ block-eq-fold_back (a / 512) (a % 512) (omega arith)
        ∙ ap (λ n. fold_back op f n (a % 512))
            (let e : a / 512 * 512 + a % 512 ≡ a = omega arith in e)

    reduced-small : (b : ℕ) → b < blocks → reduced.1 b ≡ fold_back op f (b * 512 + 511) 511
    unfolding hierarchical_inclusive_scan_reduce
    reduced-small b h =
        ap
          (λ (t : Bool).
            if t then inclusive_scan op nothing 512 (λ i. f (b * 512 + i)) 511 else small b)
          (lt→ltb b blocks h)
        ∙ block-eq-fold_back b 511 (omega arith)

    -- Expanding the scanned sums of the blocks completes the scan.
    expanded :
        (sums : ℕ → A)
        → ((b : ℕ) → b < blocks → sums b ≡ fold_back op reduced.1 b b)
        → (a : ℕ) → a < blocks * 512
        → hierarchical_inclusive_scan_expand op nothing (blocks - 1) sums reduced.0 a
          ≡ fold_back op f a a
    unfolding hierarchical_inclusive_scan_expand
    expanded sums scanned a h = elim (dec_lt a 512) [
      | yes first ↦
          let test : (leb 512 a && ltb a ((blocks - 1 + 1) * 512)) ≡ false = ground arith in
          ap (λ (t : Bool). if t then op (reduced.0 a) (sums (a / 512 - 1)) else reduced.0 a) test
          ∙ reduced-big a h
          ∙ ap (fold_back op f a) (let e : a % 512 ≡ a = omega arith in e)
      | no later ↦
          let test : (leb 512 a && ltb a ((blocks - 1 + 1) * 512)) ≡ true = ground arith in
          let v = a / 512 - 1 in
          let last : v * 512 + 511 ≡ a - suc (a % 512) = omega arith in
          let before : sums v ≡ fold_back op f (v * 512 + 511) (v * 512 + 511) =
            scanned v (omega arith)
            ∙ fold_back-cong op reduced.1 (λ w. fold_back op f (w * 512 + 511) 511) v v v
                (λ j hj. reduced-small (v - j) (omega arith))
            ∙ fold_back-blocks op assoc f 511 v v (omega arith) in
          ap (λ (t : Bool). if t then op (reduced.0 a) (sums (a / 512 - 1)) else reduced.0 a) test
          ∙ ap (λ x. op x (sums v)) (reduced-big a h)
          ∙ ap (op (fold_back op f a (a % 512)))
              (before ∙ ap (λ n. fold_back op f n (v * 512 + 511)) last)
          ∙ fold_back-append op assoc f a (a % 512) (v * 512 + 511)
          ∙ ap (fold_back op f a)
              (let all : suc (a % 512) + (v * 512 + 511) ≡ a = omega arith in all)
    ]

  -- The first buffer after both loops.
  abbrev scanned : CudaBuffer A → List (CudaBuffer A) → ℕ → A
  scanned big l =
      let (b, l') = reduce_loop op nothing big l in (expand_loop op nothing b l').0.memory

  abbrev sums_of : CudaBuffer A → CudaBuffer A → CudaBuffer A
  sums_of big small = record {
    memory =
        (hierarchical_inclusive_scan_reduce op nothing (div_ceil big.size 512) big.memory
          small.memory).1;
    size = small.size;
  }

  one_level :
      (big small : CudaBuffer A) (a : ℕ)
      → div_ceil big.size 512 ≡ 1
      → a < 512
      → scanned big (small ∷ []) a ≡ fold_back op big.memory a a
  unfolding reduce_loop expand_loop
  one_level big small a one h =
      reduced-big (div_ceil big.size 512) big.memory small.memory a (omega arith)
      ∙ ap (fold_back op big.memory a) (let e : a % 512 ≡ a = omega arith in e)

  more_levels :
      (big small next : CudaBuffer A) (rest : List (CudaBuffer A))
      → ((b : ℕ)
          → b < div_ceil big.size 512
          → scanned (sums_of big small) (next ∷ rest) b
            ≡ fold_back op (sums_of big small).memory b b)
      → (a : ℕ) → a < div_ceil big.size 512 * 512
      → scanned big (small ∷ (next ∷ rest)) a ≡ fold_back op big.memory a a
  unfolding reduce_loop expand_loop
  more_levels big small next rest h a ha =
      expanded (div_ceil big.size 512) big.memory small.memory
        (scanned (sums_of big small) (next ∷ rest)) h a ha

  module _ (fresh : ℕ → ℕ → A) where
    abbrev buffer : ℕ → CudaBuffer A
    buffer m = record { memory = fresh (div_ceil m 512); size = ceil (div_ceil m 512) 512 }

    allocate_more :
        (fuel m : ℕ)
        → 1 < m
        → hierarchical_inclusive_scan_allocate op nothing fresh (suc fuel) m
          ≡ buffer m ∷ hierarchical_inclusive_scan_allocate op nothing fresh fuel (div_ceil m 512)
    unfolding hierarchical_inclusive_scan_allocate
    allocate_more fuel m h = rw (lt→ltb 1 m h, hierarchical_inclusive_scan_allocate) refl

    allocate_done :
        (fuel m : ℕ) → m ≤ 1 → hierarchical_inclusive_scan_allocate op nothing fresh fuel m ≡ []
    unfolding hierarchical_inclusive_scan_allocate
    allocate_done zero m h = refl
    allocate_done (suc fuel) m h = rw (le→ltb 1 m h, hierarchical_inclusive_scan_allocate) refl

    levels-eq-fold_back :
        (fuel m : ℕ) (big : CudaBuffer A)
        → 1 < m
        → m ≤ fuel
        → m + 1024 ≤ 2 ^ 32
        → big.size ≡ ceil m 512
        → (a : ℕ) → a < big.size
        → scanned big (hierarchical_inclusive_scan_allocate op nothing fresh fuel m) a
          ≡ fold_back op big.memory a a
    levels-eq-fold_back zero m big h enough small size a ha =
        absurd (let no : ⊥ = omega arith in no)
    levels-eq-fold_back (suc zero) m big h enough small size a ha =
        absurd (let no : ⊥ = omega arith in no)
    levels-eq-fold_back (suc (suc fuel)) m big h enough small size a ha =
        let n' = div_ceil m 512 in
        let one = buffer m in
        ap (λ l. scanned big l a) (allocate_more (suc fuel) m h) ∙ elim (dec_lt 1 n') [
          | no last ↦
              ap (λ l. scanned big (one ∷ l) a) (allocate_done (suc fuel) n' (omega arith))
              ∙ one_level big one a (omega arith) (omega arith)
          | yes more ↦
              let l =
                hierarchical_inclusive_scan_allocate op nothing fresh fuel (div_ceil n' 512) in
              ap (λ l. scanned big (one ∷ l) a) (allocate_more fuel n' more)
              ∙ more_levels big one (buffer n') l
                  (λ b hb.
                    ap (λ l. scanned (sums_of big one) l b) (sym (allocate_more fuel n' more))
                    ∙ levels-eq-fold_back (suc fuel) n' (sums_of big one) more (omega arith)
                        (omega arith) refl b (omega arith))
                  a (omega arith)
        ]

    -- For an associative operation, a buffer whose number of elements is a positive multiple of 512
    -- and no more than `2 ^ 32 - 1024`, and the buffers that are allocated for it, whatever they
    -- hold: the hierarchical scan leaves at each element the fold of that element and all before
    -- it, the later ones as the left arguments.
    pub hierarchical_inclusive_scan-eq-fold_back :
        (in_out_buf : ℕ → A) (n_elems : ℕ)
        → 0 < n_elems
        → n_elems % 512 ≡ 0
        → n_elems + 1024 ≤ 2 ^ 32
        → (a : ℕ) → a < n_elems
        → (hierarchical_inclusive_scan op nothing in_out_buf
              (hierarchical_inclusive_scan_allocate op nothing fresh n_elems n_elems)
              n_elems).0
            a
          ≡ fold_back op in_out_buf a a
    unfolding hierarchical_inclusive_scan
    hierarchical_inclusive_scan-eq-fold_back in_out_buf n_elems pos whole small a ha =
        levels-eq-fold_back n_elems n_elems (record { memory = in_out_buf; size = n_elems })
          (omega arith) (omega arith) small (omega arith) a ha
