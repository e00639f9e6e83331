-- ===== src/Gpu/Scan/Warps.antt =====
-- The scans of a warp fold the values of the lanes.
use ndzip.Base.{
  ℕ, zero, suc, ◌+◌, ◌-◌, ◌*◌, ◌%◌, ◌^◌, ◌≤◌, ◌<◌, ◌≡◌, refl, ap, arith, min, ltb, leb, ◌&&◌, true,
  false, if◌then◌else◌, lt→ltb, le→ltb, ◌==◌, eq→==, ne→==,
}
use native.Mathlib.Decide.{dec_lt}
use ndzip.Word.{sub}
use ndzip.Gpu.Scan.{scan_round, scan_rounds, warp_inclusive_scan, warp_exclusive_scan}
use ndzip.Gpu.Scan.Folds.{fold_back, fold_back-append}

module _ {A : Type 0} (op : A → A → A) (assoc : (a b c : A) → op (op a b) c ≡ op a (op b c))
    (x : ℕ → A) where
  -- After the rounds before `i`, each lane has folded `i` values, or all there are.
  abbrev Folded : ℕ → (ℕ → A) → Type 0
  Folded i y = (t : ℕ) → t < 32 → y t ≡ fold_back op x t (min (i - 1) t)

  scan_round-Folded :
      (i : ℕ) (y : ℕ → A) → 0 < i → i < 32 → Folded i y → Folded (i * 2) (scan_round op i y)
  unfolding scan_round
  scan_round-Folded i y pos hi h t ht = elim (dec_lt t i) [
    | yes below ↦
        let test : (leb i t && ltb t 32) ≡ false = ground arith in
        let all : min (i - 1) t ≡ min (i * 2 - 1) t = omega arith in rw test (rw all at (h t ht))
    | no reached ↦
        let test : (leb i t && ltb t 32) ≡ true = ground arith in
        let back : (if ltb t i then 0 else sub 64 t i) % 32 ≡ t - i = ground arith in
        let here : min (i - 1) t ≡ i - 1 = omega arith in
        let step : t - i ≡ t - suc (i - 1) = omega arith in
        let all : suc (i - 1) + min (i - 1) (t - suc (i - 1)) ≡ min (i * 2 - 1) t = omega arith in
        rw
          (
            test,
            back,
            h t ht,
            h (t - i) (omega arith),
            here,
            step,
            fold_back-append op assoc x t (i - 1) (min (i - 1) (t - suc (i - 1))),
            all,
          )
          refl
  ]

  scan_rounds-Folded :
      (fuel i : ℕ) (y : ℕ → A)
      → 0 < i
      → 32 ≤ i * 2 ^ fuel
      → Folded i y
      → (t : ℕ) → t < 32
      → scan_rounds op fuel i y t ≡ fold_back op x t t
  unfolding scan_rounds
  scan_rounds-Folded zero i y pos enough h t ht =
      let all : min (i - 1) t ≡ t = omega arith in rw all at (h t ht)
  scan_rounds-Folded (suc fuel) i y pos enough h t ht = elim (dec_lt i 32) [
    | yes more ↦
        rw (lt→ltb i 32 more, scan_rounds)
          (scan_rounds-Folded fuel (i * 2) (scan_round op i y) (omega arith) (grind arith)
            (scan_round-Folded i y pos more h) t ht)
    | no done ↦
        let all : min (i - 1) t ≡ t = omega arith in
        rw (le→ltb i 32 (omega arith), scan_rounds) (rw all at (h t ht))
  ]

  pub warp_inclusive_scan-eq-fold_back :
      (t : ℕ) → t < 32 → warp_inclusive_scan op x t ≡ fold_back op x t t
  unfolding warp_inclusive_scan
  warp_inclusive_scan-eq-fold_back t ht =
      scan_rounds-Folded 6 1 x (omega arith) (omega arith)
        (λ t ht. let none_yet : min (1 - 1) t ≡ 0 = omega arith in rw none_yet refl) t ht

  -- The exclusive scan has `init` in the first lane, and in each other lane the fold of the lanes
  -- before it.
  pub warp_exclusive_scan-eq-fold_back :
      (init : A) (t : ℕ)
      → t < 32
      → warp_exclusive_scan op x init t
        ≡ (if t == 0 then init else op (fold_back op x (t - 1) (t - 1)) init)
  unfolding warp_exclusive_scan warp_inclusive_scan
  warp_exclusive_scan-eq-fold_back init t ht = elim (dec_lt 0 t) [
    | yes later ↦
        let lane : sub 32 t 1 % 32 % 32 ≡ t - 1 = omega arith in
        rw (ne→== t 0 (omega arith), lane)
          (ap (λ a. op a init) (warp_inclusive_scan-eq-fold_back (t - 1) (omega arith)))
    | no first ↦ rw (eq→== t 0 (omega arith)) refl
  ]
