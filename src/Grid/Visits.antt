-- ===== src/Grid/Visits.antt =====
-- `iter_hypercubes` visits the hypercubes in the order of their linear ids.
use native.Mathlib.Nat.{mod-lt, mod-eq_of_lt, div-add-mod', mul-le-mul_right, div-le_self}
use native.Mathlib.Decide.{ℕ_discrete, dec_lt}
use ndzip.Base.{
  ℕ, zero, suc, ◌+◌, ◌*◌, ◌/◌, ◌^◌, ltb, leb, if◌then◌else◌, true, false, rounds, ◌≡◌, ◌≤◌, ◌<◌,
  refl, ap, sym, ◌∙◌, arith, fun_ext, div-mul-add, mod-mul-add, eq→==, ne→==, lt→ltb, le→ltb,
}
use ndzip.Word.{u32}
use ndzip.Memory.{update, update_self, update_ne}
use ndzip.Extent.{Extent}
use ndzip.Extent.Tails.{span}
use ndzip.Extent.Digits.{digit}
use ndzip.Grid.{Visit, side_loop, iter_hypercubes}

-- The hypercubes along each axis, and the position of the hypercube number `k`.
abbrev pub cube_counts : ℕ → Extent → Extent
cube_counts side size d = size d / side

abbrev pub cube_origin : ℕ → ℕ → Extent → ℕ → Extent
cube_origin dims side size k =
    λ e. if ltb e dims then digit (cube_counts side size) dims k e * side else 0

rounds_add {ℓ} :
    {S : Type ℓ} (a b i : ℕ) (g : ℕ → S → S) (s : S)
    → rounds (a + b) i 1 g s ≡ rounds b (i + a) 1 g (rounds a i 1 g s)
unfolding rounds
rounds_add zero b i g s =
    let e : 0 + b ≡ b = omega arith in let f : i + 0 ≡ i = omega arith in rw (e, f)
rounds_add (suc a) b i g s =
    let e : suc a + b ≡ suc (a + b) = omega arith in
    let f : i + suc a ≡ i + 1 + a = omega arith in rw (e, f) (rounds_add a b (i + 1) g (g i s))

module _ {ℓ} {S : Type ℓ} (dims side : ℕ) (hs : 0 < side) (size : Extent)
    (room : (d : ℕ) → d < dims → size d + side < 2 ^ 32) (f : ℕ → Extent → S → S) where
  -- The hypercubes along each axis.
  abbrev counts : Extent
  counts = cube_counts side size

  -- The position of the hypercube number `k`.
  abbrev origin : ℕ → Extent
  origin = cube_origin dims side size

  abbrev visit : ℕ → S → S
  visit k = f k (origin k)

  -- `off` is the position `t` in its first `m` components, and has no component from `dims` on.
  abbrev IsAt : ℕ → ℕ → Extent → Type 0
  IsAt m t off =
      ((e : ℕ) → e < m → off e ≡ digit counts m t e * side) × ((e : ℕ) → dims ≤ e → off e ≡ 0)

  -- `v` is `(s, off, i)` after `n` visits, with the first `m` components of `off` as they were.
  record HasVisited (m n : ℕ) (s : S) (off : Extent) (i : ℕ) (v : Visit S) : Type ℓ where
    result : v.0 ≡ rounds n i 1 visit s
    kept : (e : ℕ) → e < m → v.1 e ≡ off e
    blank : (e : ℕ) → dims ≤ e → v.1 e ≡ 0
    index : v.2 ≡ i + n

  -- What the inner loops do.
  abbrev Visits : ℕ → ℕ → (Visit S → Visit S) → Type ℓ
  Visits m n inner =
      (t : ℕ) (s : S) (off : Extent)
      → (t + 1) * n < 2 ^ 32
      → IsAt m t off
      → HasVisited m n s off (t * n) (inner (s, off, t * n))

  next-IsAt :
      (m t x : ℕ) (off : Extent)
      → x < counts m
      → IsAt m t off
      → off m ≡ x * side
      → IsAt (suc m) (t * counts m + x) off
  next-IsAt m t x off hx (at, blank) here = (
    λ e he. elim (ℕ_discrete e m) [
      | yes same ↦ rw (same, eq→== m m refl, mod-mul-add t x (counts m) hx) here
      | no ne ↦ rw (ne→== e m ne, div-mul-add t x (counts m) hx) (at e (omega arith))
    ],
    blank,
  )

  whole-le : (m : ℕ) → counts m * side ≤ size m
  whole-le m = omega (arith, div-add-mod' (size m) side)

  no_wrap :
      (m x : ℕ) (off : Extent)
      → m < dims
      → x ≤ counts m
      → off m ≡ x * side
      → u32 (off m + side) ≡ x * side + side
  no_wrap m x off hm hx here =
      let below : x * side ≤ counts m * side = mul-le-mul_right side hx in
      rw here (mod-eq_of_lt (omega (arith, whole-le m, room m hm)))

  -- A visit of one block of the component, and those of the blocks behind it.
  HasVisited-next :
      (m n rest : ℕ) (s : S) (off : Extent) (i v : ℕ) (w w' : Visit S)
      → m < dims
      → HasVisited (suc m) n s off i w
      → HasVisited m rest w.0 (update w.1 m v) w.2 w'
      → HasVisited m (n + rest) s off i w'
  HasVisited-next m n rest s off i v w w' hm first others = record {
    result = others.result ∙ rw (first.result, first.index) (sym (rounds_add n rest i visit s));
    kept =
        λ e he. others.kept e he ∙ update_ne w.1 m v e (omega arith) ∙ first.kept e (omega arith);
    blank = others.blank;
    index = omega (arith, others.index, first.index);
  }

  -- The loop over one component, from its value `x` on.
  side_loop-HasVisited :
      (m n t : ℕ) (inner : Visit S → Visit S)
      → m < dims
      → Visits (suc m) n inner
      → (r x fuel i : ℕ) (s : S) (off : Extent) → x + r ≡ counts m
      → r < fuel
      → (t + 1) * (counts m * n) < 2 ^ 32
      → i ≡ (t * counts m + x) * n
      → off m ≡ x * side
      → IsAt m t off
      → HasVisited m (r * n) s off i (side_loop fuel side size m inner (s, off, i))
  unfolding side_loop rounds
  side_loop-HasVisited m n t inner hm visits r x zero i s off e hf fits hi here at =
      absurd (omega arith)
  side_loop-HasVisited m n t inner hm visits zero x (suc fuel) i s off e hf fits hi here at =
      let last : x ≡ counts m = omega arith in
      let behind : size m < x * side + side =
        rw last (omega (arith, div-add-mod' (size m) side, mod-lt (size m) hs)) in
      let stop : leb (u32 (off m + side)) (size m) ≡ false =
        rw (no_wrap m x off hm (omega arith) here) (ground arith) in
      let none : 0 * n ≡ 0 = omega arith in
      rw (stop, side_loop, none)
        (record { result = refl; kept = λ k hk. refl; blank = at.1; index = omega arith })
  side_loop-HasVisited m n t inner hm visits (suc r) x (suc fuel) i s off e hf fits hi here at =
      let lt : x < counts m = omega arith in
      let sum = no_wrap m x off hm (omega arith) here in
      let below : (x + 1) * side ≤ counts m * side = mul-le-mul_right side (omega arith) in
      let go : leb (u32 (off m + side)) (size m) ≡ true =
        rw sum (ground (arith, below, whole-le m)) in
      let bound : (t * counts m + x + 1) * n < 2 ^ 32 =
        let most : (t * counts m + x + 1) * n ≤ (t + 1) * counts m * n =
          mul-le-mul_right n (omega arith) in
        omega arith in
      let w = inner (s, off, i) in
      let first : HasVisited (suc m) n s off i w =
        rw hi (visits (t * counts m + x) s off bound (next-IsAt m t x off lt at here)) in
      let v = u32 (w.1 m + side) in
      let moved : update w.1 m v m ≡ (x + 1) * side =
        update_self w.1 m v m refl
        ∙ ap (λ (a : ℕ). u32 (a + side)) (first.kept m (omega arith))
        ∙ sum
        ∙ omega arith in
      let others =
        side_loop-HasVisited m n t inner hm visits r (x + 1) fuel w.2 w.0 (update w.1 m v)
          (omega arith) (omega arith) fits (omega (arith, first.index)) moved
          (
            (λ k hk. update_ne w.1 m v k (omega arith) ∙ first.kept k (omega arith) ∙ at.0 k hk),
            (λ k hk. update_ne w.1 m v k (omega arith) ∙ first.blank k hk),
          ) in
      let all : suc r * n ≡ n + r * n = omega arith in
      rw (go, side_loop, all) (HasVisited-next m n (r * n) s off i v w _ hm first others)

  -- All loops from the component `m` on.
  iter_hypercubes-Visits :
      (left m : ℕ)
      → m + left ≡ dims
      → Visits m (span counts m left) (iter_hypercubes left side size m f)
  unfolding iter_hypercubes rounds
  iter_hypercubes-Visits zero m e t s off fits at =
      let id : t * 1 ≡ t = omega arith in
      let here : off ≡ origin t = fun_ext λ k. elim (dec_lt k dims) [
        | yes lt ↦ rw (lt→ltb k dims lt) (
            at.0 k (omega arith)
            ∙ ap (λ (a : ℕ). digit counts a t k * side) (let e' : m ≡ dims = omega arith in e'))
        | no ge ↦ rw (le→ltb k dims (omega arith)) (at.1 k (omega arith))
      ] in
      rw id (record {
        result = ap (λ o. f t o s) here;
        kept = λ k hk. refl;
        blank = at.1;
        index = mod-eq_of_lt (omega arith);
      })
  iter_hypercubes-Visits (suc left) m e t s off fits at =
      let hm : m < dims = omega arith in
      let n = span counts (suc m) left in
      let fuel : counts m < size m + 1 = omega (arith, div-le_self (size m) side) in
      let start = update off m 0 in
      let run =
        side_loop-HasVisited m n t (iter_hypercubes left side size (suc m) f) hm
          (iter_hypercubes-Visits left (suc m) (omega arith)) (counts m) 0 (size m + 1)
          (t * (counts m * n)) s start (omega arith) fuel fits (omega arith)
          (update_self off m 0 m refl ∙ omega arith)
          (
            (λ k hk. update_ne off m 0 k (omega arith) ∙ at.0 k hk),
            (λ k hk. update_ne off m 0 k (omega arith) ∙ at.1 k hk),
          ) in
      let next : m + 1 ≡ suc m = omega arith in
      rw next (record {
        result = run.result;
        kept = λ k hk. run.kept k hk ∙ update_ne off m 0 k (omega arith);
        blank = run.blank;
        index = run.index;
      })

  -- The loops visit each hypercube once, in the order of the numbers.
  pub iter_hypercubes-rounds :
      span (cube_counts side size) 0 dims < 2 ^ 32
      → (s : S)
      → (iter_hypercubes dims side size 0 f (s, (λ d. 0), 0)).0
        ≡ rounds
            (span (cube_counts side size) 0 dims)
            0
            1
            (λ k. f k (cube_origin dims side size k))
            s
  iter_hypercubes-rounds fits s =
      let first : 0 * span (cube_counts side size) 0 dims ≡ 0 = omega arith in
      let start : IsAt 0 0 (λ d. 0) = ((λ e he. absurd (omega arith)), (λ e he. refl)) in
      rw first at
        ((iter_hypercubes-Visits dims 0 (omega arith) 0 s (λ d. 0) (omega arith) start).result)
