-- ===== src/Transform/Power.antt =====
-- `ipow` computes the power, modulo the range of its type.
use native.Mathlib.Nat.{pow-suc, pow-zero, mod-eq_of_lt, mod-lt}
use ndzip.Base.{
  mod-mul-mod, mul-mod-mod, ℕ, zero, suc, ◌+◌, ◌*◌, ◌/◌, ◌%◌, ◌^◌, ◌<◌, ◌≡◌, ap, ◌∙◌, sym, arith,
  ◌==◌, if◌then◌else◌, pow2-pos, pow2-suc, Bool-cases, ==→eq, ==→ne, inl, inr,
}
use ndzip.Transform.{ipow_loop, ipow}

-- Powers of any base.
pub pow-add : (b j k : ℕ) → b ^ (j + k) ≡ b ^ j * b ^ k
pow-add b zero k = let e : 0 + k ≡ k = omega arith in rw (e, pow-zero b) (omega arith)
pow-add b (suc j) k =
    let e : suc j + k ≡ suc (j + k) = omega arith in
    rw (e, pow-suc b (j + k), pow-suc b j, pow-add b j k) (omega arith)

pow-square : (b k : ℕ) → (b * b) ^ k ≡ b ^ (2 * k)
pow-square b zero = rw (pow-zero (b * b)) (sym (pow-zero b))
pow-square b (suc k) =
    let e : 2 * suc k ≡ suc (suc (2 * k)) = omega arith in
    rw (e, pow-suc (b * b) k, pow-suc b (suc (2 * k)), pow-suc b (2 * k), pow-square b k)
      (omega arith)

pow-mod : (a k d : ℕ) → (a % d) ^ k % d ≡ a ^ k % d
pow-mod a zero d = rw (pow-zero (a % d), pow-zero a)
pow-mod a (suc k) d =
    rw (pow-suc (a % d) k, pow-suc a k)
      (mul-mod-mod ((a % d) ^ k) a d
        ∙ sym (mod-mul-mod ((a % d) ^ k) a d)
        ∙ ap (λ (t : ℕ). t * a % d) (pow-mod a k d)
        ∙ mod-mul-mod (a ^ k) a d)

-- The loop's invariant: `power * base ^ exponent` does not change modulo `2 ^ w`.
module _ (w : ℕ) where
  reduce :
      (power base k : ℕ)
      → power * (base * base % 2 ^ w) ^ k % 2 ^ w ≡ power * (base * base) ^ k % 2 ^ w
  reduce power base k =
      sym (mul-mod-mod power ((base * base % 2 ^ w) ^ k) (2 ^ w))
      ∙ ap (λ (t : ℕ). power * t % 2 ^ w) (pow-mod (base * base) k (2 ^ w))
      ∙ mul-mod-mod power ((base * base) ^ k) (2 ^ w)

  round_eq :
      (base e power : ℕ)
      → (if e % 2 == 1 then power * base % 2 ^ w else power)
          * (base * base % 2 ^ w) ^ (e / 2)
          % 2 ^ w
        ≡ power * base ^ e % 2 ^ w
  round_eq base e power = elim (Bool-cases (e % 2 == 1)) [
    | inl odd ↦
        let e' : e ≡ e / 2 * 2 + 1 = omega (arith, ==→eq (e % 2) 1 odd) in
        let f : base ^ e ≡ (base * base) ^ (e / 2) * base =
          ap (λ (t : ℕ). base ^ t) (let g : e ≡ suc (2 * (e / 2)) = omega arith in g)
          ∙ pow-suc base (2 * (e / 2))
          ∙ ap (λ (t : ℕ). t * base) (sym (pow-square base (e / 2))) in
        rw (odd, f)
          (reduce (power * base % 2 ^ w) base (e / 2)
            ∙ mod-mul-mod (power * base) ((base * base) ^ (e / 2)) (2 ^ w)
            ∙ ap (λ (t : ℕ). t % 2 ^ w) (omega arith))
    | inr even ↦
        let f : base ^ e ≡ (base * base) ^ (e / 2) =
          ap (λ (t : ℕ). base ^ t)
            (let g : e ≡ 2 * (e / 2) = omega (arith, ==→ne (e % 2) 1 even) in g)
          ∙ sym (pow-square base (e / 2)) in
        rw (even, f) (reduce power base (e / 2))
  ]

  ipow_loop-eq :
      (fuel base e power : ℕ)
      → e < fuel
      → power < 2 ^ w
      → ipow_loop w fuel base e power ≡ power * base ^ e % 2 ^ w
  unfolding ipow_loop
  ipow_loop-eq zero base e power h lt = absurd (omega arith)
  ipow_loop-eq (suc fuel) base e power h lt = elim (Bool-cases (e == 0)) [
    | inl done ↦
        rw (done, ==→eq e 0 done, pow-zero base)
          (sym (
            ap (λ (t : ℕ). t % 2 ^ w) (let f : power * 1 ≡ power = omega arith in f)
            ∙ mod-eq_of_lt lt))
    | inr more ↦ rw more (
        ipow_loop-eq fuel (base * base % 2 ^ w) (e / 2) _ (omega (arith, ==→ne e 0 more))
          (ground (arith, mod-lt (power * base) (pow2-pos w)))
        ∙ round_eq base e power)
  ]

one-lt-pow2 : (w : ℕ) → 0 < w → 1 < 2 ^ w
one-lt-pow2 zero h = absurd (omega arith)
one-lt-pow2 (suc m) h = omega (arith, pow2-suc m, pow2-pos m)

-- At an unsigned type of at least one bit, `ipow` is the power modulo the range of the type.
pub ipow-eq : (w base e : ℕ) → 0 < w → ipow w base e ≡ base ^ e % 2 ^ w
unfolding ipow
ipow-eq w base e hw =
    ipow_loop-eq w (e + 1) base e 1 (omega arith) (one-lt-pow2 w hw)
    ∙ ap (λ (t : ℕ). t % 2 ^ w) (omega arith)
