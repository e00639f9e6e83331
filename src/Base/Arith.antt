-- ===== src/Base/Arith.antt =====
-- Powers of two, quotients and remainders by products, induction on numbers.
use Prim.Native.Nat.{ℕ, zero, suc, ◌+◌, ◌*◌, ◌/◌, ◌%◌, ◌^◌, ◌<◌}
use mathlib.Core.Path.{◌≡◌, refl, ap}
use mathlib.Core.WellFounded.{Acc, WellFounded}
use native.Mathlib.Nat.{pow-suc, one-le-pow, le_refl, mul_assoc}
use native.Mathlib.Nat.{add-mul-div_right, add-mul-mod_self_right, div-eq_of_lt, mod-eq_of_lt}
use native.Mathlib.Nat.{div-add-mod', mul_comm}
use mathlib.Core.Path.{◌∙◌, sym}
use native.Mathlib.Omega.{arith}

acc_below : (k n : ℕ) → n < k → Acc ◌<◌ n
acc_below zero n h = absurd (omega arith)
acc_below (suc k) n h = Acc.intro n (λ m lt. acc_below k m (omega arith))

pub lt_wf : WellFounded ◌<◌
lt_wf = record { apply = λ n. acc_below (suc n) n (le_refl _) }

pub pow2-suc : (k : ℕ) → 2 ^ suc k ≡ 2 * 2 ^ k
pow2-suc k = omega (arith, pow-suc 2 k)

pub pow2-pos : (k : ℕ) → 0 < 2 ^ k
pow2-pos k = omega (arith, one-le-pow k 2)

pub pow2-add : (j k : ℕ) → 2 ^ (j + k) ≡ 2 ^ j * 2 ^ k
pow2-add zero k = let e : 0 + k ≡ k = omega arith in rw e (omega arith)
pow2-add (suc j) k =
    let e : suc j + k ≡ suc (j + k) = omega arith in
    rw (e, pow2-suc (j + k), pow2-suc j, pow2-add j k) (omega (arith, mul_assoc 2 (2 ^ j) (2 ^ k)))

pub pow256-suc : (k : ℕ) → 256 ^ suc k ≡ 256 * 256 ^ k
pow256-suc k = omega (arith, pow-suc 256 k)

pub pow2-mul8 : (k : ℕ) → 2 ^ (8 * k) ≡ 256 ^ k
pow2-mul8 zero = refl
pow2-mul8 (suc k) =
    let e : 8 * suc k ≡ 8 + 8 * k = omega arith in
    rw (e, pow2-add 8 (8 * k), pow2-mul8 k, pow256-suc k) (omega arith)

-- `q * d + r` with `r < d` has quotient `q` and remainder `r`.
pub div-mul-add : (q r d : ℕ) → r < d → (q * d + r) / d ≡ q
div-mul-add q r d h = omega (
  arith,
  ap (λ (t : ℕ). t / d) (let e : q * d + r ≡ r + q * d = omega arith in e),
  add-mul-div_right r q {z = d} (omega arith),
  div-eq_of_lt h,
)

pub mod-mul-add : (q r d : ℕ) → r < d → (q * d + r) % d ≡ r
mod-mul-add q r d h = omega (
  arith,
  ap (λ (t : ℕ). t % d) (let e : q * d + r ≡ r + q * d = omega arith in e),
  add-mul-mod_self_right r q d,
  mod-eq_of_lt h,
)

-- A product below a product of bounds.
pub mul-add-lt : (i j m n : ℕ) → i < m → j < n → i * n + j < m * n
mul-add-lt i j m n h k = grind arith

-- A factor may be reduced before the product is.
pub mod-mul-mod : (a b d : ℕ) → (a % d * b) % d ≡ a * b % d
mod-mul-mod a b d =
    let e : a * b ≡ a % d * b + a / d * b * d =
      omega (arith, ap (λ (t : ℕ). t * b) (div-add-mod' a d)) in
    sym (ap (λ (t : ℕ). t % d) e ∙ add-mul-mod_self_right (a % d * b) (a / d * b) d)

pub mul-mod-mod : (a b d : ℕ) → (a * (b % d)) % d ≡ a * b % d
mul-mod-mod a b d =
    ap (λ (t : ℕ). t % d) (mul_comm a (b % d))
    ∙ mod-mul-mod b a d
    ∙ ap (λ (t : ℕ). t % d) (mul_comm b a)
