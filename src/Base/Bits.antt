-- ===== src/Base/Bits.antt =====
-- The binary digits of a number, and what the native bit operations do to them.
use Prim.Native.Nat.{digits, differ, bit_or-bitwise, bit_xor-bitwise}
use Prim.Native.Nat.{ℕ, zero, suc, ◌+◌, ◌*◌, ◌/◌, ◌%◌, ◌^◌, ◌≤◌, ◌<◌, max, bit_or, bit_xor}
use mathlib.Core.Path.{◌≡◌, refl, ap, ◌∙◌, sym}
use native.Mathlib.Nat.{le_refl, div-div-eq-div-mul, div-add-mod', mod-lt}
use native.Mathlib.Omega.{arith}
use ndzip.Base.Arith.{pow2-suc, pow2-pos, mod-mul-add}

-- The digit of weight `2 ^ k`.
abbrev pub bit : ℕ → ℕ → ℕ
bit a zero = a % 2
bit a (suc k) = bit (a / 2) k

pub bit-lt : (a k : ℕ) → bit a k < 2
bit-lt a zero = omega arith
bit-lt a (suc k) = bit-lt (a / 2) k

pub bit-eq : (a k : ℕ) → bit a k ≡ a / 2 ^ k % 2
bit-eq a zero = omega arith
bit-eq a (suc k) =
    bit-eq (a / 2) k
    ∙ ap (λ (t : ℕ). t % 2)
        (div-div-eq-div-mul a 2 (2 ^ k) ∙ ap (λ (t : ℕ). a / t) (sym (pow2-suc k)))

pub zero-bit : (k : ℕ) → bit 0 k ≡ 0
zero-bit zero = refl
zero-bit (suc k) = zero-bit k

-- Numbers below `2 ^ w` are told apart by their digits.
pub bit_ext : (w a b : ℕ) → a < 2 ^ w → b < 2 ^ w → ((k : ℕ) → k < w → bit a k ≡ bit b k) → a ≡ b
bit_ext zero a b ha hb h = omega arith
bit_ext (suc w) a b ha hb h =
    let half : a / 2 ≡ b / 2 =
      bit_ext w (a / 2) (b / 2) (omega (arith, pow2-suc w)) (omega (arith, pow2-suc w))
        (λ k lt. h (suc k) (omega arith)) in
    let low : a % 2 ≡ b % 2 = h 0 (omega arith) in omega arith

-- Every digit of a number below `2 ^ w` from place `w` on is 0.
pub bit-ge : (w a k : ℕ) → a < 2 ^ w → w ≤ k → bit a k ≡ 0
bit-ge zero a k h le = let e : a ≡ 0 = omega arith in rw e (zero-bit k)
bit-ge (suc w) a zero h le = absurd (omega arith)
bit-ge (suc w) a (suc k) h le = bit-ge w (a / 2) k (omega (arith, pow2-suc w)) (omega arith)

-- A number whose digits from place `w` on are 0 is below `2 ^ w`.
pub lt_of_bits : (n w a : ℕ) → a ≤ n → ((k : ℕ) → w ≤ k → bit a k ≡ 0) → a < 2 ^ w
lt_of_bits n (suc w) a le h =
    omega
      (arith, pow2-suc w, lt_of_bits n w (a / 2) (omega arith) (λ k hk. h (suc k) (omega arith)))
lt_of_bits zero zero a le h = omega arith
lt_of_bits (suc n) zero zero le h = omega arith
lt_of_bits (suc n) zero (suc a) le h =
    let rest = lt_of_bits n zero (suc a / 2) (omega arith) (λ k hk. h (suc k) (omega arith)) in
    let low : suc a % 2 ≡ 0 = h 0 (omega arith) in omega arith

-- An operation on digits that leaves the other number alone where its first digit is 0.
module _ (f : ℕ → ℕ → ℕ) (small : (x y : ℕ) → x < 2 → y < 2 → f x y < 2)
    (left : (y : ℕ) → y < 2 → f 0 y ≡ y) where
  digits-bit : (n k a b : ℕ) → a ≤ n → bit (digits (λ y. y) f n a b) k ≡ f (bit a k) (bit b k)
  digits-bit zero k zero b le = rw (zero-bit k) (sym (left (bit b k) (bit-lt b k)))
  digits-bit zero k (suc a) b le = absurd (omega arith)
  digits-bit (suc n) k zero b le = rw (zero-bit k) (sym (left (bit b k) (bit-lt b k)))
  digits-bit (suc n) zero (suc a) b le =
      omega (arith, small (suc a % 2) (b % 2) (omega arith) (omega arith))
  digits-bit (suc n) (suc k) (suc a) b le =
      let x = suc a / 2 in
      let low = small (suc a % 2) (b % 2) (omega arith) (omega arith) in
      let half : (digits (λ y. y) f n x (b / 2) * 2 + f (suc a % 2) (b % 2)) / 2
          ≡ digits (λ y. y) f n x (b / 2) =
        omega arith in
      rw half (digits-bit n k x (b / 2) (omega arith))

pub bit-bit_or : (a b k : ℕ) → bit (bit_or a b) k ≡ max (bit a k) (bit b k)
bit-bit_or a b k =
    ap (λ (t : ℕ). bit t k) (bit_or-bitwise a b)
    ∙ digits-bit max (λ x y p q. omega arith) (λ y q. omega arith) a k a b (le_refl a)

differ-le-max : (x y : ℕ) → differ x y ≤ max x y
differ-le-max zero y = omega arith
differ-le-max (suc x) zero = omega arith
differ-le-max (suc x) (suc y) = omega (arith, differ-le-max x y)

pub bit-bit_xor : (a b k : ℕ) → bit (bit_xor a b) k ≡ differ (bit a k) (bit b k)
bit-bit_xor a b k =
    ap (λ (t : ℕ). bit t k) (bit_xor-bitwise a b)
    ∙ digits-bit differ (λ x y p q. omega (arith, differ-le-max x y)) (λ y q. refl) a k a b
        (le_refl a)

-- Shifts move the digits, and a remainder by `2 ^ w` keeps the first `w`.
pub bit-mul_pow2 : (s k a : ℕ) → bit (a * 2 ^ s) (s + k) ≡ bit a k
bit-mul_pow2 zero k a =
    let at : 0 + k ≡ k = omega arith in let e : a * 2 ^ 0 ≡ a = omega arith in rw (at, e)
bit-mul_pow2 (suc s) k a =
    let at : suc s + k ≡ suc (s + k) = omega arith in
    let half : a * 2 ^ suc s / 2 ≡ a * 2 ^ s = omega (arith, ap (λ (t : ℕ). a * t) (pow2-suc s)) in
    rw at (ap (λ (t : ℕ). bit t (s + k)) half ∙ bit-mul_pow2 s k a)

pub bit-mul_pow2_low : (s k a : ℕ) → k < s → bit (a * 2 ^ s) k ≡ 0
bit-mul_pow2_low zero k a h = absurd (omega arith)
bit-mul_pow2_low (suc s) zero a h = omega (arith, ap (λ (t : ℕ). a * t) (pow2-suc s))
bit-mul_pow2_low (suc s) (suc k) a h =
    let half : a * 2 ^ suc s / 2 ≡ a * 2 ^ s = omega (arith, ap (λ (t : ℕ). a * t) (pow2-suc s)) in
    rw half (bit-mul_pow2_low s k a (omega arith))

pub bit-div_pow2 : (s k a : ℕ) → bit (a / 2 ^ s) k ≡ bit a (s + k)
bit-div_pow2 zero k a =
    let at : 0 + k ≡ k = omega arith in let e : a / 2 ^ 0 ≡ a = omega arith in rw (at, e)
bit-div_pow2 (suc s) k a =
    let at : suc s + k ≡ suc (s + k) = omega arith in
    let e : a / 2 ^ suc s ≡ a / 2 / 2 ^ s =
      ap (λ (t : ℕ). a / t) (pow2-suc s) ∙ sym (div-div-eq-div-mul a 2 (2 ^ s)) in
    rw at (ap (λ (t : ℕ). bit t k) e ∙ bit-div_pow2 s k (a / 2))

mod-double : (a d : ℕ) → 0 < d → a % (2 * d) ≡ a % 2 + 2 * (a / 2 % d)
mod-double a d pos =
    let e : a ≡ a / 2 / d * (2 * d) + (a % 2 + 2 * (a / 2 % d)) =
      omega (arith, div-add-mod' (a / 2) d) in
    ap (λ (t : ℕ). t % (2 * d)) e
    ∙ mod-mul-add (a / 2 / d) (a % 2 + 2 * (a / 2 % d)) (2 * d) (omega (arith, mod-lt (a / 2) pos))

pub bit-mod_pow2 : (w k a : ℕ) → k < w → bit (a % 2 ^ w) k ≡ bit a k
bit-mod_pow2 zero k a h = absurd (omega arith)
bit-mod_pow2 (suc w) zero a h = rw (pow2-suc w, mod-double a (2 ^ w) (pow2-pos w)) (omega arith)
bit-mod_pow2 (suc w) (suc k) a h =
    let e : a % 2 ^ suc w ≡ a % 2 + 2 * (a / 2 % 2 ^ w) =
      rw (pow2-suc w) (mod-double a (2 ^ w) (pow2-pos w)) in
    let half : a % 2 ^ suc w / 2 ≡ a / 2 % 2 ^ w = omega arith in
    ap (λ (t : ℕ). bit t k) half ∙ bit-mod_pow2 w k (a / 2) (omega arith)
