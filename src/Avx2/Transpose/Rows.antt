-- ===== src/Avx2/Transpose/Rows.antt =====
-- The extraction of the top bits gives the rows of the transpose.
use native.Mathlib.Decide.{ℕ_discrete}
use ndzip.Base.{
  ℕ, zero, suc, ◌+◌, ◌-◌, ◌*◌, ◌/◌, ◌%◌, ◌^◌, ◌≤◌, ◌<◌, ◌≡◌, ap, ◌∙◌, sym, arith, ◌==◌,
  if◌then◌else◌, pow2-suc, pow2-mul8, div-mul-add, mod-mul-add,
}
use ndzip.Base.Bits.{bit, bit-div_pow2, bit-mod_pow2}
use ndzip.Memory.{Memory}
use ndzip.Avx2.Transpose.{array_byte, Bytes256, slli_epi32_1, top_bits, movemask_epi8}

top_bits-lt : (n : ℕ) (v : Bytes256) → top_bits n v < 2 ^ n
top_bits-lt zero v = omega arith
top_bits-lt (suc n) v =
    let small : v n / 128 % 2 * 2 ^ n ≤ 2 ^ n =
      (let c : v n / 128 % 2 < 2 = omega arith in grind (arith, c)) in
    omega (arith, top_bits-lt n v, pow2-suc n, small)

-- The digits of two numbers side by side.
pub join-low : (n m c t : ℕ) → m < 2 ^ n → t < n → bit (c * 2 ^ n + m) t ≡ bit m t
join-low n m c t lt h =
    sym (bit-mod_pow2 n t (c * 2 ^ n + m) h) ∙ ap (λ (a : ℕ). bit a t) (mod-mul-add c m (2 ^ n) lt)

pub join-high : (n m c t : ℕ) → m < 2 ^ n → bit (c * 2 ^ n + m) (n + t) ≡ bit c t
join-high n m c t lt =
    sym (bit-div_pow2 n t (c * 2 ^ n + m)) ∙ ap (λ (a : ℕ). bit a t) (div-mul-add c m (2 ^ n) lt)

-- Each digit is the top bit of its byte.
top_bits-bit : (n : ℕ) (v : Bytes256) (t : ℕ) → t < n → bit (top_bits n v) t ≡ v t / 128 % 2
top_bits-bit zero v t h = absurd (omega (arith, h))
top_bits-bit (suc n) v t h =
    let c = v n / 128 % 2 in
    let swap : top_bits (suc n) v ≡ c * 2 ^ n + top_bits n v = omega arith in
    elim (ℕ_discrete t n) [
      | yes e ↦
          let at : t ≡ n + 0 = omega (arith, e) in
          ap (λ (a : ℕ). bit a t) swap
          ∙ ap (bit (c * 2 ^ n + top_bits n v)) at
          ∙ join-high n (top_bits n v) c 0 (top_bits-lt n v)
          ∙ (let last : bit c 0 ≡ v n / 128 % 2 = omega arith in last)
          ∙ ap (λ (b : ℕ). v b / 128 % 2) (sym e)
      | no ne ↦
          ap (λ (a : ℕ). bit a t) swap
          ∙ join-low n (top_bits n v) c t (top_bits-lt n v) (omega (arith, h, ne))
          ∙ top_bits-bit n v t (omega (arith, h, ne))
    ]

-- After `j` shifts the top bit of a byte is its bit `7 - j`.
unfoldable pub shifted : ℕ → Bytes256 → Bytes256
shifted zero v = v
shifted (suc j) v = slli_epi32_1 (shifted j v)

abbrev pub AreBytes : Bytes256 → Type 0
AreBytes v = (k : ℕ) → v k < 256

shifted-AreBytes : (j : ℕ) (v : Bytes256) → AreBytes v → AreBytes (shifted j v)
unfolding shifted
shifted-AreBytes zero v h k = h k
shifted-AreBytes (suc j) v h k = omega arith

slli-bit :
    (v : Bytes256) → AreBytes v → (k p : ℕ) → p < 7 → bit (slli_epi32_1 v k) (suc p) ≡ bit (v k) p
slli-bit v bytes k p h =
    let carry = if k % 4 == 0 then 0 else v (k - 1) / 128 in
    let small : carry < 2 = ground (arith, bytes (k - 1)) in
    let halved : (v k * 2 + carry) / 2 ≡ v k = omega (arith, small) in
    bit-mod_pow2 8 (suc p) (v k * 2 + carry) (omega (arith, h)) ∙ ap (λ (a : ℕ). bit a p) halved

shifted-bit :
    (j : ℕ) (v : Bytes256)
    → AreBytes v
    → (k p : ℕ) → j ≤ p
    → p < 8
    → bit (shifted j v k) p ≡ bit (v k) (p - j)
unfolding shifted
shifted-bit zero v bytes k p le lt = ap (bit (v k)) (let e : p ≡ p - 0 = omega arith in e)
shifted-bit (suc j) v bytes k zero le lt = absurd (omega (arith, le))
shifted-bit (suc j) v bytes k (suc p) le lt =
    slli-bit (shifted j v) (shifted-AreBytes j v bytes) k p (omega (arith, lt))
    ∙ shifted-bit j v bytes k p (omega (arith, le)) (omega (arith, lt))
    ∙ ap (bit (v k)) (let e : p - j ≡ suc p - suc j = omega arith in e)

pub movemask-shifted :
    (j : ℕ) (v : Bytes256) (t : ℕ)
    → AreBytes v
    → j < 8
    → t < 32
    → bit (movemask_epi8 (shifted j v)) t ≡ bit (v t) (7 - j)
movemask-shifted j v t bytes hj ht =
    top_bits-bit 32 (shifted j v) t ht
    ∙ (let top : shifted j v t / 128 % 2 ≡ bit (shifted j v t) 7 = omega arith in top)
    ∙ shifted-bit j v bytes t 7 (omega (arith, hj)) (omega arith)

pub movemask-lt : (v : Bytes256) → movemask_epi8 v < 2 ^ 32
movemask-lt v = top_bits-lt 32 v

-- A bit of a byte of an array of words.
pub array_byte-bit :
    (bytes : ℕ) (vs : Memory) (q r p : ℕ)
    → r < bytes
    → p < 8
    → bit (array_byte bytes vs (bytes * q + r)) p ≡ bit (vs q) (8 * r + p)
array_byte-bit bytes vs q r p hr hp =
    let swap : bytes * q + r ≡ q * bytes + r = omega arith in
    ap (λ (m : ℕ). bit (array_byte bytes vs m) p) swap
    ∙ ap (λ (m : ℕ). bit (vs m / 256 ^ ((q * bytes + r) % bytes) % 256) p)
        (div-mul-add q r bytes hr)
    ∙ ap (λ (m : ℕ). bit (vs q / 256 ^ m % 256) p) (mod-mul-add q r bytes hr)
    ∙ bit-mod_pow2 8 p (vs q / 256 ^ r) hp
    ∙ ap (λ (m : ℕ). bit (vs q / m) p) (sym (pow2-mul8 r))
    ∙ bit-div_pow2 (8 * r) p (vs q)
