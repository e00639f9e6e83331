-- ===== src/Bytes/Places.antt =====
-- The bytes of a word, and the word of its bytes.
use native.Mathlib.Nat.{div-div-eq-div-mul}
use ndzip.Base.{
  ℕ, zero, suc, ◌+◌, ◌*◌, ◌/◌, ◌%◌, ◌^◌, ◌<◌, ◌≡◌, ap, sym, ◌∙◌, arith, pow256-suc, mul-add-lt,
}
use ndzip.Bytes.{byte_of, value_of}

pub value_of-lt : (n : ℕ) (f : ℕ → ℕ) → ((i : ℕ) → f i < 256) → value_of n f < 256 ^ n
value_of-lt zero f small = omega arith
value_of-lt (suc n) f small = rw pow256-suc (
    let l = mul-add-lt (f n) (value_of n f) 256 (256 ^ n) (small n) (value_of-lt n f small) in
    omega (arith, l))

-- The place 0 is the lowest byte.
value_of-suc : (n : ℕ) (f : ℕ → ℕ) → value_of (suc n) f ≡ value_of n (λ i. f (suc i)) * 256 + f 0
value_of-suc zero f = omega arith
value_of-suc (suc n) f = let h = value_of-suc n f in rw pow256-suc (omega (arith, h))

byte_of-zero : (v b : ℕ) → b < 256 → byte_of (v * 256 + b) 0 ≡ b
byte_of-zero v b small = omega arith

byte_of-suc : (v b i : ℕ) → b < 256 → byte_of (v * 256 + b) (suc i) ≡ byte_of v i
byte_of-suc v b i small =
    let low : (v * 256 + b) / 256 ≡ v = omega arith in
    rw pow256-suc (
      ap (λ (t : ℕ). t % 256)
        (sym (div-div-eq-div-mul (v * 256 + b) 256 (256 ^ i)) ∙ ap (λ (t : ℕ). t / 256 ^ i) low))

pub byte_of-value_of :
    (n : ℕ) (f : ℕ → ℕ) → ((i : ℕ) → f i < 256) → (i : ℕ) → i < n → byte_of (value_of n f) i ≡ f i
byte_of-value_of zero f small i hi = absurd (let no : ⊥ = omega arith in no)
byte_of-value_of (suc n) f small zero hi =
    ap (λ v. byte_of v 0) (value_of-suc n f)
    ∙ byte_of-zero (value_of n (λ i. f (suc i))) (f 0) (small 0)
byte_of-value_of (suc n) f small (suc i) hi =
    ap (λ v. byte_of v (suc i)) (value_of-suc n f)
    ∙ byte_of-suc (value_of n (λ i. f (suc i))) (f 0) i (small 0)
    ∙ byte_of-value_of n (λ i. f (suc i)) (λ i. small (suc i)) i (omega arith)
