-- ===== src/Tests/Residuals.antt =====
-- The residual coder on bytes: chunks of eight words of eight bits.
use ndzip.Base.{
  ℕ, zero, suc, ◌+◌, ◌-◌, ◌*◌, ◌%◌, ◌^◌, ◌≤◌, ◌<◌, ◌≡◌, ◌⊎◌, ◌↔◌, refl, arith, [], ◌∷◌, map,
}
use ndzip.Base.Bits.{bit, bit-mul_pow2_low}
use ndzip.Memory.{Memory, update}
use ndzip.ZeroBit.{
  generate_zero_map, transpose_bits_trivial, compact_zero_words, expand_zero_words, zero_bit_encode,
  zero_bit_decode,
}
use ndzip.ZeroBit.Words.{IsHead}
use ndzip.ZeroBit.ZeroMap.{generate_zero_map-eq-zero}
use ndzip.ZeroBit.RoundTrip.{
  transpose_bits_trivial_twice, expand_zero_words-compact_zero_words,
  zero_bit_decode-zero_bit_encode, zero_bit_encode_bounds,
}

abbrev blank : Memory
blank a = 0

abbrev noise : Memory
noise a = (a * 77 + 5) % 256

-- One chunk of small words and one of zeros.
abbrev cube : Memory
cube zero = 3
cube (suc zero) = 1
cube a = 0

encoded : (zero_bit_encode 1 noise cube 0 16 blank).0 ≡ 4
unfolding zero_bit_encode update
encoded = refl

stored :
    map (zero_bit_encode 1 noise cube 0 16 blank).1 (0 ∷ 1 ∷ 2 ∷ 3 ∷ 4 ∷ [])
    ≡ 3 ∷ 0 ∷ 0x80 ∷ 0xc0 ∷ 0 ∷ []
unfolding zero_bit_encode update
stored = refl

cube-IsWord : (a : ℕ) → a < 2 * 8 → cube a < 2 ^ 8
cube-IsWord zero h = omega arith
cube-IsWord (suc zero) h = omega arith
cube-IsWord (suc (suc a)) h = omega arith

noise-IsWord : (a : ℕ) → a < 8 → noise a < 2 ^ 8
noise-IsWord a h = omega arith

generate_zero_map-eq-zero_example :
    (generate_zero_map 8 noise ≡ 0) ↔ ((j : ℕ) → j < 8 → noise j ≡ 0)
generate_zero_map-eq-zero_example = generate_zero_map-eq-zero 8 noise noise-IsWord

transpose_bits_trivial_twice_example :
    transpose_bits_trivial 8 (transpose_bits_trivial 8 noise 0 blank) 16 cube (16 + 3) ≡ noise 3
transpose_bits_trivial_twice_example =
    transpose_bits_trivial_twice 8 noise blank cube 16 noise-IsWord 3 (omega arith)

zero_bit_decode-zero_bit_encode_example :
    let encoded = zero_bit_encode 1 noise cube 5 (2 * 8) blank in
    let decoded = zero_bit_decode 1 cube encoded.1 5 (2 * 8) noise in
    (decoded.0 ≡ encoded.0)
    × ((a : ℕ) → a < 2 * 8 → decoded.1 a ≡ cube a)
    × ((a : ℕ) → 2 * 8 ≤ a → decoded.1 a ≡ noise a)
zero_bit_decode-zero_bit_encode_example =
    zero_bit_decode-zero_bit_encode 1 (omega arith) 2 5 noise cube blank cube-IsWord cube noise

zero_bit_encode_bounds_example :
    let encoded = zero_bit_encode 1 noise cube 5 (2 * 8) blank in
    (encoded.0 ≤ 2 * (8 + 1) * 1)
    × ((a : ℕ) → (a < 5) ⊎ (5 + encoded.0 ≤ a) → encoded.1 a ≡ blank a)
zero_bit_encode_bounds_example =
    zero_bit_encode_bounds 1 (omega arith) 2 5 noise cube blank cube-IsWord

-- The head of the words 3, 1, 0, …: its two top bits.
cube-IsHead : IsHead 1 cube 0 0xc0
cube-IsHead zero h = ground arith
cube-IsHead (suc zero) h = ground arith
cube-IsHead (suc (suc i)) h =
    let clear : bit (3 * 2 ^ 6) (7 - suc (suc i)) ≡ 0 =
      bit-mul_pow2_low 6 (7 - suc (suc i)) 3 (omega arith) in
    ((λ e. refl), (λ e. clear))

expand_zero_words-compact_zero_words_example :
    let packed = compact_zero_words 1 cube 0 noise in
    let unpacked = expand_zero_words 1 packed.1 0 blank 0xc0 in
    (unpacked.0 ≡ packed.0) × ((i : ℕ) → i < 8 → unpacked.1 i ≡ cube i)
expand_zero_words-compact_zero_words_example =
    expand_zero_words-compact_zero_words 1 cube 0 0xc0 noise blank
      (λ i h. cube-IsWord i (omega arith)) cube-IsHead
