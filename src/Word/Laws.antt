-- ===== src/Word/Laws.antt =====
-- The word operations undo one another.
use Prim.Native.Nat.{bit_or, bit_xor, differ}
use ndzip.Base.{
  ℕ, zero, suc, ◌+◌, ◌-◌, ◌%◌, ◌^◌, ◌≡◌, ap, ◌∙◌, arith, pow2-pos, sym, ◌/◌, ◌*◌, mod-mul-add,
}
use ndzip.Base.Bits.{bit, bit-ge, lt_of_bits, bit-bit_or, bit-bit_xor}
use ndzip.Word.{IsWord, add, sub}
use native.Mathlib.Nat.{mod-lt, div-add-mod'}

-- `(a + b) - b` and `(a - b) + b` are `a`.
pub sub-add : (w a b : ℕ) → IsWord w a → IsWord w b → sub w (add w a b) b ≡ a
sub-add w a b ha hb = grind (arith)

pub add-sub : (w a b : ℕ) → IsWord w a → IsWord w b → add w (sub w a b) b ≡ a
add-sub w a b ha hb = grind (arith)

pub sub_zero : (w a : ℕ) → IsWord w a → sub w a 0 ≡ a
sub_zero w a ha = grind arith

-- Everything that a word operation gives is a word.
pub sub-IsWord : (w a b : ℕ) → IsWord w (sub w a b)
sub-IsWord w a b = mod-lt _ (pow2-pos w)

pub add-IsWord : (w a b : ℕ) → IsWord w (add w a b)
add-IsWord w a b = mod-lt _ (pow2-pos w)

pub bit_or-IsWord : (w a b : ℕ) → IsWord w a → IsWord w b → IsWord w (bit_or a b)
bit_or-IsWord w a b ha hb =
    lt_of_bits (bit_or a b) w (bit_or a b) (omega arith)
      (λ k le. omega (arith, bit-bit_or a b k, bit-ge w a k ha le, bit-ge w b k hb le))

pub bit_xor-IsWord : (w a b : ℕ) → IsWord w a → IsWord w b → IsWord w (bit_xor a b)
bit_xor-IsWord w a b ha hb =
    lt_of_bits (bit_xor a b) w (bit_xor a b) (omega arith) (λ k le.
      bit-bit_xor a b k ∙ both (bit a k) (bit b k) (bit-ge w a k ha le) (bit-ge w b k hb le))
  where
    both : (x y : ℕ) → x ≡ 0 → y ≡ 0 → differ x y ≡ 0
    both zero y p q = q
    both (suc x) y p q = absurd (omega arith)

pub add_comm : (w a b : ℕ) → add w a b ≡ add w b a
add_comm w a b = let e : a + b ≡ b + a = omega arith in ap (λ (t : ℕ). t % 2 ^ w) e

-- A difference of words, with the number of wraps.
sub_wraps : (w a b : ℕ) → IsWord w b → (q : ℕ) × (sub w a b + b + q * 2 ^ w ≡ a + 2 ^ w)
sub_wraps w a b hb =
    let e = div-add-mod' (a + 2 ^ w - b) (2 ^ w) in ((a + 2 ^ w - b) / 2 ^ w, omega (arith, e))

unique_word : (w i j a b : ℕ) → IsWord w a → IsWord w b → i * 2 ^ w + a ≡ j * 2 ^ w + b → a ≡ b
unique_word w i j a b ha hb e =
    sym (mod-mul-add i a (2 ^ w) ha) ∙ ap (λ (t : ℕ). t % 2 ^ w) e ∙ mod-mul-add j b (2 ^ w) hb

wraps_sum :
    (m a b c d x y z t l r q1 q2 q3 q4 q5 q6 : ℕ)
    → x + b + q1 * m ≡ a + m
    → y + d + q2 * m ≡ c + m
    → l + y + q3 * m ≡ x + m
    → z + c + q4 * m ≡ a + m
    → t + d + q5 * m ≡ b + m
    → r + t + q6 * m ≡ z + m
    → (q1 + q3 + q5) * m + l ≡ (q2 + q4 + q6) * m + r
wraps_sum m a b c d x y z t l r q1 q2 q3 q4 q5 q6 e1 e2 e3 e4 e5 e6 = omega arith

-- Differences of differences, in either order.
pub sub-sub :
    (w a b c d : ℕ)
    → IsWord w b
    → IsWord w c
    → IsWord w d
    → sub w (sub w a b) (sub w c d) ≡ sub w (sub w a c) (sub w b d)
sub-sub w a b c d hb hc hd =
    let (q1, e1) = sub_wraps w a b hb in
    let (q2, e2) = sub_wraps w c d hd in
    let (q3, e3) = sub_wraps w (sub w a b) (sub w c d) (sub-IsWord w c d) in
    let (q4, e4) = sub_wraps w a c hc in
    let (q5, e5) = sub_wraps w b d hd in
    let (q6, e6) = sub_wraps w (sub w a c) (sub w b d) (sub-IsWord w b d) in
    unique_word w (q1 + q3 + q5) (q2 + q4 + q6) _ _ (sub-IsWord w (sub w a b) (sub w c d))
      (sub-IsWord w (sub w a c) (sub w b d))
      (wraps_sum (2 ^ w) a b c d (sub w a b) (sub w c d) (sub w a c) (sub w b d) _ _ q1 q2 q3 q4 q5
        q6 e1 e2 e3 e4 e5 e6)
