-- ===== src/Avx2/Transpose/Equal.antt =====
-- `transpose_bits_avx2` gives the result of `transpose_bits_trivial`.
use native.Mathlib.Nat.{mod-lt}
use native.Mathlib.Decide.{ℕ_discrete, dec_lt}
use ndzip.Base.{
  ℕ, suc, ◌+◌, ◌-◌, ◌*◌, ◌/◌, ◌%◌, ◌^◌, ◌<◌, ◌≡◌, refl, ap, ◌∙◌, sym, inr, fun_ext, arith,
  if◌then◌else◌, ltb, lt→ltb, le→ltb, for_up, for_up_inv,
}
use ndzip.Base.Bits.{bit, bit_ext}
use ndzip.Memory.{Memory, update, update_self, update_ne}
use ndzip.ZeroBit.{transpose_bits_trivial}
use ndzip.ZeroBit.Transpose.{
  IsRow, transpose_bits_trivial-IsTranspose, transpose_bits_trivial_outside,
}
use ndzip.Avx2.Transpose.{
  array_byte, Bytes256, load_bytes, movemask_epi8, perm2_32, extract_32, transpose_bits_avx2_32,
  shuf0_64, extract_64, transpose_bits_avx2_64,
}
use ndzip.Avx2.Transpose.Shuffles.{perm2_32-byte, perm2_32-lt, shuf0_64-byte, shuf0_64-lt}
use ndzip.Avx2.Transpose.Rows.{
  shifted, movemask-shifted, movemask-lt, array_byte-bit, join-low, join-high,
}

-- Rows that are written one after the other, eight for each register.
module _ (row : ℕ → ℕ → ℕ) (out : Memory) where
  abbrev RowsUpTo : ℕ → Memory → Type 0
  RowsUpTo c y = (a : ℕ) → y a ≡ (if ltb a c then row (a / 8) (a % 8) else out a)

  RowsUpTo-suc :
      (i j : ℕ) (y : Memory)
      → j < 8
      → RowsUpTo (i * 8 + j) y
      → RowsUpTo (i * 8 + suc j) (update y (i * 8 + j) (row i j))
  RowsUpTo-suc i j y hj h a = elim (ℕ_discrete a (i * 8 + j)) [
    | yes e ↦
        let q : a / 8 ≡ i = omega (arith, e, hj) in
        let r : a % 8 ≡ j = omega (arith, e, hj) in
        update_self y (i * 8 + j) (row i j) a e
        ∙ rw (q, r, lt→ltb a (i * 8 + suc j) (omega (arith, e))) refl
    | no ne ↦ update_ne y (i * 8 + j) (row i j) a ne ∙ h a ∙ ground (arith, ne)
  ]

-- A loop over registers, whose inner loop writes the rows of one register and shifts it.
module _ {R : Type 0} (row : ℕ → ℕ → ℕ) (first : ℕ → R) (nth : ℕ → R → R)
    (extract : ℕ → ℕ → Memory × R → Memory × R)
    (writes : (i j : ℕ) (y : Memory)
      → extract i j (y, nth j (first i)) ≡ (update y (i * 8 + j) (row i j), nth (suc j) (first i)))
    (unshifted : (r : R) → nth 0 r ≡ r) (registers : ℕ) (out : Memory) where
  pub extracted :
      (a : ℕ)
      → for_up 0 registers 1 (λ i out. (for_up 0 8 1 (extract i) (out, first i)).0) out a
        ≡ (if ltb a (registers * 8) then row (a / 8) (a % 8) else out a)
  extracted =
      for_up_inv (λ i y. RowsUpTo row out (i * 8) y) registers 0 registers 1
        (λ i out. (for_up 0 8 1 (extract i) (out, first i)).0) out (omega arith) (omega arith)
        (λ i y hi h.
          let index : 0 + i * 1 ≡ i = omega arith in
          let inner =
            for_up_inv (λ j t. RowsUpTo row out (i * 8 + j) t.0 × (t.1 ≡ nth j (first i))) 8 0 8 1
              (extract i) (y, first i) (omega arith) (omega arith)
              (λ j t hj (rows, shifts).
                let index' : 0 + j * 1 ≡ j = omega arith in
                let here : extract i j t
                    ≡ (update t.0 (i * 8 + j) (row i j), nth (suc j) (first i)) =
                  ap (λ (r : R). extract i j (t.0, r)) shifts ∙ writes i j t.0 in
                rw (index', here) (RowsUpTo-suc row out i j t.0 hj rows, refl))
              ((λ a. h a ∙ ground arith), sym (unshifted (first i))) in
          rw index (λ a. inner.0 a ∙ ground arith))
        (λ a. ground arith)

-- What has the rows of the transpose, and nothing else changed, is what the trivial loop gives.
rows-eq :
    (w : ℕ) (vs out y : Memory) (row : ℕ → ℕ)
    → ((a : ℕ) → y a ≡ (if ltb a w then row a else out a))
    → ((a : ℕ) → a < w → IsRow w vs 0 a (row a))
    → y ≡ transpose_bits_trivial w vs 0 out
rows-eq w vs out y row e rows = fun_ext λ a. elim (dec_lt a w) [
  | yes lt ↦
      let there = transpose_bits_trivial-IsTranspose w vs 0 out a lt in
      let here = rows a lt in
      let at : 0 + a ≡ a = omega arith in
      e a
      ∙ rw (lt→ltb a w lt) (
          bit_ext w (row a) (transpose_bits_trivial w vs 0 out (0 + a)) here.0 there.0
            (λ t ht. here.1 t ht ∙ sym (there.1 t ht))
          ∙ ap (transpose_bits_trivial w vs 0 out) at)
  | no ge ↦
      e a
      ∙ rw (le→ltb a w (omega (arith, ge)))
          (sym (transpose_bits_trivial_outside w vs 0 out a (inr (omega (arith, ge)))))
]

array_byte-lt : (bytes : ℕ) (vs : Memory) (m : ℕ) → array_byte bytes vs m < 256
array_byte-lt bytes vs m = omega arith

module _ (vs out : Memory) where
  abbrev perm2 : ℕ → Bytes256
  perm2 = perm2_32 (load_bytes (array_byte 4 vs))

  avx2_32-IsRow :
      (a : ℕ) → a < 32 → IsRow 32 vs 0 a (movemask_epi8 (shifted (a % 8) (perm2 (a / 8))))
  avx2_32-IsRow a ha = (
    movemask-lt (shifted (a % 8) (perm2 (a / 8))),
    λ t ht.
        let i = a / 8 in
        let place : 8 * (3 - i) + (7 - a % 8) ≡ 31 - a = omega (arith, ha) in
        movemask-shifted (a % 8) (perm2 i) t (perm2_32-lt (array_byte 4 vs) i (array_byte-lt 4 vs))
          (mod-lt a (omega arith)) ht
        ∙ ap (λ (b : ℕ). bit b (7 - a % 8))
            (perm2_32-byte (array_byte 4 vs) i t (omega (arith, ha)) ht)
        ∙ array_byte-bit 4 vs (31 - t) (3 - i) (7 - a % 8) (omega arith) (omega arith)
        ∙ ap (bit (vs (31 - t))) place,
  )

  -- For 32-bit words: the AVX2 transpose leaves the array as the trivial transpose does, whatever the
  -- words and the array are.
  pub transpose_bits_avx2_32-eq-transpose_bits_trivial :
      transpose_bits_avx2_32 vs out ≡ transpose_bits_trivial 32 vs 0 out
  unfolding transpose_bits_avx2_32 extract_32 shifted
  transpose_bits_avx2_32-eq-transpose_bits_trivial =
      rows-eq 32 vs out (transpose_bits_avx2_32 vs out)
        (λ a. movemask_epi8 (shifted (a % 8) (perm2 (a / 8))))
        (extracted (λ i j. movemask_epi8 (shifted j (perm2 i))) perm2 shifted extract_32
          (λ i j y. refl) (λ r. refl) 4 out)
        avx2_32-IsRow

  abbrev shuf0 : ℕ → Bytes256
  shuf0 = shuf0_64 (load_bytes (array_byte 8 vs))

  abbrev shift_both : ℕ → Bytes256 × Bytes256 → Bytes256 × Bytes256
  shift_both j (lower, upper) = (shifted j lower, shifted j upper)

  abbrev joined : ℕ → ℕ → ℕ
  joined i j =
      movemask_epi8 (shifted j (shuf0 (2 * i)))
      + movemask_epi8 (shifted j (shuf0 (2 * i + 1))) * 2 ^ 32

  -- One half of a row.
  half_row :
      (a m t : ℕ)
      → a < 64
      → m / 2 ≡ a / 8
      → m < 16
      → t < 32
      → bit (movemask_epi8 (shifted (a % 8) (shuf0 m))) t
        ≡ bit (vs (63 - (m % 2 * 32 + t))) (63 - a)
  half_row a m t ha hm lt ht =
      let place : 8 * (7 - m / 2) + (7 - a % 8) ≡ 63 - a = omega (arith, ha, hm) in
      movemask-shifted (a % 8) (shuf0 m) t (shuf0_64-lt (array_byte 8 vs) m (array_byte-lt 8 vs))
        (mod-lt a (omega arith)) ht
      ∙ ap (λ (b : ℕ). bit b (7 - a % 8)) (shuf0_64-byte (array_byte 8 vs) m t lt ht)
      ∙ array_byte-bit 8 vs (63 - (m % 2 * 32 + t)) (7 - m / 2) (7 - a % 8) (omega arith)
          (omega arith)
      ∙ ap (bit (vs (63 - (m % 2 * 32 + t)))) place

  avx2_64-IsRow : (a : ℕ) → a < 64 → IsRow 64 vs 0 a (joined (a / 8) (a % 8))
  avx2_64-IsRow a ha =
      let lower = movemask_epi8 (shifted (a % 8) (shuf0 (2 * (a / 8)))) in
      let upper = movemask_epi8 (shifted (a % 8) (shuf0 (2 * (a / 8) + 1))) in
      let lower-lt = movemask-lt (shifted (a % 8) (shuf0 (2 * (a / 8)))) in
      let upper-lt = movemask-lt (shifted (a % 8) (shuf0 (2 * (a / 8) + 1))) in
      let swap : lower + upper * 2 ^ 32 ≡ upper * 2 ^ 32 + lower = omega arith in
      (
        omega (arith, lower-lt, upper-lt),
        λ t ht. ap (λ (b : ℕ). bit b t) swap ∙ elim (dec_lt t 32) [
          | yes low ↦
              join-low 32 lower upper t lower-lt low
              ∙ half_row a (2 * (a / 8)) t ha (omega arith) (omega (arith, ha)) low
              ∙ ap (λ (k : ℕ). bit (vs k) (63 - a))
                  (let e : 63 - (2 * (a / 8) % 2 * 32 + t) ≡ 63 - t = omega arith in e)
          | no high ↦
              let at : t ≡ 32 + (t - 32) = omega (arith, high) in
              ap (bit (upper * 2 ^ 32 + lower)) at
              ∙ join-high 32 lower upper (t - 32) lower-lt
              ∙ half_row a (2 * (a / 8) + 1) (t - 32) ha (omega arith) (omega (arith, ha))
                  (omega (arith, ht, high))
              ∙ ap (λ (k : ℕ). bit (vs k) (63 - a))
                  (let e : 63 - ((2 * (a / 8) + 1) % 2 * 32 + (t - 32)) ≡ 63 - t =
                      omega (arith, high) in
                    e)
        ],
      )

  -- For 64-bit words: the AVX2 transpose leaves the array as the trivial transpose does, whatever the
  -- words and the array are.
  pub transpose_bits_avx2_64-eq-transpose_bits_trivial :
      transpose_bits_avx2_64 vs out ≡ transpose_bits_trivial 64 vs 0 out
  unfolding transpose_bits_avx2_64 extract_64 shifted
  transpose_bits_avx2_64-eq-transpose_bits_trivial =
      rows-eq 64 vs out (transpose_bits_avx2_64 vs out) (λ a. joined (a / 8) (a % 8))
        (extracted joined (λ i. (shuf0 (2 * i), shuf0 (2 * i + 1))) shift_both extract_64
          (λ i j y. refl) (λ r. refl) 8 out)
        avx2_64-IsRow
