-- ===== src/ZeroBit/Decode.antt =====
-- `zero_bit_decode` reads the cube back from the layout of `Chunks`.
use native.Mathlib.Nat.{mul-div_left}
use native.Mathlib.Decide.{ℕ_discrete, dec_lt}
use ndzip.Base.{
  ℕ, suc, ◌+◌, ◌-◌, ◌*◌, ◌/◌, ◌≤◌, ◌<◌, ◌≡◌, refl, ap, ◌∙◌, sym, ◌⊎◌, inl, inr, arith, subst,
  for_up, for_up_inv, eq→==, ne→==,
}
use ndzip.Word.{IsWord}
use ndzip.Memory.{Memory, update, update_self, update_ne}
use ndzip.Bytes.{load_aligned}
use ndzip.ZeroBit.{
  w, Cursor, decode_round, zero_bit_decode, expand_zero_words, transpose_bits_trivial,
}
use ndzip.ZeroBit.Transpose.{
  IsTranspose-twice, transpose_bits_trivial-IsTranspose, transpose_bits_trivial_outside,
}
use ndzip.ZeroBit.Words.{count_nonzero, expand_zero_words_lem}
use ndzip.ZeroBit.Chunks.{
  chunk, planes, zero_map, body, IsEncoded, chunk-IsWord, planes-IsTranspose, zero_map-IsHead,
  zero_chunk,
}

-- `memset(cube + i, 0, …)`.
clear-eq :
    (i n : ℕ) (x : Memory)
    → ((a : ℕ) → (a < i) ⊎ (i + n ≤ a) → for_up 0 n 1 (λ j x. update x (i + j) 0) x a ≡ x a)
      × ((j : ℕ) → j < n → for_up 0 n 1 (λ j x. update x (i + j) 0) x (i + j) ≡ 0)
clear-eq i n x =
    for_up_inv P n 0 n 1 (λ j x. update x (i + j) 0) x (omega arith) (omega arith) round
      ((λ a s. refl), (λ j hj. elim hj [ ]))
  where
    P : ℕ → Memory → Type 0
    P c y = ((a : ℕ) → (a < i) ⊎ (i + n ≤ a) → y a ≡ x a) × ((j : ℕ) → j < c → y (i + j) ≡ 0)

    round : (c : ℕ) (y : Memory) → c < n → P c y → P (suc c) (update y (i + (0 + c * 1)) 0)
    round c y hc (others, cleared) =
        let e : 0 + c * 1 ≡ c = omega arith in
        rw e (
          (λ a s. update_ne y (i + c) 0 a (ground (arith, s)) ∙ others a s),
          (λ j hj. elim (ℕ_discrete j c) [
            | yes here ↦ update_self y (i + c) 0 (i + j) (ap (λ (t : ℕ). i + t) here)
            | no ne ↦ update_ne y (i + c) 0 (i + j) (omega arith) ∙ cleared j (omega arith)
          ]),
        )

module _ (bytes : ℕ) (hb : 0 < bytes) (scratch cube : Memory) (chunks p : ℕ)
    (words : (a : ℕ) → a < chunks * w bytes → IsWord (w bytes) (cube a)) (stream : Memory)
    (encoded : IsEncoded bytes scratch cube chunks p chunks stream) (garbage old : Memory) where
  abbrev begin : ℕ → ℕ
  begin c = p + body bytes scratch cube chunks p c

  -- The loop's variables after `c` chunks; `garbage` is the decoder's own scratch array.
  record DecodeUpTo (c : ℕ) (t : Cursor) : Type 0 where
    head_at : t.head_pos ≡ c * bytes
    body_at : t.body_pos ≡ body bytes scratch cube chunks p c
    restored : (a : ℕ) → a < c * w bytes → t.target a ≡ cube a
    others : (a : ℕ) → c * w bytes ≤ a → t.target a ≡ old a

  module _ (c : ℕ) (hc : c < chunks) (t : Cursor) (h : DecodeUpTo c t) where
    -- A round that writes the words of its chunk keeps the invariant.
    DecodeUpTo-suc :
        (y : Memory)
        → ((a : ℕ) → (a < c * w bytes) ⊎ (c * w bytes + w bytes ≤ a) → y a ≡ t.target a)
        → ((j : ℕ) → j < w bytes → y (c * w bytes + j) ≡ cube (c * w bytes + j))
        → DecodeUpTo (suc c) (record {
          head_pos = t.head_pos + bytes;
          body_pos = body bytes scratch cube chunks p (suc c);
          target = y;
        })
    DecodeUpTo-suc y same written = record {
      head_at = omega (arith, h.head_at);
      body_at = refl;
      restored = λ a lt. elim (dec_lt a (c * w bytes)) [
        | yes before ↦ same a (inl before) ∙ h.restored a before
        | no here ↦
            let e : c * w bytes + (a - c * w bytes) ≡ a = omega arith in
            rw e at (written (a - c * w bytes) (omega arith))
      ];
      others = λ a le. same a (inr (omega arith)) ∙ h.others a (omega arith);
    }

    abbrev rows : Memory
    rows =
        (expand_zero_words bytes stream (p + t.body_pos) garbage
          (zero_map bytes scratch cube chunks p c)).1

    from : p + t.body_pos ≡ begin c
    from = omega (arith, h.body_at)

    expanded :
        ((expand_zero_words bytes stream
            (p + t.body_pos)
            garbage
            (zero_map bytes scratch cube chunks p c)).0
          ≡ count_nonzero (planes bytes scratch cube chunks p c) (w bytes) * bytes)
        × ((i : ℕ) → i < w bytes → rows i ≡ planes bytes scratch cube chunks p c i)
    expanded =
        let z = zero_map bytes scratch cube chunks p c in
        let u = planes bytes scratch cube chunks p c in
        subst
          (λ q.
            ((expand_zero_words bytes stream q garbage z).0 ≡ count_nonzero u (w bytes) * bytes)
            × ((i : ℕ) → i < w bytes → (expand_zero_words bytes stream q garbage z).1 i ≡ u i))
          (sym from)
          (expand_zero_words_lem bytes u (begin c) stream z
            (zero_map-IsHead bytes scratch cube chunks p words c hc) (encoded.bodies c hc) garbage)

    -- Transposing the rows again gives the words of the chunk.
    transposed_back :
        (j : ℕ)
        → j < w bytes
        → transpose_bits_trivial (w bytes) rows (c * w bytes) t.target (c * w bytes + j)
          ≡ cube (c * w bytes + j)
    transposed_back =
        IsTranspose-twice (w bytes) (c * w bytes) (chunk bytes scratch cube chunks p c) rows
          (transpose_bits_trivial (w bytes) rows (c * w bytes) t.target)
          (λ i hi. chunk-IsWord bytes scratch cube chunks p words c i hc hi)
          (λ i hi.
            let e : rows (0 + i) ≡ planes bytes scratch cube chunks p c (0 + i) =
              expanded.1 (0 + i) (omega arith) in
            rw e (planes-IsTranspose bytes scratch cube chunks p words c i hi))
          (transpose_bits_trivial-IsTranspose (w bytes) rows (c * w bytes) t.target)

    decode_round-DecodeUpTo :
        DecodeUpTo (suc c) (decode_round bytes garbage stream p (0 + c * w bytes) t)
    unfolding decode_round
    decode_round-DecodeUpTo =
        let e : 0 + c * w bytes ≡ c * w bytes = omega arith in
        let z = zero_map bytes scratch cube chunks p c in
        let head : load_aligned bytes (p + t.head_pos) stream ≡ z =
          rw h.head_at (encoded.heads c hc) in
        rw (e, head)
          (elim (ℕ_discrete z 0) [
            | yes empty ↦
                let (cells, none, same) = zero_chunk bytes scratch cube chunks p words c hc empty in
                let at : t.body_pos ≡ body bytes scratch cube chunks p (suc c) =
                  h.body_at ∙ sym same in
                let (kept, cleared) = clear-eq (c * w bytes) (w bytes) t.target in
                rw (eq→== z 0 empty, decode_round)
                  (rw at (DecodeUpTo-suc _ kept (λ j hj. cleared j hj ∙ sym (cells j hj))))
            | no full ↦
                let at : t.body_pos + (expand_zero_words bytes stream (p + t.body_pos) garbage z).0
                    ≡ body bytes scratch cube chunks p (suc c) =
                  omega (arith, h.body_at, expanded.0) in
                rw (ne→== z 0 full, decode_round)
                  (rw at (
                    DecodeUpTo-suc _
                      (transpose_bits_trivial_outside (w bytes) rows (c * w bytes) t.target)
                      transposed_back))
          ])

  -- The decoder reads as many bytes as were written, restores the cube, and touches nothing behind.
  pub zero_bit_decode_lem :
      let result = zero_bit_decode bytes garbage stream p (chunks * w bytes) old in
      (result.0 ≡ body bytes scratch cube chunks p chunks)
      × ((a : ℕ) → a < chunks * w bytes → result.1 a ≡ cube a)
      × ((a : ℕ) → chunks * w bytes ≤ a → result.1 a ≡ old a)
  unfolding zero_bit_decode
  zero_bit_decode_lem =
      let start : Cursor = record {
        head_pos = 0;
        body_pos = chunks * w bytes / w bytes * bytes;
        target = old;
      } in
      let whole : chunks * w bytes / w bytes ≡ chunks = mul-div_left chunks (omega arith) in
      let all : DecodeUpTo chunks
          (for_up 0 (chunks * w bytes) (w bytes) (decode_round bytes garbage stream p) start) =
        for_up_inv DecodeUpTo chunks 0 (chunks * w bytes) (w bytes)
          (decode_round bytes garbage stream p) start (omega arith) (omega arith)
          (λ c t hc h. decode_round-DecodeUpTo c hc t h)
          (record {
            head_at = omega arith;
            body_at = rw whole;
            restored = λ a lt. absurd (omega arith);
            others = λ a le. refl;
          }) in
      (all.body_at, all.restored, all.others)
