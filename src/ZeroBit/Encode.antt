-- ===== src/ZeroBit/Encode.antt =====
-- `zero_bit_encode` writes the layout of `Chunks`, and nothing outside it.
use native.Mathlib.Nat.{mul-div_left}
use native.Mathlib.Decide.{ℕ_discrete}
use ndzip.Base.{
  ℕ, suc, ◌+◌, ◌*◌, ◌/◌, ◌≤◌, ◌<◌, ◌≡◌, refl, subst, ◌∙◌, sym, ◌⊎◌, inl, arith, for_up, for_up_inv,
  eq→==, ne→==,
}
use ndzip.Word.{IsWord}
use ndzip.Memory.{Memory}
use ndzip.Bytes.{store_aligned, load_aligned}
use ndzip.Bytes.Laws.{store_aligned_outside, load_aligned_cong, load_aligned-store_aligned}
use ndzip.ZeroBit.{w, Cursor, encode_round, zero_bit_encode, compact_zero_words}
use ndzip.ZeroBit.ZeroMap.{generate_zero_map-IsWord}
use ndzip.ZeroBit.Words.{IsPacked, compact_zero_words_lem}
use ndzip.ZeroBit.Chunks.{
  chunk, planes, zero_map, body, body_mono, IsEncoded, IsEncoded_cong, chunk-IsWord, planes-IsWord,
  zero_chunk,
}

module _ (bytes : ℕ) (hb : 0 < bytes) (scratch cube : Memory) (chunks p : ℕ)
    (words : (a : ℕ) → a < chunks * w bytes → IsWord (w bytes) (cube a)) (stream : Memory) where
  abbrev begin : ℕ → ℕ
  begin c = p + body bytes scratch cube chunks p c

  -- The loop's variables after `c` chunks.
  record EncodeUpTo (c : ℕ) (t : Cursor) : Type 0 where
    head_at : t.head_pos ≡ c * bytes
    body_at : t.body_pos ≡ body bytes scratch cube chunks p c
    others : (a : ℕ) → (a < p) ⊎ (begin c ≤ a) → t.target a ≡ stream a
    encoded : IsEncoded bytes scratch cube chunks p c t.target

  -- The stream with the head of chunk `c`.
  module _ (c : ℕ) (hc : c < chunks) (t : Cursor) (h : EncodeUpTo c t) where
    abbrev head : Memory
    head = store_aligned bytes (p + t.head_pos) (zero_map bytes scratch cube chunks p c) t.target

    abbrev packed : ℕ × Memory
    packed = compact_zero_words bytes (planes bytes scratch cube chunks p c) (p + t.body_pos) head

    head-le : p + t.head_pos + bytes ≤ p + chunks * bytes
    head-le = let e = h.head_at in grind arith

    heads-le-begin : p + chunks * bytes ≤ begin c
    heads-le-begin = omega (arith, body_mono bytes scratch cube chunks p 0 c (omega arith))

    head_outside : (a : ℕ) → (a < p + c * bytes) ⊎ (p + chunks * bytes ≤ a) → head a ≡ t.target a
    head_outside a s =
        store_aligned_outside bytes (p + t.head_pos) _ t.target a
          (ground (arith, s, h.head_at, head-le))

    head_loaded : load_aligned bytes (p + c * bytes) head ≡ zero_map bytes scratch cube chunks p c
    head_loaded = rw (← h.head_at) (
        load_aligned-store_aligned bytes (p + t.head_pos) _ t.target (
          generate_zero_map-IsWord (w bytes) (chunk bytes scratch cube chunks p c)
            (λ j hj. chunk-IsWord bytes scratch cube chunks p words c j hc hj)))

    -- What remains of the invariant when the stream becomes `y`.
    EncodeUpTo-suc :
        (y : Memory)
        → ((a : ℕ) → (a < begin c) ⊎ (begin (suc c) ≤ a) → y a ≡ head a)
        → IsPacked bytes (planes bytes scratch cube chunks p c) (begin c) (w bytes) y
        → EncodeUpTo (suc c) (record {
          head_pos = t.head_pos + bytes;
          body_pos = body bytes scratch cube chunks p (suc c);
          target = y;
        })
    EncodeUpTo-suc y same here = record {
      head_at = omega (arith, h.head_at);
      body_at = refl;
      others = λ a s.
          let up = body_mono bytes scratch cube chunks p c (suc c) (omega arith) in
          same a (ground (arith, s, heads-le-begin))
          ∙ head_outside a (ground (arith, s, heads-le-begin))
          ∙ h.others a (ground (arith, s));
      encoded =
          let old =
            IsEncoded_cong bytes scratch cube chunks p c t.target y (omega arith)
              (λ a lo s.
                same a (inl (ground (arith, s, heads-le-begin, head-le, h.head_at)))
                ∙ head_outside a (ground (arith, s)))
              h.encoded in
          record {
            heads = λ k hk. elim (ℕ_discrete k c) [
              | yes e ↦ rw e (
                  load_aligned_cong bytes (p + c * bytes) y head (λ i hi.
                    same (p + c * bytes + i)
                      (inl (omega (arith, heads-le-begin, head-le, h.head_at))))
                  ∙ head_loaded)
              | no ne ↦ old.heads k (omega arith)
            ];
            bodies = λ k hk. elim (ℕ_discrete k c) [
              | yes e ↦ rw e here
              | no ne ↦ old.bodies k (omega arith)
            ];
          };
    }

    encode_round-EncodeUpTo :
        EncodeUpTo (suc c) (encode_round bytes scratch cube p (0 + c * w bytes) t)
    unfolding encode_round planes
    encode_round-EncodeUpTo =
        let e : 0 + c * w bytes ≡ c * w bytes = omega arith in
        let z = zero_map bytes scratch cube chunks p c in
        let (n, outside, is_packed) =
          compact_zero_words_lem bytes (planes bytes scratch cube chunks p c) (p + t.body_pos)
            (λ i hi. planes-IsWord bytes scratch cube chunks p words c i hi) head in
        rw e (elim (ℕ_discrete z 0) [
          | yes empty ↦
              let (cells, rows, same) = zero_chunk bytes scratch cube chunks p words c hc empty in
              let at : t.body_pos ≡ body bytes scratch cube chunks p (suc c) =
                h.body_at ∙ sym same in
              rw (eq→== z 0 empty, encode_round)
                (rw at (EncodeUpTo-suc head (λ a s. refl) (λ i hi ne. absurd (ne (rows i hi)))))
          | no full ↦
              let at : t.body_pos + packed.0 ≡ body bytes scratch cube chunks p (suc c) =
                omega (arith, h.body_at, n) in
              let from : p + t.body_pos ≡ begin c = omega (arith, h.body_at) in
              rw (ne→== z 0 full, encode_round)
                (rw at (
                  EncodeUpTo-suc packed.1 (λ a s. outside a (ground (arith, s, from, n)))
                    (subst
                      (λ q.
                        IsPacked bytes (planes bytes scratch cube chunks p c) q (w bytes) packed.1)
                      from is_packed)))
        ])

  -- The compressed size, the stream outside, and the layout within.
  pub zero_bit_encode_lem :
      let result = zero_bit_encode bytes scratch cube p (chunks * w bytes) stream in
      (result.0 ≡ body bytes scratch cube chunks p chunks)
      × ((a : ℕ) → (a < p) ⊎ (p + result.0 ≤ a) → result.1 a ≡ stream a)
      × IsEncoded bytes scratch cube chunks p chunks result.1
  unfolding zero_bit_encode
  zero_bit_encode_lem =
      let start : Cursor = record {
        head_pos = 0;
        body_pos = chunks * w bytes / w bytes * bytes;
        target = stream;
      } in
      let whole : chunks * w bytes / w bytes ≡ chunks = mul-div_left chunks (omega arith) in
      let all : EncodeUpTo chunks
          (for_up 0 (chunks * w bytes) (w bytes) (encode_round bytes scratch cube p) start) =
        for_up_inv EncodeUpTo chunks 0 (chunks * w bytes) (w bytes)
          (encode_round bytes scratch cube p) start (omega arith) (omega arith)
          (λ c t hc h. encode_round-EncodeUpTo c hc t h)
          (record {
            head_at = omega arith;
            body_at = rw whole;
            others = λ a s. refl;
            encoded = record { heads = λ k hk. elim hk [ ]; bodies = λ k hk. elim hk [ ] };
          }) in
      (all.body_at, (λ a s. all.others a (ground (arith, s, all.body_at))), all.encoded)
