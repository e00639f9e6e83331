-- ===== src/Encoder/Compress.antt =====
-- What `compress` writes: every hypercube stands behind the header, the border behind them.
use native.Mathlib.Nat.{mod-eq_of_lt, mul-le-mul_right, mul-div_left}
use native.Mathlib.Decide.{ℕ_discrete}
use ndzip.Base.{
  ℕ, suc, ◌+◌, ◌-◌, ◌*◌, ◌/◌, ◌^◌, ◌≤◌, ◌<◌, ◌≡◌, ap, subst, sym, ◌∙◌, ◌⊎◌, inl, inr, arith,
}
use ndzip.Word.{u32, bits_of, IsWord}
use ndzip.Memory.{Memory}
use ndzip.Extent.{Extent, linear_index}
use ndzip.Grid.{Profile, hc_size, num_hypercubes}
use ndzip.Transform.{block_transform}
use ndzip.Transform.Power.{ipow-eq}
use ndzip.Transform.RoundTrip.{block_transform-Words}
use ndzip.ZeroBit.{w, zero_bit_encode}
use ndzip.ZeroBit.Chunks.{IsEncoded, IsEncoded_cong}
use ndzip.ZeroBit.Encode.{zero_bit_encode_lem}
use ndzip.Hypercube.{load_hypercube}
use ndzip.Hypercube.Rows.{rows}
use ndzip.Hypercube.Cells.{cell_address, load_hypercube_lem}
use ndzip.Hypercube.Coverage.{cells-pow}
use ndzip.Stream.{base_byte_offset, offset_after, set_offset_after}
use ndzip.Stream.Header.{
  start, start-cong, hypercube-start, base-ge, offset_after-set_offset_after,
  set_offset_after_outside,
}
use ndzip.Encoder.{CompressState, compress_hypercube}
use ndzip.Encoder.Blocks.{Stands, Stands-cong, body_words, body_words-le, body-words}

module _ (pr : Profile) (size : Extent) (chunks : ℕ) (hb : 0 < pr.bytes) (hs : 0 < pr.side)
    (lo : 0 < pr.dims) (hi : pr.dims ≤ 3) (whole : pr.side ^ pr.dims ≡ chunks * bits_of pr.bytes)
    (small : pr.side ^ pr.dims < 2 ^ 32) (values : Memory)
    (words : (a : ℕ) → values a < 2 ^ bits_of pr.bytes) (position : ℕ → Extent) where
  abbrev pub N : ℕ
  N = num_hypercubes pr size

  abbrev pub first : ℕ
  first = base_byte_offset pr.bytes N

  -- The most words that a hypercube takes.
  abbrev pub most : ℕ
  most = chunks * (bits_of pr.bytes + 1)

  abbrev pub address : ℕ → ℕ → ℕ
  address k c = cell_address pr.dims pr.side size (linear_index pr.dims size (position k)) c

  abbrev pub Standing : ℕ → ℕ → Memory → Type 0
  Standing = Stands pr.bytes pr.dims pr.side chunks first values address

  pub hc_size-eq : hc_size pr ≡ chunks * w pr.bytes
  unfolding hc_size
  hc_size-eq = ipow-eq 32 pr.side pr.dims (omega arith) ∙ mod-eq_of_lt small ∙ whole

  pub cells-eq : rows pr.dims pr.side * pr.side ≡ chunks * w pr.bytes
  cells-eq = cells-pow pr.dims pr.side lo hi ∙ whole

  pub transformed-Words :
      (x : Memory)
      → ((a : ℕ) → a < chunks * w pr.bytes → IsWord (w pr.bytes) (x a))
      → (a : ℕ) → a < chunks * w pr.bytes
      → IsWord (w pr.bytes) (block_transform (w pr.bytes) pr.dims pr.side x a)
  transformed-Words x h a ha =
      let m = w pr.bytes - 1 in
      let e : suc m ≡ w pr.bytes = omega arith in
      rw e at (
        block_transform-Words m pr.side pr.dims hs small x
          (λ b hb. rw e (h b (subst (λ n. b < n) whole hb))) a (rw whole ha))

  -- The state after `k` hypercubes.
  pub record Reached (k : ℕ) (st : CompressState) : Type 0 where
    pub offset_at : st.offset ≡ start st.stream k
    pub bound : st.offset ≤ k * most
    pub stands : (j : ℕ) → j < k → Standing st.offset j st.stream

  module _ (scratch : ℕ → Memory) (header : N * 4 + pr.bytes < 2 ^ 32) (fits : N * most < 2 ^ 32)
      (k : ℕ) (hk : k < N) (st : CompressState) (h : Reached k st) where
    abbrev loaded : Memory
    loaded = load_hypercube pr.dims pr.side (position k) size values st.cube

    abbrev cube : Memory
    cube = block_transform (w pr.bytes) pr.dims pr.side loaded

    abbrev p : ℕ
    p = first + start st.stream k * pr.bytes

    abbrev encoded : ℕ × Memory
    encoded = zero_bit_encode pr.bytes (scratch k) cube p (chunks * w pr.bytes) st.stream

    loaded-cells : (c : ℕ) → c < chunks * w pr.bytes → loaded c ≡ values (address k c)
    loaded-cells c hc =
        load_hypercube_lem pr.dims pr.side (position k) size lo hi hs values st.cube c
          (rw cells-eq hc)

    cube-Words : (a : ℕ) → a < chunks * w pr.bytes → IsWord (w pr.bytes) (cube a)
    cube-Words = transformed-Words loaded (λ c hc. rw (loaded-cells c hc) (words (address k c)))

    abbrev taken : ℕ
    taken = body_words pr.bytes (scratch k) cube chunks chunks

    -- The new offset, and the stream that it is written to.
    abbrev offset : ℕ
    offset = st.offset + taken

    abbrev stream : Memory
    stream = set_offset_after k offset encoded.1

    encoded_lem :
        (encoded.0 ≡ taken * pr.bytes)
        × ((a : ℕ) → (a < p) ⊎ (p + encoded.0 ≤ a) → encoded.1 a ≡ st.stream a)
        × IsEncoded pr.bytes (scratch k) cube chunks p chunks encoded.1
    encoded_lem =
        let (n, outside, layout) =
          zero_bit_encode_lem pr.bytes hb (scratch k) cube chunks p cube-Words st.stream in
        (n ∙ body-words pr.bytes (scratch k) cube chunks p chunks, outside, layout)

    taken-le : taken ≤ most
    taken-le = omega (arith, body_words-le pr.bytes (scratch k) cube chunks chunks)

    offset-le : offset ≤ suc k * most
    offset-le = omega (arith, taken-le, h.bound)

    offset-lt : offset < 2 ^ 32
    offset-lt =
        let room : suc k * most ≤ N * most = mul-le-mul_right most hk in
        omega (arith, offset-le, fits)

    offset-eq : u32 (st.offset + encoded.0 / pr.bytes) ≡ offset
    offset-eq =
        let n : encoded.0 / pr.bytes ≡ taken =
          ap (λ (t : ℕ). t / pr.bytes) (encoded_lem.0) ∙ mul-div_left taken hb in
        ap (λ (t : ℕ). u32 (st.offset + t)) n ∙ mod-eq_of_lt offset-lt

    -- The callback's result from what the coder returns.
    abbrev finish : ℕ × Memory → CompressState
    finish (n, x) = record {
      cube = cube;
      offset = u32 (st.offset + n / pr.bytes);
      stream = set_offset_after k (u32 (st.offset + n / pr.bytes)) x;
    }

    step-eq :
        compress_hypercube pr scratch size values k (position k) st
        ≡ record { cube = cube; offset = offset; stream = stream }
    unfolding compress_hypercube
    step-eq =
        ap (λ (q : ℕ). finish (zero_bit_encode pr.bytes (scratch k) cube q (hc_size pr) st.stream))
          (hypercube-start pr.bytes N st.stream k)
        ∙ ap (λ (n : ℕ). finish (zero_bit_encode pr.bytes (scratch k) cube p n st.stream))
            hc_size-eq
        ∙ ap
            (λ (o : ℕ). record { cube = cube; offset = o; stream = set_offset_after k o encoded.1 })
            offset-eq

    header-le : N * 4 ≤ first
    header-le = base-ge pr.bytes N hb header

    behind_header : (a : ℕ) → first ≤ a → stream a ≡ encoded.1 a
    behind_header a ha =
        set_offset_after_outside k offset encoded.1 a (inr (omega (arith, header-le)))

    same_header : (a : ℕ) → a < k * 4 → stream a ≡ st.stream a
    same_header a ha =
        set_offset_after_outside k offset encoded.1 a (inl ha)
        ∙ encoded_lem.1 a (inl (omega (arith, header-le)))

    same_words : (a : ℕ) → first ≤ a → a < first + st.offset * pr.bytes → stream a ≡ st.stream a
    same_words a ha hi =
        let at : st.offset * pr.bytes ≡ start st.stream k * pr.bytes =
          ap (λ (t : ℕ). t * pr.bytes) (h.offset_at) in
        behind_header a ha ∙ encoded_lem.1 a (inl (omega arith))

    same_start : start stream k ≡ start st.stream k
    same_start = start-cong stream st.stream k same_header

    new_offset : offset_after stream k ≡ offset
    new_offset = offset_after-set_offset_after k offset encoded.1 offset-lt

    last_stands : Standing offset k stream
    last_stands = record {
      scratch = scratch k;
      loaded = loaded;
      cells = loaded-cells;
      encoded = rw same_start (
          IsEncoded_cong pr.bytes (scratch k) cube chunks p chunks encoded.1 stream (omega arith)
            (λ a ge le. behind_header a (omega arith)) (encoded_lem.2));
      ends =
          rw (same_start, new_offset)
            (omega (
              arith,
              body-words pr.bytes (scratch k) cube chunks p chunks,
              ap (λ (t : ℕ). t * pr.bytes) (h.offset_at),
            ));
      before = omega (arith, new_offset);
    }

    -- The next hypercube stands behind those before it.
    pub compress_hypercube-Reached :
        Reached (suc k) (compress_hypercube pr scratch size values k (position k) st)
    compress_hypercube-Reached = subst (Reached (suc k)) (sym step-eq) (record {
      offset_at = sym new_offset;
      bound = offset-le;
      stands = λ j hj. elim (ℕ_discrete j k) [
        | yes e ↦ rw e last_stands
        | no ne ↦
            Stands-cong pr.bytes pr.dims pr.side chunks first values address st.offset offset j
              st.stream stream (omega arith) (λ a ha. same_header a (omega arith)) same_words
              (h.stands j (omega arith))
      ];
    })
