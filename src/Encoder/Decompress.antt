-- ===== src/Encoder/Decompress.antt =====
-- What `decompress` reads: the cells of every hypercube that stands in the stream.
use ndzip.Base.{ℕ, suc, ◌+◌, ◌-◌, ◌*◌, ◌^◌, ◌≤◌, ◌<◌, ◌≡◌, ap, subst, sym, ◌∙◌, arith}
use ndzip.Word.{bits_of, IsWord}
use ndzip.Memory.{Memory}
use ndzip.Extent.{Extent}
use ndzip.Grid.{Profile, hc_size, num_hypercubes}
use ndzip.Transform.{block_transform, inverse_block_transform}
use ndzip.Transform.Local.{inverse_block_transform_restores}
use ndzip.ZeroBit.{w, zero_bit_decode}
use ndzip.ZeroBit.Decode.{zero_bit_decode_lem}
use ndzip.Hypercube.{store_hypercube}
use ndzip.Hypercube.Cells.{store_hypercube_lem}
use ndzip.Stream.Header.{start, hypercube-start}
use ndzip.Encoder.{decompress_hypercube}
use ndzip.Encoder.Compress.{first, address, Standing, hc_size-eq, cells-eq, transformed-Words}

module _ (pr : Profile) (size : Extent) (chunks : ℕ) (hb : 0 < pr.bytes) (hs : 0 < pr.side)
    (lo : 0 < pr.dims) (hi : pr.dims ≤ 3) (whole : pr.side ^ pr.dims ≡ chunks * bits_of pr.bytes)
    (small : pr.side ^ pr.dims < 2 ^ 32) (values : Memory)
    (words : (a : ℕ) → values a < 2 ^ bits_of pr.bytes) (position : ℕ → Extent) where
  abbrev at_address : ℕ → ℕ → ℕ
  at_address = address pr size chunks hb hs lo hi whole small values words position

  -- The inverse transform of the words of a transformed cube, at the profile's width.
  restores :
      (x z : Memory)
      → ((a : ℕ) → a < chunks * w pr.bytes → IsWord (w pr.bytes) (x a))
      → ((a : ℕ) → a < chunks * w pr.bytes → z a ≡ block_transform (w pr.bytes) pr.dims pr.side x a)
      → (a : ℕ) → a < chunks * w pr.bytes
      → inverse_block_transform (w pr.bytes) pr.dims pr.side z a ≡ x a
  restores x z =
      let m = w pr.bytes - 1 in
      let e : suc m ≡ w pr.bytes = omega arith in
      let at_width : (v n : ℕ) → Type 0 = λ v n.
        ((a : ℕ) → a < n → IsWord v (x a))
        → ((a : ℕ) → a < n → z a ≡ block_transform v pr.dims pr.side x a)
        → (a : ℕ) → a < n
        → inverse_block_transform v pr.dims pr.side z a ≡ x a in
      subst (λ n. at_width (w pr.bytes) n) whole
        (subst (λ v. at_width v (pr.side ^ pr.dims)) e
          (inverse_block_transform_restores m pr.side pr.dims hs small x z))

  module _ (scratch : ℕ → Memory) (stream : Memory) (limit k : ℕ)
      (stands : Standing pr size chunks hb hs lo hi whole small values words position limit k
        stream)
      (cube vals : Memory) where
    abbrev p : ℕ
    p =
        first pr size chunks hb hs lo hi whole small values words position
        + start stream k * pr.bytes

    abbrev decoded : Memory
    decoded = (zero_bit_decode pr.bytes (scratch k) stream p (chunks * w pr.bytes) cube).1

    abbrev restored : Memory
    restored = inverse_block_transform (w pr.bytes) pr.dims pr.side decoded

    step-eq :
        decompress_hypercube pr scratch size stream k (position k) (cube, vals)
        ≡ (restored, store_hypercube pr.dims pr.side (position k) size restored vals)
    unfolding decompress_hypercube
    step-eq =
        let finish : Memory → Memory × Memory = λ y.
          let back = inverse_block_transform (w pr.bytes) pr.dims pr.side y in
          (back, store_hypercube pr.dims pr.side (position k) size back vals) in
        ap (λ (q : ℕ). finish (zero_bit_decode pr.bytes (scratch k) stream q (hc_size pr) cube).1)
          (hypercube-start pr.bytes (num_hypercubes pr size) stream k)
        ∙ ap (λ (n : ℕ). finish (zero_bit_decode pr.bytes (scratch k) stream p n cube).1)
            (hc_size-eq pr size chunks hb hs lo hi whole small values words position)

    loaded-Words : (a : ℕ) → a < chunks * w pr.bytes → IsWord (w pr.bytes) (stands.loaded a)
    loaded-Words a ha = rw (stands.cells a ha) (words (at_address k a))

    restored-eq : (a : ℕ) → a < chunks * w pr.bytes → restored a ≡ values (at_address k a)
    restored-eq a ha =
        let x = stands.loaded in
        let (n, cells, rest) =
          zero_bit_decode_lem pr.bytes hb stands.scratch
            (block_transform (w pr.bytes) pr.dims pr.side x) chunks p
            (transformed-Words pr size chunks hb hs lo hi whole small values words position x
              loaded-Words)
            stream stands.encoded (scratch k) cube in
        restores x decoded loaded-Words cells a ha ∙ stands.cells a ha

    -- The callback restores the cells of its hypercube, and spoils no cell.
    pub decompress_hypercube_lem :
        let vals' = (decompress_hypercube pr scratch size stream k (position k) (cube, vals)).1 in
        ((a : ℕ) → vals a ≡ values a → vals' a ≡ values a)
        × ((c : ℕ) → c < chunks * w pr.bytes → vals' (at_address k c) ≡ values (at_address k c))
    decompress_hypercube_lem =
        let e = cells-eq pr size chunks hb hs lo hi whole small values words position in
        let (kept, stored) =
          store_hypercube_lem pr.dims pr.side (position k) size lo hi hs values restored vals
            (λ c hc. restored-eq c (subst (λ n. c < n) e hc)) in
        let back = ap (λ (t : Memory × Memory). t.1) step-eq in
        (
          (λ a h. ap (λ (y : Memory). y a) back ∙ kept a h),
          λ c hc.
              ap (λ (y : Memory). y (at_address k c)) back
              ∙ stored c (subst (λ n. c < n) (sym e) hc),
        )
