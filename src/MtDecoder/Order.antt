-- ===== src/MtDecoder/Order.antt =====
-- The multi-threaded decompressor restores the array, in whatever order the hypercubes come.
use native.Mathlib.Nat.{mod-eq_of_lt}
use ndzip.Base.{
  ℕ, ◌+◌, ◌*◌, ◌/◌, ◌%◌, ◌^◌, ◌≤◌, ◌<◌, ◌≡◌, refl, ap, subst, ◌∙◌, ◌⊎◌, inl, inr, List, [], ◌∷◌,
  arith, none, some, Bool, false, ltb, le→ltb, if◌then◌else◌,
}
use ndzip.Word.{bits_of}
use ndzip.Memory.{Memory}
use ndzip.Extent.{Extent, num_elements}
use ndzip.Extent.Laws.{volume, num_elements-eq}
use ndzip.Grid.{Profile, num_hypercubes}
use ndzip.ZeroBit.{w}
use ndzip.Stream.{border}
use ndzip.Encoder.{compress}
use ndzip.Encoder.Compress.{address}
use ndzip.Encoder.Decompress.{decompress_hypercube_lem}
use ndzip.Encoder.Lossless.{
  finished, packed, packed-end, packed-Stands, end, unpacked, unpacked_lem, unpacked-restored,
}
use ndzip.MtDecoder.{hc_position, decompress_round, decompress_rounds, decompress_scheduled}

-- All rounds of the schedule are hypercubes below `n`.
abbrev pub AllBelow : ℕ → List (ℕ × ℕ) → Type 0
AllBelow n [] = Unit
AllBelow n (r ∷ l) = (r.1 < n) × AllBelow n l

-- The hypercube `k` has a round in the schedule.
abbrev pub Visits : ℕ → List (ℕ × ℕ) → Type 0
Visits k [] = ⊥
Visits k (r ∷ l) = (r.1 ≡ k) ⊎ Visits k l

module _ (pr : Profile) (size : Extent) (chunks : ℕ) (hb : 0 < pr.bytes) (hs : 0 < pr.side)
    (lo : 0 < pr.dims) (hi : pr.dims ≤ 3) (whole : pr.side ^ pr.dims ≡ chunks * bits_of pr.bytes)
    (small : pr.side ^ pr.dims < 2 ^ 32) (room : (d : ℕ) → d < pr.dims → size d + pr.side < 2 ^ 32)
    (cells : volume size pr.dims < 2 ^ 32) (header : num_hypercubes pr size * 4 + pr.bytes < 2 ^ 32)
    (fits : num_hypercubes pr size * (chunks * (bits_of pr.bytes + 1)) < 2 ^ 32) (values : Memory)
    (words : (a : ℕ) → values a < 2 ^ bits_of pr.bytes) (scratch : ℕ → Memory)
    (cube0 stream0 : Memory) (scratch' : ℕ → Memory) where
  abbrev n : ℕ
  n = num_hypercubes pr size

  abbrev at_address : ℕ → ℕ → ℕ
  at_address = address pr size chunks hb hs lo hi whole small values words (hc_position pr size)

  abbrev result : Memory × ℕ
  result =
      packed pr size chunks hb hs lo hi whole small room cells header fits values words scratch
        cube0 stream0

  -- The rounds spoil no cell, and restore the cells of the hypercubes that they visit.
  decompress_rounds_lem :
      (l : List (ℕ × ℕ)) (cubes : ℕ → Memory) (vals : Memory)
      → AllBelow n l
      → let vals' = (decompress_rounds pr scratch' size result.0 l (cubes, vals)).1 in
        ((a : ℕ) → vals a ≡ values a → vals' a ≡ values a)
        × ((k c : ℕ)
            → Visits k l
            → c < chunks * w pr.bytes
            → vals' (at_address k c) ≡ values (at_address k c))
  unfolding decompress_rounds decompress_round
  decompress_rounds_lem [] cubes vals below = (λ a h. h, λ k c visit hc. elim visit [ ])
  decompress_rounds_lem ((tid, hc_index) ∷ l) cubes vals below =
      let (kept, stored) =
        decompress_hypercube_lem pr size chunks hb hs lo hi whole small values words
          (hc_position pr size) scratch' result.0
          (finished pr size chunks hb hs lo hi whole small room cells header fits values words
            scratch cube0 stream0).offset
          hc_index
          (packed-Stands pr size chunks hb hs lo hi whole small room cells header fits values words
            scratch cube0 stream0 result.0 (λ a h. refl) hc_index below.0)
          (cubes tid) vals in
      let t = decompress_round pr scratch' size result.0 (tid, hc_index) (cubes, vals) in
      let rest = decompress_rounds_lem l t.0 t.1 below.1 in
      (
        λ a h. rest.0 a (kept a h),
        λ k c visit hc. elim visit [
          | inl here ↦
              rest.0 (at_address k c)
                (subst (λ i. t.1 (at_address i c) ≡ values (at_address i c)) here (stored c hc))
          | inr later ↦ rest.1 k c later hc
        ],
      )

  -- For one to three dimensions, a side and a type that are not empty, hypercubes of fewer than
  -- `2 ^ 32` cells and a whole number of chunks, extents that leave room for one more side below
  -- `2 ^ 32`, an array of fewer than `2 ^ 32` elements that all fit into their type, a header and
  -- hypercubes that stay below `2 ^ 32` bytes and words, and streams at aligned addresses: from the
  -- stream that `compress` produces, the multi-threaded decompressor restores every element of the
  -- array and reports the same number of bytes, in every order of the hypercubes on any threads that
  -- has a round for each hypercube of the grid and for no other.
  pub decompress_scheduled-compress :
      (schedule : List (ℕ × ℕ))
      → AllBelow n schedule
      → ((k : ℕ) → k < n → Visits k schedule)
      → (cubes : ℕ → Memory) (dest : Memory) (raw_stream raw_stream' : ℕ)
      → raw_stream % pr.bytes ≡ 0
      → raw_stream' % pr.bytes ≡ 0
      → (count : ℕ) × (stream vals : Memory) × (compress pr scratch size raw_stream values cube0
            stream0
          ≡ some (count, stream))
        × (decompress_scheduled pr scratch' size raw_stream' stream schedule cubes dest
            ≡ some (count, vals))
        × ((a : ℕ) → a < num_elements pr.dims size → vals a ≡ values a)
  unfolding compress decompress_scheduled
  decompress_scheduled-compress schedule below visits cubes dest raw_stream raw_stream' aligned
        aligned' =
      let total : num_elements pr.dims size ≡ volume size pr.dims =
        num_elements-eq pr.dims size size ∙ mod-eq_of_lt cells in
      let accepted : ltb 0 (raw_stream % pr.bytes) ≡ false =
        le→ltb 0 (raw_stream % pr.bytes) (omega arith) in
      let accepted' : ltb 0 (raw_stream' % pr.bytes) ≡ false =
        le→ltb 0 (raw_stream' % pr.bytes) (omega arith) in
      let vals = (decompress_rounds pr scratch' size result.0 schedule (cubes, dest)).1 in
      let restored = λ (k c : ℕ) (hk : k < n) (hc : c < chunks * w pr.bytes).
        (decompress_rounds_lem schedule cubes dest below).1 k c (visits k hk) hc in
      let border_at =
        end pr size chunks hb hs lo hi whole small room cells header fits values words scratch cube0
          stream0 in
      let same_end =
        packed-end pr size chunks hb hs lo hi whole small room cells header fits values words
          scratch cube0 stream0 result.0 (λ a h. refl) in
      let back =
        unpacked pr size chunks hb hs lo hi whole small room cells header fits values words scratch
          cube0 stream0 result.0 (λ a h. refl) vals restored in
      let (length, rest) =
        unpacked_lem pr size chunks hb hs lo hi whole small room cells header fits values words
          scratch cube0 stream0 result.0 (λ a h. refl) vals restored in
      let count = border_at / pr.bytes * pr.bytes + result.1 in
      let read = border pr.bytes n result.0 / pr.bytes * pr.bytes + back.1 in
      let same : read ≡ count =
        ap (λ (p : ℕ). p / pr.bytes * pr.bytes + back.1) same_end
        ∙ ap (λ (b : ℕ). border_at / pr.bytes * pr.bytes + b) length in
      (
        count,
        result.0,
        back.0,
        ap (λ (b : Bool). if b then none else some (count, result.0)) accepted,
        ap (λ (b : Bool). if b then none else some (read, back.0)) accepted'
            ∙ ap (λ (k : ℕ). some (k, back.0)) same,
        λ a ha.
            unpacked-restored pr size chunks hb hs lo hi whole small room cells header fits values
              words scratch cube0 stream0 result.0 (λ a h. refl) vals restored a
              (subst (λ t. a < t) total ha),
      )
