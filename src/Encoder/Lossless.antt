-- ===== src/Encoder/Lossless.antt =====
-- `decompress` restores the array that `compress` was given.
use native.Mathlib.Nat.{mod-eq_of_lt, div-le_self, mul-div_left, mul-le-mul_right}
use native.Mathlib.Decide.{ℕ_discrete}
use ndzip.Base.{
  ℕ, suc, ◌+◌, ◌-◌, ◌*◌, ◌/◌, ◌%◌, ◌^◌, ◌≤◌, ◌<◌, ◌≡◌, refl, ap, subst, sym, ◌∙◌, ◌⊎◌, inl, inr,
  arith, for_up_inv, none, some, Bool, false, ltb, le→ltb, if◌then◌else◌,
}
use ndzip.Word.{bits_of}
use ndzip.Memory.{Memory}
use ndzip.Extent.{Extent, num_elements, mul_extent, div_extent, extent_from_linear_id}
use ndzip.Extent.Laws.{volume, volume-le, num_elements-eq}
use ndzip.Extent.Ids.{extent_from_linear_id-lt, value-extent_from_linear_id}
use ndzip.Grid.{Profile, num_hypercubes, for_each_hypercube}
use ndzip.Grid.Visits.{cube_counts}
use ndzip.Grid.Order.{for_each_hypercube-eq}
use ndzip.ZeroBit.{w}
use ndzip.Border.{pack_border, unpack_border}
use ndzip.Border.Slices.{border_slices}
use ndzip.Border.RoundTrip.{
  total, InSlices, AllHold, AllHold-cong, border_bytes, pack_border_lem, unpack_border_lem,
}
use ndzip.Border.Coverage.{border_slices-InSlices}
use ndzip.Stream.{border, base_byte_offset}
use ndzip.Stream.Header.{start, start-cong, hypercube-start, base-ge, base-whole}
use ndzip.Encoder.{CompressState, compress_hypercube, compress, decompress_hypercube, decompress}
use ndzip.Encoder.Blocks.{Stands-cong}
use ndzip.Encoder.Compress.{address, Standing, Reached, cells-eq, compress_hypercube-Reached}
use ndzip.Encoder.Cover.{find_behind, number, number-lt, number-address}
use ndzip.Hypercube.Coverage.{cell_of, cell_of-lt}
use ndzip.Encoder.Decompress.{decompress_hypercube_lem}

module _ (pr : Profile) (size : Extent) (chunks : ℕ) (hb : 0 < pr.bytes) (hs : 0 < pr.side)
    (lo : 0 < pr.dims) (hi : pr.dims ≤ 3) (whole : pr.side ^ pr.dims ≡ chunks * bits_of pr.bytes)
    (small : pr.side ^ pr.dims < 2 ^ 32) (room : (d : ℕ) → d < pr.dims → size d + pr.side < 2 ^ 32)
    (cells : volume size pr.dims < 2 ^ 32) (header : num_hypercubes pr size * 4 + pr.bytes < 2 ^ 32)
    (fits : num_hypercubes pr size * (chunks * (bits_of pr.bytes + 1)) < 2 ^ 32) (values : Memory)
    (words : (a : ℕ) → values a < 2 ^ bits_of pr.bytes) where
  counts-small : volume (cube_counts pr.side size) pr.dims < 2 ^ 32
  counts-small = omega (
    arith,
    volume-le (cube_counts pr.side size) size pr.dims (λ d lt. div-le_self (size d) pr.side),
  )

  abbrev pub position : ℕ → Extent
  position k =
      mul_extent pr.dims (extent_from_linear_id pr.dims k (div_extent pr.dims size pr.side)) pr.side

  abbrev pub n : ℕ
  n = num_hypercubes pr size

  abbrev base : ℕ
  base = base_byte_offset pr.bytes n

  abbrev pub at_address : ℕ → ℕ → ℕ
  at_address = address pr size chunks hb hs lo hi whole small values words position

  abbrev IsReached : ℕ → CompressState → Type 0
  IsReached = Reached pr size chunks hb hs lo hi whole small values words position

  abbrev StandsAt : ℕ → ℕ → Memory → Type 0
  StandsAt = Standing pr size chunks hb hs lo hi whole small values words position

  module _ (scratch : ℕ → Memory) (cube0 stream0 : Memory) where
    abbrev pub finished : CompressState
    finished =
        for_each_hypercube pr size (compress_hypercube pr scratch size values)
          (record { cube = cube0; offset = 0; stream = stream0 })

    finished-Reached : IsReached n finished
    finished-Reached =
        let f = compress_hypercube pr scratch size values in
        let init : CompressState = record { cube = cube0; offset = 0; stream = stream0 } in
        subst (IsReached n) (sym (for_each_hypercube-eq pr size lo room counts-small hs f init)) (
          for_up_inv IsReached n 0 n 1 (λ k. f k (position k)) init (omega arith) (omega arith)
            (λ k st hk h.
              let e : 0 + k * 1 ≡ k = omega arith in
              subst (λ i. IsReached (suc k) (f i (position i) st)) (sym e)
                (compress_hypercube-Reached pr size chunks hb hs lo hi whole small values words
                  position scratch header fits k hk st h))
            (record {
              offset_at = refl;
              bound = omega arith;
              stands = λ j hj. absurd (omega arith);
            }))

    abbrev pub end : ℕ
    end = border pr.bytes n finished.stream

    border-start : (x : Memory) → border pr.bytes n x ≡ base + start x n * pr.bytes
    unfolding border
    border-start x = hypercube-start pr.bytes n x n

    end-eq : end ≡ base + finished.offset * pr.bytes
    end-eq =
        border-start finished.stream
        ∙ ap (λ (t : ℕ). base + t * pr.bytes) (sym (finished-Reached.offset_at))

    abbrev pub packed : Memory × ℕ
    packed = pack_border pr.bytes end pr.dims size pr.side values finished.stream

    packed_lem :
        AllHold pr.bytes end values words (border_slices pr.dims size pr.side) 0 packed.0
        × (packed.1 ≡ border_bytes pr.bytes end values words pr.dims size pr.side)
        × ((a : ℕ) → a < base + finished.offset * pr.bytes → packed.0 a ≡ finished.stream a)
    packed_lem =
        let (holds, length, others) =
          pack_border_lem pr.bytes end values words pr.dims size pr.side finished.stream in
        (holds, length, λ a ha. others a (inl (omega (arith, end-eq))))

    -- The length that is reported is the end of the border, which is bounded by the hypercubes.
    pub end-whole : end / pr.bytes * pr.bytes ≡ end
    end-whole =
        let q = (n * 4 + pr.bytes - 1) / pr.bytes in
        let words : end ≡ (q + finished.offset) * pr.bytes =
          omega (arith, end-eq, base-whole pr.bytes n hb header) in
        rw words (ap (λ (t : ℕ). t * pr.bytes) (mul-div_left (q + finished.offset) hb))

    pub end-ge : n * 4 ≤ end
    end-ge = omega (arith, end-eq, base-ge pr.bytes n hb header)

    pub end-le : end ≤ base + n * (chunks * (bits_of pr.bytes + 1)) * pr.bytes
    end-le = omega (arith, end-eq, mul-le-mul_right pr.bytes (finished-Reached.bound))

    pub packed-total : packed.1 ≡ total (border_slices pr.dims size pr.side) * pr.bytes
    packed-total = packed_lem.1

    packed-header : (a : ℕ) → a < n * 4 → packed.0 a ≡ finished.stream a
    packed-header a ha = packed_lem.2 a (omega (arith, base-ge pr.bytes n hb header))

    -- A stream that begins with the bytes of the compressed one.
    module _ (stream : Memory) (same : (a : ℕ) → a < end + packed.1 → stream a ≡ packed.0 a) where
      stream-header : (a : ℕ) → a < n * 4 → stream a ≡ finished.stream a
      stream-header a ha =
          same a (omega (arith, end-eq, base-ge pr.bytes n hb header)) ∙ packed-header a ha

      stream_lem :
          AllHold pr.bytes end values words (border_slices pr.dims size pr.side) 0 stream
          × (packed.1 ≡ border_bytes pr.bytes end values words pr.dims size pr.side)
      stream_lem =
          let (holds, length, others) = packed_lem in
          (
            AllHold-cong pr.bytes end values words (border_slices pr.dims size pr.side) 0 packed.0
                stream (λ a lo hi. same a (omega (arith, length))) holds,
            length,
          )

      pub packed-Stands : (j : ℕ) → j < n → StandsAt finished.offset j stream
      packed-Stands j hj =
          Stands-cong pr.bytes pr.dims pr.side chunks base values at_address finished.offset
            finished.offset j finished.stream stream (omega arith)
            (λ a ha. stream-header a (omega arith))
            (λ a lo hi. same a (omega (arith, end-eq)) ∙ packed_lem.2 a hi)
            (finished-Reached.stands j hj)

      pub packed-end : border pr.bytes n stream ≡ end
      packed-end =
          border-start stream
          ∙ ap (λ (t : ℕ). base + t * pr.bytes) (start-cong stream finished.stream n stream-header)
          ∙ sym (border-start finished.stream)

      -- The border behind hypercubes that are restored.
      module _ (vals : Memory)
          (restored : (k c : ℕ)
            → k < n
            → c < chunks * w pr.bytes
            → vals (at_address k c) ≡ values (at_address k c)) where
        abbrev pub unpacked : Memory × ℕ
        unpacked =
            unpack_border pr.bytes (border pr.bytes n stream) pr.dims size pr.side stream vals

        pub unpacked_lem :
            (unpacked.1 ≡ packed.1)
            × ((a : ℕ)
                → (vals a ≡ values a) ⊎ InSlices (border_slices pr.dims size pr.side) a
                → unpacked.0 a ≡ values a)
        unpacked_lem =
            let (holds, length) = stream_lem in
            subst
              (λ p.
                let u = unpack_border pr.bytes p pr.dims size pr.side stream vals in
                (u.1 ≡ packed.1)
                × ((a : ℕ)
                    → (vals a ≡ values a) ⊎ InSlices (border_slices pr.dims size pr.side) a
                    → u.0 a ≡ values a))
              (sym packed-end)
              (let (read, restored) =
                  unpack_border_lem pr.bytes end values words pr.dims size pr.side stream vals
                    holds in
                (read ∙ sym length, restored))

        pub unpacked-restored : (a : ℕ) → a < volume size pr.dims → unpacked.0 a ≡ values a
        unpacked-restored a ha =
            let q = extent_from_linear_id pr.dims a size in
            let within = extent_from_linear_id-lt pr.dims a size lo (omega arith) ha in
            let at = value-extent_from_linear_id pr.dims a size lo (omega arith) ha in
            unpacked_lem.1 a (elim (find_behind size q pr.side pr.dims) [
              | inr (e, he, behind) ↦ inr (
                  subst (InSlices (border_slices pr.dims size pr.side)) at
                    (border_slices-InSlices pr.dims size pr.side hs cells q within e he behind))
              | inl before ↦
                  let k = number pr size hs lo hi room cells counts-small q within before in
                  let c = cell_of pr.dims pr.side q in
                  let here : at_address k c ≡ a =
                    number-address pr size hs lo hi room cells counts-small q within before ∙ at in
                  let inside : c < chunks * w pr.bytes =
                    subst (λ t. c < t)
                      (cells-eq pr size chunks hb hs lo hi whole small values words position)
                      (cell_of-lt pr.dims pr.side q lo hi hs) in
                  inl (
                    subst (λ b. vals b ≡ values b) here
                      (restored k c
                        (number-lt pr size hs lo hi room cells counts-small q within before)
                        inside))
            ])

      module _ (scratch' : ℕ → Memory) (cube1 dest : Memory) where
        abbrev run : Memory × Memory
        run =
            for_each_hypercube pr size (decompress_hypercube pr scratch' size stream) (cube1, dest)

        abbrev Restored : ℕ → Memory × Memory → Type 0
        Restored k t =
            (j c : ℕ)
            → j < k
            → c < chunks * w pr.bytes
            → t.1 (at_address j c) ≡ values (at_address j c)

        run-Restored : Restored n run
        run-Restored =
            let f = decompress_hypercube pr scratch' size stream in
            subst (Restored n)
              (sym (for_each_hypercube-eq pr size lo room counts-small hs f (cube1, dest)))
              (for_up_inv Restored n 0 n 1 (λ k. f k (position k)) (cube1, dest) (omega arith)
                (omega arith)
                (λ k (cube, vals) hk h.
                  let e : 0 + k * 1 ≡ k = omega arith in
                  let (kept, stored) =
                    decompress_hypercube_lem pr size chunks hb hs lo hi whole small values words
                      position scratch' stream finished.offset k (packed-Stands k hk) cube vals in
                  subst (λ i. Restored (suc k) (f i (position i) (cube, vals))) (sym e)
                    (λ j c hj hc. elim (ℕ_discrete j k) [
                      | yes here ↦
                          subst
                            (λ i.
                              (f k (position k) (cube, vals)).1 (at_address i c)
                              ≡ values (at_address i c))
                            (sym here) (stored c hc)
                      | no ne ↦ kept (at_address j c) (h j c (omega arith) hc)
                    ]))
                (λ j c hj hc. absurd (omega arith)))

        -- The same for a stream that begins with the compressed one.
        pub decompress_prefix :
            (raw_stream' : ℕ)
            → raw_stream' % pr.bytes ≡ 0
            → (vals : Memory) × (decompress pr scratch' size raw_stream' stream cube1 dest
                ≡ some (end / pr.bytes * pr.bytes + packed.1, vals))
              × ((a : ℕ) → a < num_elements pr.dims size → vals a ≡ values a)
        unfolding decompress
        decompress_prefix raw_stream' aligned' =
            let total : num_elements pr.dims size ≡ volume size pr.dims =
              num_elements-eq pr.dims size size ∙ mod-eq_of_lt cells in
            let accepted' : ltb 0 (raw_stream' % pr.bytes) ≡ false =
              le→ltb 0 (raw_stream' % pr.bytes) (omega arith) in
            let restored =
              λ (k c : ℕ) (hk : k < n) (hc : c < chunks * w pr.bytes). run-Restored k c hk hc in
            let result = unpacked run.1 restored in
            let count = end / pr.bytes * pr.bytes + packed.1 in
            let read = border pr.bytes n stream / pr.bytes * pr.bytes + result.1 in
            let same_count : read ≡ count =
              ap (λ (p : ℕ). p / pr.bytes * pr.bytes + result.1) packed-end
              ∙ ap (λ (b : ℕ). end / pr.bytes * pr.bytes + b) ((unpacked_lem run.1 restored).0) in
            (
              result.0,
              ap (λ (b : Bool). if b then none else some (read, result.0)) accepted'
                  ∙ ap (λ (k : ℕ). some (k, result.0)) same_count,
              λ a ha. unpacked-restored run.1 restored a (subst (λ t. a < t) total ha),
            )

    pub compress-packed :
        (raw_stream : ℕ)
        → raw_stream % pr.bytes ≡ 0
        → compress pr scratch size raw_stream values cube0 stream0
          ≡ some (end / pr.bytes * pr.bytes + packed.1, packed.0)
    unfolding compress
    compress-packed raw_stream aligned =
        ap (λ (b : Bool). if b then none else some (end / pr.bytes * pr.bytes + packed.1, packed.0))
          (le→ltb 0 (raw_stream % pr.bytes) (omega arith))

    module _ (scratch' : ℕ → Memory) (cube1 dest : Memory) where
      -- For one to three dimensions, a side and a type that are not empty, hypercubes of fewer than
      -- `2 ^ 32` cells and a whole number of chunks, extents that leave room for one more side below
      -- `2 ^ 32`, an array of fewer than `2 ^ 32` elements that all fit into their type, a header
      -- and hypercubes that stay below `2 ^ 32` bytes and words, and streams at aligned addresses:
      -- `compress` produces a stream, `decompress` of this stream succeeds and reports the same
      -- number of bytes, and every element of the array has its value again, whatever the cube
      -- buffers, the local arrays, the stream and the array held before.
      pub decompress-compress :
          (raw_stream raw_stream' : ℕ)
          → raw_stream % pr.bytes ≡ 0
          → raw_stream' % pr.bytes ≡ 0
          → (count : ℕ) × (stream vals : Memory) × (compress pr scratch size raw_stream values cube0
                stream0
              ≡ some (count, stream))
            × (decompress pr scratch' size raw_stream' stream cube1 dest ≡ some (count, vals))
            × ((a : ℕ) → a < num_elements pr.dims size → vals a ≡ values a)
      decompress-compress raw_stream raw_stream' aligned aligned' =
          let (vals, read, restored) =
            decompress_prefix packed.0 (λ a h. refl) scratch' cube1 dest raw_stream' aligned' in
          (
            end / pr.bytes * pr.bytes + packed.1,
            packed.0,
            vals,
            compress-packed raw_stream aligned,
            read,
            restored,
          )
