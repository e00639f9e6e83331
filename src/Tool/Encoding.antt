-- ===== src/Tool/Encoding.antt =====
-- ndzip/cpu_encoder.inl behind the interface of the compress tool: the elements of an array in a
-- chunk of bytes, and the encoder that compresses and restores them.
use native.Mathlib.Nat.{div-add-mod', mod-lt, div-lt_iff_lt-mul}
use ndzip.Base.{
  ℕ, ◌+◌, ◌*◌, ◌/◌, ◌%◌, ◌^◌, ◌≤◌, ◌<◌, ◌≡◌, ap, sym, ◌∙◌, arith, Option, none, some, ltb, lt→ltb,
  if◌then◌else◌, Bool, pow2-mul8,
}
use ndzip.Word.{bits_of}
use ndzip.Memory.{Memory}
use ndzip.Bytes.{byte_of, value_of}
use ndzip.Bytes.Places.{value_of-lt, byte_of-value_of}
use ndzip.Extent.{Extent, num_elements}
use ndzip.Extent.Laws.{volume}
use ndzip.Grid.{Profile, num_hypercubes}
use ndzip.Border.Slices.{border_slices}
use ndzip.Border.RoundTrip.{total}
use ndzip.Stream.{base_byte_offset}
use ndzip.Encoder.{compress, decompress}
use ndzip.Encoder.Lossless.{
  packed, end, end-whole, end-ge, end-le, packed-total, compress-packed, decompress_prefix,
}
use ndzip.Tool.Codec.{Codec, AreBytes}

-- The elements of `bytes` bytes in a chunk, and the bytes of elements.
abbrev pub elements : ℕ → Memory → Memory
elements bytes chunk a = value_of bytes (λ i. chunk (a * bytes + i) % 256)

abbrev pub element_bytes : ℕ → Memory → Memory
element_bytes bytes vals i = byte_of (vals (i / bytes)) (i % bytes)

elements-lt : (bytes : ℕ) (chunk : Memory) (a : ℕ) → elements bytes chunk a < 2 ^ bits_of bytes
elements-lt bytes chunk a =
    rw pow2-mul8 (value_of-lt bytes (λ i. chunk (a * bytes + i) % 256) (λ i. omega arith))

element_bytes-elements :
    (bytes : ℕ) (chunk vals : Memory) (i : ℕ)
    → 0 < bytes
    → AreBytes chunk
    → vals (i / bytes) ≡ elements bytes chunk (i / bytes)
    → element_bytes bytes vals i ≡ chunk i
element_bytes-elements bytes chunk vals i hb are e =
    let place : i / bytes * bytes + i % bytes ≡ i = div-add-mod' i bytes in
    ap (λ v. byte_of v (i % bytes)) e
    ∙ byte_of-value_of bytes (λ j. chunk (i / bytes * bytes + j) % 256) (λ j. omega arith)
        (i % bytes) (mod-lt i hb)
    ∙ ap (λ (j : ℕ). chunk j % 256) place
    ∙ (let b = are i in let e : chunk i % 256 ≡ chunk i = omega arith in e)

-- What the tool has after a call: the throw for streams that are not aligned leaves the buffer.
abbrev after_compress : Memory → Option (ℕ × Memory) → ℕ × Memory
after_compress buffer none = (0, buffer)
after_compress buffer (some r) = r

-- The restored elements as bytes of the chunk of `length` bytes.
abbrev after_decompress : ℕ → ℕ → Memory → Option (ℕ × Memory) → ℕ × Memory
after_decompress bytes length target none = (0, target)
after_decompress bytes length target (some (n, vals)) =
    (n, λ i. if ltb i length then element_bytes bytes vals i else target i)

-- `array_chunk_length`.
abbrev pub chunk_length : Profile → Extent → ℕ
chunk_length pr size = num_elements pr.dims size * pr.bytes

-- `encoder.compress` and `encoder.decompress` of the loops, with streams at the address `raw_stream`.
module _ (pr : Profile) (size : Extent) (scratch : ℕ → Memory) (cube : Memory)
    (raw_stream : ℕ) where
  abbrev pub cpu_compress : Memory → Memory → ℕ × Memory
  cpu_compress chunk buffer =
      after_compress buffer
        (compress pr scratch size raw_stream (elements pr.bytes chunk) cube buffer)

  abbrev pub cpu_decompress : Memory → ℕ → Memory → ℕ × Memory
  cpu_decompress stream length target =
      after_decompress pr.bytes (chunk_length pr size) target
        (decompress pr scratch size raw_stream stream cube (elements pr.bytes target))

module _ (pr : Profile) (size : Extent) (chunks : ℕ) (hb : 0 < pr.bytes) (hs : 0 < pr.side)
    (lo : 0 < pr.dims) (hi : pr.dims ≤ 3) (whole : pr.side ^ pr.dims ≡ chunks * bits_of pr.bytes)
    (small : pr.side ^ pr.dims < 2 ^ 32) (room : (d : ℕ) → d < pr.dims → size d + pr.side < 2 ^ 32)
    (cells : volume size pr.dims < 2 ^ 32) (header : num_hypercubes pr size * 4 + pr.bytes < 2 ^ 32)
    (fits : num_hypercubes pr size * (chunks * (bits_of pr.bytes + 1)) < 2 ^ 32)
    (scratch : ℕ → Memory) (cube : Memory) (raw_stream : ℕ)
    (aligned : raw_stream % pr.bytes ≡ 0) where
  module _ (chunk buffer : Memory) where
    abbrev result : Memory × ℕ
    result =
        packed pr size chunks hb hs lo hi whole small room cells header fits
          (elements pr.bytes chunk) (elements-lt pr.bytes chunk) scratch cube buffer

    abbrev border_at : ℕ
    border_at =
        end pr size chunks hb hs lo hi whole small room cells header fits (elements pr.bytes chunk)
          (elements-lt pr.bytes chunk) scratch cube buffer

    cpu_compress-eq :
        cpu_compress pr size scratch cube raw_stream chunk buffer ≡ (border_at + result.1, result.0)
    cpu_compress-eq =
        ap (after_compress buffer) (
          compress-packed pr size chunks hb hs lo hi whole small room cells header fits
            (elements pr.bytes chunk) (elements-lt pr.bytes chunk) scratch cube buffer raw_stream
            aligned)
        ∙ ap (λ (p : ℕ). (p + result.1, result.0))
            (end-whole pr size chunks hb hs lo hi whole small room cells header fits
              (elements pr.bytes chunk) (elements-lt pr.bytes chunk) scratch cube buffer)

    length-eq : (cpu_compress pr size scratch cube raw_stream chunk buffer).0 ≡ border_at + result.1
    length-eq = ap (λ (r : ℕ × Memory). r.0) cpu_compress-eq

    pub length-positive :
        0 < num_hypercubes pr size
        → 0 < (cpu_compress pr size scratch cube raw_stream chunk buffer).0
    length-positive cubes = rw length-eq (
        let l =
          end-ge pr size chunks hb hs lo hi whole small room cells header fits
            (elements pr.bytes chunk) (elements-lt pr.bytes chunk) scratch cube buffer in
        omega arith)

    pub length-le :
        (cpu_compress pr size scratch cube raw_stream chunk buffer).0
        ≤ base_byte_offset pr.bytes (num_hypercubes pr size)
          + num_hypercubes pr size * (chunks * (bits_of pr.bytes + 1)) * pr.bytes
          + total (border_slices pr.dims size pr.side) * pr.bytes
    length-le = rw length-eq (
        let l =
          end-le pr size chunks hb hs lo hi whole small room cells header fits
            (elements pr.bytes chunk) (elements-lt pr.bytes chunk) scratch cube buffer in
        let t =
          packed-total pr size chunks hb hs lo hi whole small room cells header fits
            (elements pr.bytes chunk) (elements-lt pr.bytes chunk) scratch cube buffer in
        omega arith)

    -- From a stream that begins with the compressed chunk, `decompress` restores the chunk.
    module _ (stream target : Memory) (length : ℕ)
        (same : (i : ℕ)
          → i < (cpu_compress pr size scratch cube raw_stream chunk buffer).0
          → stream i ≡ (cpu_compress pr size scratch cube raw_stream chunk buffer).1 i) where
      same_result : (i : ℕ) → i < border_at + result.1 → stream i ≡ result.0 i
      same_result i hi' = same i (rw length-eq hi') ∙ ap (λ (r : ℕ × Memory). r.1 i) cpu_compress-eq

      pub cpu_decompress_lem :
          let back = cpu_decompress pr size scratch cube raw_stream stream length target in
          (back.0 ≡ (cpu_compress pr size scratch cube raw_stream chunk buffer).0)
          × (AreBytes chunk → (i : ℕ) → i < chunk_length pr size → back.1 i ≡ chunk i)
      cpu_decompress_lem =
          let (vals, read, values) =
            decompress_prefix pr size chunks hb hs lo hi whole small room cells header fits
              (elements pr.bytes chunk) (elements-lt pr.bytes chunk) scratch cube buffer stream
              same_result scratch cube (elements pr.bytes target) raw_stream aligned in
          let back = ap (after_decompress pr.bytes (chunk_length pr size) target) read in
          (
            ap (λ (r : ℕ × Memory). r.0) back
                ∙ ap (λ (p : ℕ). p + result.1)
                    (end-whole pr size chunks hb hs lo hi whole small room cells header fits
                      (elements pr.bytes chunk) (elements-lt pr.bytes chunk) scratch cube buffer)
                ∙ sym length-eq,
            λ are i hi.
                ap (λ (r : ℕ × Memory). r.1 i) back
                ∙ ap (λ (b : Bool). if b then element_bytes pr.bytes vals i else target i)
                    (lt→ltb i (chunk_length pr size) hi)
                ∙ element_bytes-elements pr.bytes chunk vals i hb are
                    (values (i / pr.bytes) ((div-lt_iff_lt-mul hb).1 hi)),
          )

  -- The CPU encoder as a codec.
  abbrev pub cpu_codec :
      0 < num_hypercubes pr size
      → (bound : ℕ)
      → base_byte_offset pr.bytes (num_hypercubes pr size)
          + num_hypercubes pr size * (chunks * (bits_of pr.bytes + 1)) * pr.bytes
          + total (border_slices pr.dims size pr.side) * pr.bytes
        ≤ bound
      → Codec (chunk_length pr size) bound
  cpu_codec cubes bound enough = record {
    compress = cpu_compress pr size scratch cube raw_stream;
    decompress = cpu_decompress pr size scratch cube raw_stream;
    compress_positive = λ chunk buffer. length-positive chunk buffer cubes;
    compress_bound = λ chunk buffer. let l = length-le chunk buffer in omega arith;
    decompress_size = λ chunk buffer stream target n are le same.
        (cpu_decompress_lem chunk buffer stream target n same).0;
    decompress_chunk = λ chunk buffer stream target n are le same.
        (cpu_decompress_lem chunk buffer stream target n same).1 are;
  }
