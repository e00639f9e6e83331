-- ===== src/ZeroBit/RoundTrip.antt =====
-- The residual coder as a whole: what the encoder writes, the decoder reads.
use ndzip.Base.{ℕ, ◌+◌, ◌*◌, ◌≤◌, ◌<◌, ◌≡◌, ◌∙◌, sym, ◌⊎◌, arith}
use ndzip.Word.{IsWord}
use ndzip.Memory.{Memory}
use ndzip.ZeroBit.{
  w, transpose_bits_trivial, compact_zero_words, expand_zero_words, zero_bit_encode,
  zero_bit_decode,
}
use ndzip.ZeroBit.Transpose.{IsTranspose-twice, transpose_bits_trivial-IsTranspose}
use ndzip.ZeroBit.Words.{IsHead, compact_zero_words_lem, expand_zero_words_lem}
use ndzip.ZeroBit.Chunks.{body-le}
use ndzip.ZeroBit.Encode.{zero_bit_encode_lem}
use ndzip.ZeroBit.Decode.{zero_bit_decode_lem}

-- A transpose of the transpose of `width` words has these words again, whatever the two output
-- arrays held before and wherever the second transpose is written.
pub transpose_bits_trivial_twice :
    (width : ℕ) (vs mid out : Memory) (q : ℕ)
    → ((i : ℕ) → i < width → IsWord width (vs i))
    → (i : ℕ) → i < width
    → transpose_bits_trivial width (transpose_bits_trivial width vs 0 mid) q out (q + i) ≡ vs i
transpose_bits_trivial_twice width vs mid out q words =
    let there = transpose_bits_trivial width vs 0 mid in
    IsTranspose-twice width q vs there (transpose_bits_trivial width there q out) words
      (transpose_bits_trivial-IsTranspose width vs 0 mid)
      (transpose_bits_trivial-IsTranspose width there q out)

-- For cells that are words, with a head whose bits tell which of them are not 0:
-- `expand_zero_words` reads as many bytes as `compact_zero_words` wrote, and restores every word of
-- the block.
pub expand_zero_words-compact_zero_words :
    (bytes : ℕ) (u : Memory) (p head : ℕ) (stream shifted : Memory)
    → ((i : ℕ) → i < w bytes → IsWord (w bytes) (u i))
    → IsHead bytes u p head
    → let packed = compact_zero_words bytes u p stream in
      let unpacked = expand_zero_words bytes packed.1 p shifted head in
      (unpacked.0 ≡ packed.0) × ((i : ℕ) → i < w bytes → unpacked.1 i ≡ u i)
expand_zero_words-compact_zero_words bytes u p head stream shifted words is_head =
    let (size, outside, packed) = compact_zero_words_lem bytes u p words stream in
    let (read, restored) = expand_zero_words_lem bytes u p _ head is_head packed shifted in
    (read ∙ sym size, restored)

module _ (bytes : ℕ) (hb : 0 < bytes) (chunks p : ℕ) (scratch cube stream : Memory)
    (words : (a : ℕ) → a < chunks * w bytes → IsWord (w bytes) (cube a)) where
  abbrev encoded : ℕ × Memory
  encoded = zero_bit_encode bytes scratch cube p (chunks * w bytes) stream

  -- With words of at least one byte, and a cube of a whole number of chunks whose cells are words:
  -- decoding at `p` what `zero_bit_encode` wrote there gives every cell of the cube back and leaves
  -- the cells behind the cube as they were, and the decoder reports as many bytes as the encoder.
  pub zero_bit_decode-zero_bit_encode :
      (garbage old : Memory)
      → let decoded = zero_bit_decode bytes garbage encoded.1 p (chunks * w bytes) old in
        (decoded.0 ≡ encoded.0)
        × ((a : ℕ) → a < chunks * w bytes → decoded.1 a ≡ cube a)
        × ((a : ℕ) → chunks * w bytes ≤ a → decoded.1 a ≡ old a)
  zero_bit_decode-zero_bit_encode garbage old =
      let (size, outside, layout) =
        zero_bit_encode_lem bytes hb scratch cube chunks p words stream in
      let (read, restored, others) =
        zero_bit_decode_lem bytes hb scratch cube chunks p words encoded.1 layout garbage old in
      (read ∙ sym size, restored, others)

  -- With words of at least one byte, and a cube of a whole number of chunks whose cells are words:
  -- the encoder reports at most `w + 1` words for each chunk of `w` words, and changes nothing of
  -- the stream before its start or behind the bytes that it reports.
  pub zero_bit_encode_bounds :
      (encoded.0 ≤ chunks * (w bytes + 1) * bytes)
      × ((a : ℕ) → (a < p) ⊎ (p + encoded.0 ≤ a) → encoded.1 a ≡ stream a)
  zero_bit_encode_bounds =
      let (size, outside, layout) =
        zero_bit_encode_lem bytes hb scratch cube chunks p words stream in
      (omega (arith, size, body-le bytes scratch cube chunks p chunks), outside)
