-- ===== src/ZeroBit.antt =====
-- cpu_encoder.inl, the residual coder of one transformed hypercube: chunks of `bits_of<T>` words are
-- transposed as bit matrices, and the words of the transpose that are 0 are left out of the stream.
pub mod Transpose
pub mod ZeroMap
pub mod Words
pub mod Chunks
pub mod Encode
pub mod Decode
pub mod RoundTrip
use Prim.Native.Nat.{bit_or}
use ndzip.Base.{ℕ, ◌+◌, ◌-◌, ◌*◌, ◌/◌, ◌%◌, ◌==◌, if◌then◌else◌, for_up}
use ndzip.Word.{bits_of, shl, shr}
use ndzip.Memory.{Memory, update}
use ndzip.Bytes.{store_aligned, load_aligned}

-- `v & 1u`.
abbrev pub low_bit : ℕ → ℕ
low_bit v = v % 2

-- `generate_zero_map`: the bits that some word of the chunk has.
unfoldable pub generate_zero_map : ℕ → Memory → ℕ
unfolding for_up
generate_zero_map w u = for_up 0 w 1 (λ j zero_map. bit_or zero_map (u j)) 0

-- One round of the inner loop of `transpose_bits_trivial`.
pub transpose_round : ℕ → Memory → ℕ → ℕ → ℕ → Memory → Memory
transpose_round w vs q i j out =
    update out (q + i) (bit_or (out (q + i)) (shl w (low_bit (shr (vs j) (w - 1 - i))) (w - 1 - j)))

pub transpose_row : ℕ → Memory → ℕ → ℕ → Memory → Memory
unfolding transpose_round for_up
transpose_row w vs q i out = for_up 0 w 1 (transpose_round w vs q i) (update out (q + i) 0)

-- `transpose_bits_trivial(vs, out + q)`.
unfoldable pub transpose_bits_trivial : ℕ → Memory → ℕ → Memory → Memory
unfolding transpose_row for_up
transpose_bits_trivial w vs q out = for_up 0 w 1 (transpose_row w vs q) out

-- The variables of either loop: the two positions in the stream, and the array that it writes.
pub record Cursor : Type 0 where
  pub head_pos : ℕ
  pub body_pos : ℕ
  pub target : Memory

module _ (bytes : ℕ) where
  abbrev pub w : ℕ
  w = bits_of bytes

  pub compact_round : Memory → ℕ → ℕ × Memory → ℕ × Memory
  compact_round shifted i (out, stream) =
      if shifted i == 0
      then (out, stream)
      else (out + bytes, store_aligned bytes out (shifted i) stream)

  -- `compact_zero_words(shifted, out0)`: the number of bytes, and the stream.
  unfoldable pub compact_zero_words : Memory → ℕ → Memory → ℕ × Memory
  unfolding compact_round for_up store_aligned
  compact_zero_words shifted out0 stream =
      let (out, stream') = for_up 0 w 1 (compact_round shifted) (out0, stream) in
      (out - out0, stream')

  pub expand_round : Memory → ℕ → ℕ → ℕ × Memory → ℕ × Memory
  expand_round stream head i (at, shifted) =
      if low_bit (shr head (w - 1 - i)) == 0
      then (at, update shifted i 0)
      else (at + bytes, update shifted i (load_aligned bytes at stream))

  -- `expand_zero_words(in0, shifted, head)`: the number of bytes, and the array `shifted`.
  unfoldable pub expand_zero_words : Memory → ℕ → Memory → ℕ → ℕ × Memory
  unfolding expand_round for_up load_aligned
  expand_zero_words stream in0 shifted head =
      let (at, shifted') = for_up 0 w 1 (expand_round stream head) (in0, shifted) in
      (at - in0, shifted')

  -- `scratch` is the local array `transposed` as it is found, with no initial values.
  module _ (scratch : Memory) where
    pub encode_round : Memory → ℕ → ℕ → Cursor → Cursor
    encode_round cube p offset c =
        let chunk = λ (j : ℕ). cube (offset + j) in
        let zero_map = generate_zero_map w chunk in
        let stream = store_aligned bytes (p + c.head_pos) zero_map c.target in
        let transposed = transpose_bits_trivial w chunk 0 scratch in
        let (n, stream') = compact_zero_words transposed (p + c.body_pos) stream in
        if zero_map == 0
        then record { head_pos = c.head_pos + bytes; body_pos = c.body_pos; target = stream }
        else record { head_pos = c.head_pos + bytes; body_pos = c.body_pos + n; target = stream' }

    -- `zero_bit_encode(cube, stream + p, hc_size)`: the number of bytes, and the stream.
    unfoldable pub zero_bit_encode : Memory → ℕ → ℕ → Memory → ℕ × Memory
    unfolding encode_round for_up generate_zero_map store_aligned transpose_bits_trivial
        compact_zero_words
    zero_bit_encode cube p hc_size stream =
        let c =
          for_up 0 hc_size w (encode_round cube p)
            (record { head_pos = 0; body_pos = hc_size / w * bytes; target = stream }) in
        (c.body_pos, c.target)

    pub decode_round : Memory → ℕ → ℕ → Cursor → Cursor
    decode_round stream p i c =
        let head = load_aligned bytes (p + c.head_pos) stream in
        let cleared = for_up 0 w 1 (λ j cube. update cube (i + j) 0) c.target in
        let (n, transposed) = expand_zero_words stream (p + c.body_pos) scratch head in
        if head == 0
        then record { head_pos = c.head_pos + bytes; body_pos = c.body_pos; target = cleared }
        else record {
          head_pos = c.head_pos + bytes;
          body_pos = c.body_pos + n;
          target = transpose_bits_trivial w transposed i c.target;
        }

    -- `zero_bit_decode(stream + p, cube, hc_size)`: the number of bytes read, and the cube.
    unfoldable pub zero_bit_decode : Memory → ℕ → ℕ → Memory → ℕ × Memory
    unfolding decode_round for_up load_aligned expand_zero_words transpose_bits_trivial
    zero_bit_decode stream p hc_size cube =
        let c =
          for_up 0 hc_size w (decode_round stream p)
            (record { head_pos = 0; body_pos = hc_size / w * bytes; target = cube }) in
        (c.body_pos, c.target)
