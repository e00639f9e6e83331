-- ===== src/Avx2/Transpose.antt =====
-- cpu_encoder.inl, `transpose_bits_avx2`: a 256-bit register is the function from the numbers of its
-- bytes to bytes.
pub mod Shuffles
pub mod Rows
pub mod Equal
use ndzip.Base.{
  ℕ, zero, suc, ◌+◌, ◌-◌, ◌*◌, ◌/◌, ◌%◌, ◌^◌, ◌==◌, ltb, List, [], ◌∷◌, if◌then◌else◌, for_up,
}
use ndzip.Memory.{Memory, update}

-- A `__m256i`, by its bytes.
abbrev pub Bytes256 : Type 0
Bytes256 = ℕ → ℕ

-- The bytes of an array of words of `bytes` bytes, and the register `i` of the array.
abbrev pub array_byte : ℕ → Memory → ℕ → ℕ
array_byte bytes vs m = vs (m / bytes) / 256 ^ (m % bytes) % 256

abbrev pub load_bytes : (ℕ → ℕ) → ℕ → Bytes256
load_bytes byte i = λ b. byte (32 * i + b)

-- `_mm256_shuffle_epi8`, for indices below 128.
abbrev pub shuffle_epi8 : Bytes256 → (ℕ → ℕ) → Bytes256
shuffle_epi8 a idx = λ b. a (b / 16 * 16 + idx b % 16)

abbrev pub permutevar8x32_epi32 : Bytes256 → (ℕ → ℕ) → Bytes256
permutevar8x32_epi32 a idx = λ b. a (idx (b / 4) % 8 * 4 + b % 4)

-- `_mm256_unpacklo` and `_mm256_unpackhi` of elements of `size` bytes: within each half, the elements
-- of both registers' lower or upper quarter in turn.
abbrev pub unpack : ℕ → ℕ → Bytes256 → Bytes256 → Bytes256
unpack size from a b = λ k.
    let place = k / 16 * 16 + from + k % 16 / (2 * size) * size + k % size in
    if k % 16 / size % 2 == 0 then a place else b place

abbrev pub unpacklo : ℕ → Bytes256 → Bytes256 → Bytes256
unpacklo size = unpack size 0

abbrev pub unpackhi : ℕ → Bytes256 → Bytes256 → Bytes256
unpackhi size = unpack size 8

-- The half that a nibble of the control selects.
abbrev pub half : Bytes256 → Bytes256 → ℕ → ℕ → ℕ
half a b control k =
    if control % 4 / 2 == 0 then a (control % 2 * 16 + k) else b (control % 2 * 16 + k)

-- `_mm256_permute2x128_si256`, for a control that clears no half.
abbrev pub permute2x128_si256 : Bytes256 → Bytes256 → ℕ → Bytes256
permute2x128_si256 a b control =
    λ k. if ltb k 16 then half a b control k else half a b (control / 16) (k - 16)

abbrev pub permute4x64_epi64 : Bytes256 → ℕ → Bytes256
permute4x64_epi64 a control = λ k. a (control / 4 ^ (k / 8) % 4 * 8 + k % 8)

-- `_mm256_slli_epi32(v, 1)`: the bits that leave a byte enter the next byte of the doubleword.
abbrev pub slli_epi32_1 : Bytes256 → Bytes256
slli_epi32_1 v = λ k. (v k * 2 + (if k % 4 == 0 then 0 else v (k - 1) / 128)) % 256

-- The top bits of the first `n` bytes.
abbrev pub top_bits : ℕ → Bytes256 → ℕ
top_bits zero v = 0
top_bits (suc n) v = top_bits n v + v n / 128 % 2 * 2 ^ n

-- `_mm256_movemask_epi8`.
abbrev pub movemask_epi8 : Bytes256 → ℕ
movemask_epi8 = top_bits 32

-- The array literals of the shuffles.
abbrev pub get : List ℕ → ℕ → ℕ
get [] i = 0
get (x ∷ l) zero = x
get (x ∷ l) (suc i) = get l i

abbrev pub idx8_32 : List ℕ
idx8_32 =
    12 ∷ 8 ∷ 4 ∷ 0 ∷ 13 ∷ 9 ∷ 5 ∷ 1 ∷ 14 ∷ 10 ∷ 6 ∷ 2 ∷ 15 ∷ 11 ∷ 7 ∷ 3 ∷ 12 ∷ 8 ∷ 4 ∷ 0 ∷ 13 ∷ 9
    ∷ 5 ∷ 1 ∷ 14 ∷ 10 ∷ 6 ∷ 2 ∷ 15 ∷ 11 ∷ 7 ∷ 3 ∷ []

abbrev pub idx32 : List ℕ
idx32 = 7 ∷ 3 ∷ 6 ∷ 2 ∷ 5 ∷ 1 ∷ 4 ∷ 0 ∷ []

-- The registers `shuf`, `perm`, `unpck1` and `perm2` at `uint32_t`, from the loaded ones.
pub shuf_32 : (ℕ → Bytes256) → ℕ → Bytes256
shuf_32 unpck0 i = shuffle_epi8 (unpck0 i) (get idx8_32)

pub perm_32 : (ℕ → Bytes256) → ℕ → Bytes256
unfolding shuf_32
perm_32 unpck0 i = permutevar8x32_epi32 (shuf_32 unpck0 i) (get idx32)

pub unpck1_32 : (ℕ → Bytes256) → ℕ → Bytes256
unfolding perm_32
unpck1_32 unpck0 i =
    if i % 2 == 1
    then unpackhi 8 (perm_32 unpck0 i) (perm_32 unpck0 (i - 1))
    else unpacklo 8 (perm_32 unpck0 (i + 1)) (perm_32 unpck0 i)

pub perm2_32 : (ℕ → Bytes256) → ℕ → Bytes256
unfolding unpck1_32
perm2_32 unpck0 i =
    permute2x128_si256 (unpck1_32 unpck0 (2 + i % 2)) (unpck1_32 unpck0 (i % 2))
      (if ltb i 2 then 0x20 else 0x31)

-- One row of the result: the top bits of the bytes, which then move up.
pub extract_32 : ℕ → ℕ → Memory × Bytes256 → Memory × Bytes256
extract_32 i j (out, perm2) = (update out (i * 8 + j) (movemask_epi8 perm2), slli_epi32_1 perm2)

-- `transpose_bits_avx2(vs, out)` at `uint32_t`.
unfoldable pub transpose_bits_avx2_32 : Memory → Memory → Memory
unfolding perm2_32 extract_32 for_up
transpose_bits_avx2_32 vs out =
    for_up 0 4 1
      (λ i out. (for_up 0 8 1 (extract_32 i) (out, perm2_32 (load_bytes (array_byte 4 vs)) i)).0)
      out

abbrev pub idx8_64 : List ℕ
idx8_64 =
    7 ∷ 6 ∷ 15 ∷ 14 ∷ 5 ∷ 4 ∷ 13 ∷ 12 ∷ 3 ∷ 2 ∷ 11 ∷ 10 ∷ 1 ∷ 0 ∷ 9 ∷ 8 ∷ 7 ∷ 6 ∷ 15 ∷ 14 ∷ 5 ∷ 4
    ∷ 13 ∷ 12 ∷ 3 ∷ 2 ∷ 11 ∷ 10 ∷ 1 ∷ 0 ∷ 9 ∷ 8 ∷ []

-- The arrays `unpck0` to `unpck3` at `uint64_t`: each pair of neighbours in the result unpacks the
-- registers `apart` apart, in blocks of twice as many.
pub unpck_64 : ℕ → ℕ → (ℕ → Bytes256) → ℕ → Bytes256
unpck_64 size apart v m =
    let a = m / (2 * apart) * (2 * apart) + m % (2 * apart) / 2 in
    if m % 2 == 1 then unpackhi size (v a) (v (a + apart)) else unpacklo size (v a) (v (a + apart))

pub perm0_64 : (ℕ → Bytes256) → ℕ → Bytes256
unfolding unpck_64
perm0_64 v m =
    permute4x64_epi64 (unpck_64 1 4 (unpck_64 4 4 (unpck_64 2 2 (unpck_64 1 1 v))) (15 - m))
      0b00100111

pub shuf0_64 : (ℕ → Bytes256) → ℕ → Bytes256
unfolding perm0_64
shuf0_64 v m = shuffle_epi8 (perm0_64 v (m / 2 + m % 2 * 8)) (get idx8_64)

-- Two doublewords are one word of the result.
pub extract_64 : ℕ → ℕ → Memory × (Bytes256 × Bytes256) → Memory × (Bytes256 × Bytes256)
extract_64 i j (out, (lower, upper)) = (
  update out (i * 8 + j) (movemask_epi8 lower + movemask_epi8 upper * 2 ^ 32),
  (slli_epi32_1 lower, slli_epi32_1 upper),
)

-- `transpose_bits_avx2(vs, out)` at `uint64_t`.
unfoldable pub transpose_bits_avx2_64 : Memory → Memory → Memory
unfolding shuf0_64 extract_64 for_up
transpose_bits_avx2_64 vs out =
    let shuf0 = shuf0_64 (load_bytes (array_byte 8 vs)) in
    for_up 0 8 1
      (λ i out. (for_up 0 8 1 (extract_64 i) (out, (shuf0 (2 * i), shuf0 (2 * i + 1)))).0) out
