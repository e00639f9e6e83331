-- ===== src/Avx2/Transpose/Shuffles.antt =====
-- Where the shuffles of `transpose_bits_avx2` take each byte.
use ndzip.Base.{
  ℕ, zero, suc, ◌+◌, ◌-◌, ◌*◌, ◌/◌, ◌%◌, ◌<◌, ◌≡◌, refl, ap, ◌∙◌, fun_ext, arith, Bool, true, false,
  ◌&&◌, ◌==◌, ==→eq, ltb, if◌then◌else◌,
}
use native.Mathlib.Decide.{ℕ_discrete}
use ndzip.Avx2.Transpose.{
  unpack, half, permute2x128_si256, permute4x64_epi64, shuffle_epi8, get, idx8_64, Bytes256,
  load_bytes, perm_32, unpck1_32, perm2_32, unpck_64, perm0_64, shuf0_64,
}

abbrev all_below : ℕ → (ℕ → Bool) → Bool
all_below zero test = true
all_below (suc n) test = all_below n test && test n

-- The bytes under their own numbers.
abbrev numbered : ℕ → Bytes256
numbered = load_bytes (λ m. m)

abbrev place_32 : ℕ → ℕ → Bool
place_32 i t = perm2_32 numbered i t == 4 * (31 - t) + (3 - i)

abbrev place_64 : ℕ → ℕ → Bool
place_64 m t = shuf0_64 numbered m t == 8 * (63 - (m % 2 * 32 + t)) + (7 - m / 2)

places_32 : all_below 4 (λ i. all_below 32 (place_32 i)) ≡ true
unfolding perm2_32
places_32 = refl

places_64 : all_below 16 (λ m. all_below 32 (place_64 m)) ≡ true
unfolding shuf0_64
places_64 = refl

all_below-at : (n : ℕ) (test : ℕ → Bool) → all_below n test ≡ true → (k : ℕ) → k < n → test k ≡ true
all_below-at zero test h k lt = absurd (omega (arith, lt))
all_below-at (suc n) test h k lt = elim (ℕ_discrete k n) [
  | yes e ↦ ap test e ∙ ground (arith, h)
  | no ne ↦ all_below-at n test (ground (arith, h)) k (omega (arith, lt, ne))
]

-- The shuffles move bytes and do not look at them.
module _ (f : ℕ → ℕ) where
  choose : (c : Bool) (x y : ℕ) → (if c then f x else f y) ≡ f (if c then x else y)
  choose true x y = refl
  choose false x y = refl

  choose_at :
      (c : Bool) (g h g' h' : Bytes256) (k : ℕ)
      → g k ≡ f (g' k)
      → h k ≡ f (h' k)
      → (if c then g else h) k ≡ f ((if c then g' else h') k)
  choose_at true g h g' h' k p q = p
  choose_at false g h g' h' k p q = q

  choose_value :
      (c : Bool) (g h g' h' : ℕ)
      → g ≡ f g'
      → h ≡ f h'
      → (if c then g else h) ≡ f (if c then g' else h')
  choose_value true g h g' h' p q = p
  choose_value false g h g' h' p q = q

  abbrev mapped : (ℕ → Bytes256) → ℕ → Bytes256
  mapped v i k = f (v i k)

  unpack-mapped :
      (size from : ℕ) (a b : Bytes256) (k : ℕ)
      → unpack size from (λ k. f (a k)) (λ k. f (b k)) k ≡ f (unpack size from a b k)
  unpack-mapped size from a b k = choose (k % 16 / size % 2 == 0) _ _

  unpck1_32-mapped : (v : ℕ → Bytes256) (i k : ℕ) → unpck1_32 (mapped v) i k ≡ f (unpck1_32 v i k)
  unfolding unpck1_32
  unpck1_32-mapped v i k =
      choose_at (i % 2 == 1) _ _ _ _ k (unpack-mapped 8 8 (perm_32 v i) (perm_32 v (i - 1)) k)
        (unpack-mapped 8 0 (perm_32 v (i + 1)) (perm_32 v i) k)

  half-mapped :
      (a b : Bytes256) (control k : ℕ)
      → half (λ k. f (a k)) (λ k. f (b k)) control k ≡ f (half a b control k)
  half-mapped a b control k = choose (control % 4 / 2 == 0) _ _

  perm2_32-mapped : (v : ℕ → Bytes256) (i k : ℕ) → perm2_32 (mapped v) i k ≡ f (perm2_32 v i k)
  unfolding perm2_32
  perm2_32-mapped v i k =
      let a = unpck1_32 v (2 + i % 2) in
      let b = unpck1_32 v (i % 2) in
      let control = if ltb i 2 then 0x20 else 0x31 in
      let a-eq : unpck1_32 (mapped v) (2 + i % 2) ≡ (λ k. f (a k)) =
        fun_ext (unpck1_32-mapped v (2 + i % 2)) in
      let b-eq : unpck1_32 (mapped v) (i % 2) ≡ (λ k. f (b k)) =
        fun_ext (unpck1_32-mapped v (i % 2)) in
      ap (λ (x : Bytes256). permute2x128_si256 x (unpck1_32 (mapped v) (i % 2)) control k) a-eq
      ∙ ap (λ (y : Bytes256). permute2x128_si256 (λ k. f (a k)) y control k) b-eq
      ∙ choose_value (ltb k 16) _ _ _ _ (half-mapped a b control k)
          (half-mapped a b (control / 16) (k - 16))

  unpck_64-mapped :
      (size apart : ℕ) (v : ℕ → Bytes256)
      → unpck_64 size apart (mapped v) ≡ mapped (unpck_64 size apart v)
  unfolding unpck_64
  unpck_64-mapped size apart v = fun_ext λ m. fun_ext λ k.
      let a = m / (2 * apart) * (2 * apart) + m % (2 * apart) / 2 in
      choose_at (m % 2 == 1) _ _ _ _ k (unpack-mapped size 8 (v a) (v (a + apart)) k)
        (unpack-mapped size 0 (v a) (v (a + apart)) k)

  shuf0_64-mapped : (v : ℕ → Bytes256) (m k : ℕ) → shuf0_64 (mapped v) m k ≡ f (shuf0_64 v m k)
  unfolding shuf0_64 perm0_64
  shuf0_64-mapped v m k =
      let chain : unpck_64 1 4 (unpck_64 4 4 (unpck_64 2 2 (unpck_64 1 1 (mapped v))))
          ≡ mapped (unpck_64 1 4 (unpck_64 4 4 (unpck_64 2 2 (unpck_64 1 1 v)))) =
        ap (λ (u : ℕ → Bytes256). unpck_64 1 4 (unpck_64 4 4 (unpck_64 2 2 u)))
          (unpck_64-mapped 1 1 v)
        ∙ ap (λ (u : ℕ → Bytes256). unpck_64 1 4 (unpck_64 4 4 u))
            (unpck_64-mapped 2 2 (unpck_64 1 1 v))
        ∙ ap (unpck_64 1 4) (unpck_64-mapped 4 4 (unpck_64 2 2 (unpck_64 1 1 v)))
        ∙ unpck_64-mapped 1 4 (unpck_64 4 4 (unpck_64 2 2 (unpck_64 1 1 v))) in
      ap
        (λ (u : ℕ → Bytes256).
          shuffle_epi8 (permute4x64_epi64 (u (15 - (m / 2 + m % 2 * 8))) 0b00100111) (get idx8_64)
            k)
        chain

-- The byte `t` of the register `i` is the byte `3 - i` of the word `31 - t`.
pub perm2_32-byte :
    (f : ℕ → ℕ) (i t : ℕ)
    → i < 4
    → t < 32
    → perm2_32 (load_bytes f) i t ≡ f (4 * (31 - t) + (3 - i))
perm2_32-byte f i t hi ht =
    perm2_32-mapped f numbered i t
    ∙ ap f (
        ==→eq _ _ (
          all_below-at 32 (place_32 i)
            (all_below-at 4 (λ i. all_below 32 (place_32 i)) places_32 i hi) t ht))

-- The bytes of the pair of registers `i` are the bytes `7 - i` of the words, from the last word on.
pub shuf0_64-byte :
    (f : ℕ → ℕ) (m t : ℕ)
    → m < 16
    → t < 32
    → shuf0_64 (load_bytes f) m t ≡ f (8 * (63 - (m % 2 * 32 + t)) + (7 - m / 2))
shuf0_64-byte f m t hm ht =
    shuf0_64-mapped f numbered m t
    ∙ ap f (
        ==→eq _ _ (
          all_below-at 32 (place_64 m)
            (all_below-at 16 (λ m. all_below 32 (place_64 m)) places_64 m hm) t ht))

pub perm2_32-lt :
    (f : ℕ → ℕ) (i : ℕ) → ((m : ℕ) → f m < 256) → (t : ℕ) → perm2_32 (load_bytes f) i t < 256
perm2_32-lt f i h t = rw (perm2_32-mapped f numbered i t) (h (perm2_32 numbered i t))

pub shuf0_64-lt :
    (f : ℕ → ℕ) (m : ℕ) → ((m : ℕ) → f m < 256) → (t : ℕ) → shuf0_64 (load_bytes f) m t < 256
shuf0_64-lt f m h t = rw (shuf0_64-mapped f numbered m t) (h (shuf0_64 numbered m t))
