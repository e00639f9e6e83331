-- ===== src/ZeroBit/Chunks.antt =====
-- The layout of a compressed hypercube: a head for each chunk, then the chunks' bodies in order.
use ndzip.Base.{
  ℕ, zero, suc, ◌+◌, ◌-◌, ◌*◌, ◌≤◌, ◌<◌, ◌≡◌, refl, ap, ◌∙◌, ◌⊎◌, inl, inr, arith, mul-add-lt,
  eq→==,
}
use native.Mathlib.Nat.{mul-le-mul_right}
use native.Mathlib.Decide.{ℕ_discrete}
use ndzip.Base.Bits.{bit, zero-bit}
use ndzip.Word.{IsWord}
use ndzip.Memory.{Memory}
use ndzip.Bytes.{load_aligned}
use ndzip.Bytes.Laws.{load_aligned_cong}
use ndzip.ZeroBit.{w, generate_zero_map, transpose_bits_trivial}
use ndzip.ZeroBit.Transpose.{IsTranspose, transpose_bits_trivial-IsTranspose}
use ndzip.ZeroBit.ZeroMap.{generate_zero_map-eq-zero, transposed-eq-zero_iff}
use ndzip.ZeroBit.Words.{count_nonzero, count_nonzero-le, IsPacked, IsPacked-cong, IsHead}

count_nonzero_none : (u : Memory) (c : ℕ) → ((i : ℕ) → i < c → u i ≡ 0) → count_nonzero u c ≡ 0
count_nonzero_none u zero h = refl
count_nonzero_none u (suc c) h =
    rw (eq→== (u c) 0 (h c (omega arith)))
      (omega (arith, count_nonzero_none u c (λ i lt. h i (omega arith))))

-- `chunks` chunks of `w` words, compressed to the stream from `p` on.
module _ (bytes : ℕ) (scratch cube : Memory) (chunks p : ℕ) where
  abbrev pub chunk : ℕ → Memory
  chunk c j = cube (c * w bytes + j)

  -- The rows of the transposed chunk.
  unfoldable pub planes : ℕ → Memory
  planes c = transpose_bits_trivial (w bytes) (chunk c) 0 scratch

  abbrev pub zero_map : ℕ → ℕ
  zero_map c = generate_zero_map (w bytes) (chunk c)

  -- Where the body of chunk `c` begins, counted from `p`.
  abbrev pub body : ℕ → ℕ
  body zero = chunks * bytes
  body (suc c) = body c + count_nonzero (planes c) (w bytes) * bytes

  pub body_mono : (i c : ℕ) → i ≤ c → body i ≤ body c
  body_mono i zero h = let e : i ≡ 0 = omega arith in rw e (omega arith)
  body_mono i (suc c) h = elim (ℕ_discrete i (suc c)) [
    | yes e ↦ rw e (omega arith)
    | no ne ↦ omega (arith, body_mono i c (omega arith))
  ]

  -- A chunk takes at most its own size, besides its head.
  pub body-le : (c : ℕ) → body c ≤ chunks * bytes + c * (w bytes * bytes)
  body-le zero = omega arith
  body-le (suc c) =
      let most : count_nonzero (planes c) (w bytes) * bytes ≤ w bytes * bytes =
        mul-le-mul_right bytes (count_nonzero-le (planes c) (w bytes)) in
      omega (arith, body-le c)

  -- The first `c` chunks stand in the stream.
  pub record IsEncoded (c : ℕ) (x : Memory) : Type 0 where
    pub heads : (k : ℕ) → k < c → load_aligned bytes (p + k * bytes) x ≡ zero_map k
    pub bodies : (k : ℕ) → k < c → IsPacked bytes (planes k) (p + body k) (w bytes) x

  -- They do so as long as their heads and bodies are left alone.
  pub IsEncoded_cong :
      (c : ℕ) (x y : Memory)
      → c ≤ chunks
      → ((a : ℕ)
          → p ≤ a
          → (a < p + c * bytes) ⊎ ((p + chunks * bytes ≤ a) × (a < p + body c))
          → y a ≡ x a)
      → IsEncoded c x
      → IsEncoded c y
  IsEncoded_cong c x y hc same e = record {
    heads = λ k hk.
        let room : k * bytes + bytes ≤ c * bytes = grind arith in
        load_aligned_cong bytes (p + k * bytes) y x
          (λ i hi. same (p + k * bytes + i) (omega arith) (inl (omega arith)))
        ∙ e.heads k hk;
    bodies = λ k hk.
        IsPacked-cong bytes (planes k) (p + body k) (w bytes) x y
          (λ a lo hi. same a (omega arith) (
            inr
              (omega (arith, body_mono 0 k (omega arith)), omega (arith, body_mono (suc k) c hk))))
          (e.bodies k hk);
  }

  module _ (words : (a : ℕ) → a < chunks * w bytes → IsWord (w bytes) (cube a)) where
    pub chunk-IsWord : (c j : ℕ) → c < chunks → j < w bytes → IsWord (w bytes) (chunk c j)
    chunk-IsWord c j hc hj = words (c * w bytes + j) (mul-add-lt c j chunks (w bytes) hc hj)

    pub planes-IsTranspose : (c : ℕ) → IsTranspose (w bytes) (chunk c) 0 (planes c)
    unfolding planes
    planes-IsTranspose c = transpose_bits_trivial-IsTranspose (w bytes) (chunk c) 0 scratch

    zero_add : (i : ℕ) → 0 + i ≡ i
    zero_add i = omega arith

    pub planes-IsWord : (c i : ℕ) → i < w bytes → IsWord (w bytes) (planes c i)
    planes-IsWord c i hi = rw zero_add at ((planes-IsTranspose c i hi).0)

    pub zero_map-IsHead : (c : ℕ) → c < chunks → IsHead bytes (planes c) (p + body c) (zero_map c)
    zero_map-IsHead c hc i hi = rw zero_add at (
        transposed-eq-zero_iff (w bytes) (chunk c) (λ j hj. chunk-IsWord c j hc hj) 0 (planes c)
          (planes-IsTranspose c) i hi)

    -- A chunk of zeros has no body.
    pub zero_chunk :
        (c : ℕ)
        → c < chunks
        → zero_map c ≡ 0
        → ((j : ℕ) → j < w bytes → chunk c j ≡ 0)
          × ((i : ℕ) → i < w bytes → planes c i ≡ 0)
          × (body (suc c) ≡ body c)
    zero_chunk c hc e =
        let empty : (i : ℕ) → i < w bytes → planes c i ≡ 0 = λ i hi.
          (zero_map-IsHead c hc i hi).0
            (ap (λ (t : ℕ). bit t (w bytes - 1 - i)) e ∙ zero-bit (w bytes - 1 - i)) in
        (
          (generate_zero_map-eq-zero (w bytes) (chunk c) (λ j hj. chunk-IsWord c j hc hj)).0 e,
          empty,
          rw (count_nonzero_none (planes c) (w bytes) empty) (omega arith),
        )
