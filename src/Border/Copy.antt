-- ===== src/Border/Copy.antt =====
-- `memcpy` between elements and bytes.
use native.Mathlib.Nat.{mul-le-mul_right}
use native.Mathlib.Decide.{ℕ_discrete}
use ndzip.Base.{ℕ, suc, ◌+◌, ◌*◌, ◌^◌, ◌≤◌, ◌<◌, ◌≡◌, refl, ◌∙◌, ◌⊎◌, inl, arith, for_up_inv}
use ndzip.Memory.{Memory, update, update_self, update_ne}
use ndzip.Bytes.{store_aligned, load_aligned}
use ndzip.Bytes.Laws.{store_aligned_outside, load_aligned_cong, load_aligned-store_aligned}
use ndzip.Border.{memcpy_out, memcpy_in}

module _ (bytes : ℕ) where
  -- The elements of `src` from `offset` on stand in the bytes from `p` on.
  abbrev pub Holds : ℕ → Memory → ℕ → ℕ → Memory → Type 0
  Holds p src offset count x =
      (i : ℕ) → i < count → load_aligned bytes (p + i * bytes) x ≡ src (offset + i)

  pub Holds-cong :
      (p : ℕ) (src : Memory) (offset count : ℕ) (x y : Memory)
      → ((a : ℕ) → p ≤ a → a < p + count * bytes → y a ≡ x a)
      → Holds p src offset count x
      → Holds p src offset count y
  Holds-cong p src offset count x y same h i hi =
      let room : suc i * bytes ≤ count * bytes = mul-le-mul_right bytes hi in
      load_aligned_cong bytes (p + i * bytes) y x
        (λ b hb. same (p + i * bytes + b) (omega arith) (omega arith))
      ∙ h i hi

  module _ (p : ℕ) (src : Memory) (offset : ℕ) (stream : Memory)
      (fits : (a : ℕ) → src a < 2 ^ (8 * bytes)) where
    record CopiedOut (c : ℕ) (x : Memory) : Type 0 where
      holds : Holds p src offset c x
      outside : (a : ℕ) → (a < p) ⊎ (p + c * bytes ≤ a) → x a ≡ stream a

    CopiedOut-suc :
        (c : ℕ) (x : Memory)
        → CopiedOut c x
        → CopiedOut (suc c) (store_aligned bytes (p + c * bytes) (src (offset + c)) x)
    CopiedOut-suc c x h = record {
      holds = λ i hi. elim (ℕ_discrete i c) [
        | yes e ↦ rw e (
            load_aligned-store_aligned bytes (p + c * bytes) (src (offset + c)) x
              (fits (offset + c)))
        | no ne ↦
            let room : suc i * bytes ≤ c * bytes = mul-le-mul_right bytes (omega arith) in
            load_aligned_cong bytes (p + i * bytes) _ x (λ b hb.
              store_aligned_outside bytes (p + c * bytes) (src (offset + c)) x (p + i * bytes + b)
                (inl (omega arith)))
            ∙ h.holds i (omega arith)
      ];
      outside = λ a away.
          store_aligned_outside bytes (p + c * bytes) (src (offset + c)) x a (grind arith)
          ∙ h.outside a (grind arith);
    }

    memcpy_out-CopiedOut :
        (count : ℕ) → CopiedOut count (memcpy_out bytes p src offset count stream)
    unfolding memcpy_out
    memcpy_out-CopiedOut count =
        for_up_inv CopiedOut count 0 count 1
          (λ i. store_aligned bytes (p + i * bytes) (src (offset + i))) stream (omega arith)
          (omega arith)
          (λ c x lt h. let e : 0 + c * 1 ≡ c = omega arith in rw e (CopiedOut-suc c x h))
          (record { holds = λ i hi. absurd (omega arith); outside = λ a away. refl })

    -- The bytes hold the elements, and no others have changed.
    pub memcpy_out_lem :
        (count : ℕ)
        → Holds p src offset count (memcpy_out bytes p src offset count stream)
          × ((a : ℕ)
              → (a < p) ⊎ (p + count * bytes ≤ a)
              → memcpy_out bytes p src offset count stream a ≡ stream a)
    memcpy_out_lem count = let h = memcpy_out-CopiedOut count in (h.holds, h.outside)

  module _ (stream : Memory) (p : ℕ) (src : Memory) (offset : ℕ) (dest : Memory) where
    record CopiedIn (c : ℕ) (x : Memory) : Type 0 where
      inside : (i : ℕ) → i < c → x (offset + i) ≡ src (offset + i)
      outside : (a : ℕ) → (a < offset) ⊎ (offset + c ≤ a) → x a ≡ dest a

    CopiedIn-suc :
        (c : ℕ) (x : Memory)
        → load_aligned bytes (p + c * bytes) stream ≡ src (offset + c)
        → CopiedIn c x
        → CopiedIn (suc c) (update x (offset + c) (load_aligned bytes (p + c * bytes) stream))
    CopiedIn-suc c x here h = record {
      inside = λ i hi. elim (ℕ_discrete i c) [
        | yes e ↦ rw e (update_self x (offset + c) _ (offset + c) refl ∙ here)
        | no ne ↦ update_ne x (offset + c) _ (offset + i) (omega arith) ∙ h.inside i (omega arith)
      ];
      outside = λ a away. update_ne x (offset + c) _ a (grind arith) ∙ h.outside a (grind arith);
    }

    -- Copying from bytes that hold elements gives these elements.
    pub memcpy_in_lem :
        (count : ℕ)
        → Holds p src offset count stream
        → ((i : ℕ)
            → i < count
            → memcpy_in bytes stream p offset count dest (offset + i) ≡ src (offset + i))
          × ((a : ℕ)
              → (a < offset) ⊎ (offset + count ≤ a)
              → memcpy_in bytes stream p offset count dest a ≡ dest a)
    unfolding memcpy_in
    memcpy_in_lem count holds =
        let h : CopiedIn count (memcpy_in bytes stream p offset count dest) =
          for_up_inv CopiedIn count 0 count 1
            (λ i x. update x (offset + i) (load_aligned bytes (p + i * bytes) stream)) dest
            (omega arith) (omega arith)
            (λ c x lt h.
              let e : 0 + c * 1 ≡ c = omega arith in rw e (CopiedIn-suc c x (holds c lt) h))
            (record { inside = λ i hi. absurd (omega arith); outside = λ a away. refl }) in
        (h.inside, h.outside)
