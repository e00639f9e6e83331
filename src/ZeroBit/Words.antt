-- ===== src/ZeroBit/Words.antt =====
-- `compact_zero_words` and `expand_zero_words`: the words that are not 0, one after the other.
use ndzip.Base.{
  ℕ, zero, suc, ◌+◌, ◌-◌, ◌*◌, ◌≤◌, ◌<◌, ◌≡◌, ◌≢◌, refl, ap, ◌∙◌, sym, ◌⊎◌, inl, ◌↔◌, arith, ◌==◌,
  if◌then◌else◌, for_up, for_up_inv, eq→==, ne→==,
}
use native.Mathlib.Decide.{ℕ_discrete}
use ndzip.Base.Bits.{bit, bit-eq}
use ndzip.Word.{IsWord, shr}
use ndzip.Memory.{Memory, update, update_self, update_ne}
use ndzip.Bytes.{store_aligned, load_aligned}
use ndzip.Bytes.Laws.{store_aligned_outside, load_aligned_cong, load_aligned-store_aligned}
use ndzip.ZeroBit.{w, low_bit, compact_round, compact_zero_words, expand_round, expand_zero_words}

-- How many of the first `c` words are not 0.
abbrev pub count_nonzero : Memory → ℕ → ℕ
count_nonzero u zero = 0
count_nonzero u (suc c) = count_nonzero u c + (if u c == 0 then 0 else 1)

pub count_nonzero-le : (u : Memory) (c : ℕ) → count_nonzero u c ≤ c
count_nonzero-le u zero = omega arith
count_nonzero-le u (suc c) = ground (arith, count_nonzero-le u c)

pub count_nonzero_mono : (u : Memory) (i c : ℕ) → i ≤ c → count_nonzero u i ≤ count_nonzero u c
count_nonzero_mono u i zero h = let e : i ≡ 0 = omega arith in rw e (omega arith)
count_nonzero_mono u i (suc c) h = elim (ℕ_discrete i (suc c)) [
  | yes e ↦ rw e (omega arith)
  | no ne ↦ ground (arith, count_nonzero_mono u i c)
]

-- A word that is not 0 has room before the end.
pub count_nonzero-lt :
    (u : Memory) (i c : ℕ) → i < c → u i ≢ 0 → count_nonzero u i < count_nonzero u c
count_nonzero-lt u i c h ne = ground (arith, count_nonzero_mono u (suc i) c h)

module _ (bytes : ℕ) (u : Memory) (p : ℕ) where
  -- Where the word `i` stands in the stream, if it is not 0.
  abbrev pub slot : ℕ → ℕ
  slot i = p + count_nonzero u i * bytes

  -- The first `c` words of `u` stand in the stream from `p` on, without those that are 0.
  abbrev pub IsPacked : ℕ → Memory → Type 0
  IsPacked c x = (i : ℕ) → i < c → u i ≢ 0 → load_aligned bytes (slot i) x ≡ u i

  -- What is packed stays so while its bytes are left alone.
  pub IsPacked-cong :
      (c : ℕ) (x y : Memory)
      → ((a : ℕ) → p ≤ a → a < slot c → y a ≡ x a)
      → IsPacked c x
      → IsPacked c y
  IsPacked-cong c x y same h i hi ne =
      let room : slot i + bytes ≤ slot c = grind (arith, count_nonzero-lt u i c hi ne) in
      load_aligned_cong bytes (slot i) y x (λ k hk. same (slot i + k) (omega arith) (omega arith))
      ∙ h i hi ne

  module _ (words : (i : ℕ) → i < w bytes → IsWord (w bytes) (u i)) (x : Memory) where
    abbrev CompactUpTo : ℕ → ℕ × Memory → Type 0
    CompactUpTo c t =
        (t.0 ≡ slot c) × ((a : ℕ) → (a < p) ⊎ (slot c ≤ a) → t.1 a ≡ x a) × IsPacked c t.1

    skip : (c : ℕ) (t : ℕ × Memory) → u c ≡ 0 → compact_round bytes u c t ≡ t
    unfolding compact_round
    skip c (out, stream) e = rw (eq→== (u c) 0 e)

    emit :
        (c : ℕ) (t : ℕ × Memory)
        → u c ≢ 0
        → compact_round bytes u c t ≡ (t.0 + bytes, store_aligned bytes t.0 (u c) t.1)
    unfolding compact_round
    emit c (out, stream) ne = rw (ne→== (u c) 0 ne)

    CompactUpTo-suc :
        (c : ℕ) (t : ℕ × Memory)
        → c < w bytes
        → CompactUpTo c t
        → CompactUpTo (suc c) (compact_round bytes u c t)
    CompactUpTo-suc c t hc (at, others, packed) = elim (ℕ_discrete (u c) 0) [
      | yes z ↦
          let none : slot (suc c) ≡ slot c = rw (eq→== (u c) 0 z) (omega arith) in
          rw (skip c t z) (
            at ∙ sym none,
            (λ a h. others a (ground (arith, none))),
            (λ i hi ne. elim (ℕ_discrete i c) [
              | yes e ↦ absurd (ne (ap u e ∙ z))
              | no other ↦ packed i (omega arith) ne
            ]),
          )
      | no ne ↦
          let next : slot (suc c) ≡ slot c + bytes = rw (ne→== (u c) 0 ne) (omega arith) in
          let out = store_aligned_outside bytes t.0 (u c) t.1 in
          rw (emit c t ne) (
            (rw at (sym next)),
            (λ a h. out a (ground (arith, next)) ∙ others a (ground (arith, next))),
            (λ i hi ni. elim (ℕ_discrete i c) [
              | yes e ↦ rw (e, ← at) (load_aligned-store_aligned bytes t.0 (u c) t.1 (words c hc))
              | no other ↦
                  IsPacked-cong c t.1 (store_aligned bytes t.0 (u c) t.1)
                    (λ a lo hi. out a (inl (omega arith))) packed i (omega arith) ni
            ]),
          )
    ]

    -- The words that are not 0 are packed from `p` on, and nothing else of the stream changes.
    pub compact_zero_words_lem :
        ((compact_zero_words bytes u p x).0 ≡ count_nonzero u (w bytes) * bytes)
        × ((a : ℕ) → (a < p) ⊎ (slot (w bytes) ≤ a) → (compact_zero_words bytes u p x).1 a ≡ x a)
        × IsPacked (w bytes) (compact_zero_words bytes u p x).1
    unfolding compact_zero_words
    compact_zero_words_lem =
        let all : CompactUpTo (w bytes) (for_up 0 (w bytes) 1 (compact_round bytes u) (p, x)) =
          for_up_inv CompactUpTo (w bytes) 0 (w bytes) 1 (compact_round bytes u) (p, x)
            (omega arith) (omega arith)
            (λ c t lt h. let e : 0 + c * 1 ≡ c = omega arith in rw e (CompactUpTo-suc c t lt h))
            (omega arith, (λ a h. refl), (λ i h. elim h [ ])) in
        (omega (arith, all.0), all.1, all.2)

  -- `head` has the bit of each word that is not 0, the first word's at the top.
  abbrev pub IsHead : ℕ → Type 0
  IsHead head = (i : ℕ) → i < w bytes → (bit head (w bytes - 1 - i) ≡ 0) ↔ (u i ≡ 0)

  module _ (x : Memory) (head : ℕ) (is_head : IsHead head) (packed : IsPacked (w bytes) x)
      (shifted : Memory) where
    abbrev ExpandUpTo : ℕ → ℕ × Memory → Type 0
    ExpandUpTo c t = (t.0 ≡ slot c) × ((i : ℕ) → i < c → t.1 i ≡ u i)

    low : (c : ℕ) → low_bit (shr head (w bytes - 1 - c)) ≡ bit head (w bytes - 1 - c)
    low c = sym (bit-eq head (w bytes - 1 - c))

    absent :
        (c : ℕ) (t : ℕ × Memory)
        → c < w bytes
        → u c ≡ 0
        → expand_round bytes x head c t ≡ (t.0, update t.1 c 0)
    unfolding expand_round
    absent c (at, y) hc z = rw (eq→== _ 0 (low c ∙ (is_head c hc).1 z))

    present :
        (c : ℕ) (t : ℕ × Memory)
        → c < w bytes
        → u c ≢ 0
        → expand_round bytes x head c t ≡ (t.0 + bytes, update t.1 c (load_aligned bytes t.0 x))
    unfolding expand_round
    present c (at, y) hc ne = rw (ne→== _ 0 (λ e. ne ((is_head c hc).0 (sym (low c) ∙ e))))

    filled :
        (c v : ℕ) (y : Memory)
        → v ≡ u c
        → ((i : ℕ) → i < c → y i ≡ u i)
        → (i : ℕ) → i < suc c
        → update y c v i ≡ u i
    filled c v y e h i hi = elim (ℕ_discrete i c) [
      | yes here ↦ rw here (update_self y c v c refl ∙ e)
      | no ne ↦ update_ne y c v i ne ∙ h i (omega arith)
    ]

    ExpandUpTo-suc :
        (c : ℕ) (t : ℕ × Memory)
        → c < w bytes
        → ExpandUpTo c t
        → ExpandUpTo (suc c) (expand_round bytes x head c t)
    ExpandUpTo-suc c t hc (at, done) = elim (ℕ_discrete (u c) 0) [
      | yes z ↦
          rw (absent c t hc z) (rw (eq→== (u c) 0 z) (omega arith), filled c 0 t.1 (sym z) done)
      | no ne ↦ rw (present c t hc ne) (
        rw (ne→== (u c) 0 ne) (omega arith),
        filled c _ t.1 (ap (λ (q : ℕ). load_aligned bytes q x) at ∙ packed c hc ne) done,
      )
    ]

    -- Packed words come back, at their places and between zeros.
    pub expand_zero_words_lem :
        ((expand_zero_words bytes x p shifted head).0 ≡ count_nonzero u (w bytes) * bytes)
        × ((i : ℕ) → i < w bytes → (expand_zero_words bytes x p shifted head).1 i ≡ u i)
    unfolding expand_zero_words
    expand_zero_words_lem =
        let all : ExpandUpTo (w bytes)
            (for_up 0 (w bytes) 1 (expand_round bytes x head) (p, shifted)) =
          for_up_inv ExpandUpTo (w bytes) 0 (w bytes) 1 (expand_round bytes x head) (p, shifted)
            (omega arith) (omega arith)
            (λ c t lt h. let e : 0 + c * 1 ≡ c = omega arith in rw e (ExpandUpTo-suc c t lt h))
            (omega arith, (λ i h. elim h [ ])) in
        (omega (arith, all.0), all.1)
