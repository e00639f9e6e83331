-- ===== src/Avx2/Groups.antt =====
-- The sums along all rows, taken in groups of four.
use native.Mathlib.Nat.{mod-eq_of_lt}
use ndzip.Base.{
  ℕ, ◌+◌, ◌-◌, ◌*◌, ◌/◌, ◌^◌, ◌<◌, ◌≡◌, ap, ◌∙◌, Bool, ◌&&◌, ltb, leb, ◌==◌, if◌then◌else◌, arith,
  for_up, for_up_inv,
}
use ndzip.Transform.Cells.{cell, block, has_prev, prev_parts}
use ndzip.Transform.Regions.{Combines, Done, Done-suc}
use ndzip.Transform.{ipow}
use ndzip.Transform.Power.{ipow-eq}
use ndzip.Transform.Inverse.{pow-two}
use ndzip.Transform.Steps.{running_sum}
use ndzip.Avx2.{interleave, interleaved_rows, inverse_block_transform_horizontal_interleaved}
use ndzip.Avx2.Interleaved.{interleaved_rows-sums}

-- The four rows that make a group.
in_group :
    (b c v : ℕ)
    → (leb (b + c * interleave) v && ltb v (b + c * interleave + interleave))
      ≡ (leb b v && (v - b) / interleave == c)
in_group b c v = ground arith

module _ (w n m : ℕ) (hn : 0 < n) (groups : n ≡ m * interleave) (fits : n * n < 2 ^ 32) where
  -- The rows from `b` on, in groups of four.
  abbrev group : ℕ → ℕ → ℕ
  group b a = (block n 1 a - b) / interleave

  square_groups : n * n ≡ 0 + m * (n * interleave)
  square_groups =
      let e : n * (m * interleave) ≡ 0 + m * (n * interleave) = omega arith in
      ap (λ (t : ℕ). n * t) groups ∙ e

  below_groups : (b v : ℕ) → (leb b v && ltb ((v - b) / interleave) m) ≡ (leb b v && ltb v (b + n))
  below_groups b v = ground (arith, groups)

  pub interleaved-Combines :
      (i p : ℕ)
      → p ≡ cell n n i 0 0
      → Combines 1
          (has_prev n 1)
          (running_sum w)
          (λ a. leb (i * n) (block n 1 a) && ltb (block n 1 a) (i * n + n))
          (inverse_block_transform_horizontal_interleaved w n p)
  unfolding inverse_block_transform_horizontal_interleaved
  interleaved-Combines i p e x a =
      all a
      ∙ ap
          (λ t.
            if t && has_prev n 1 a
            then running_sum w (x a) (x (a - 1))
                (inverse_block_transform_horizontal_interleaved w n p x (a - 1))
            else x a)
          (below_groups (i * n) (block n 1 a))
    where
      b : ℕ
      b = i * n

      guard : ℕ → Bool
      guard a = leb b (block n 1 a)

      limit : ipow 32 n 2 ≡ 0 + m * (n * interleave)
      limit =
          ipow-eq 32 n 2 (omega arith)
          ∙ mod-eq_of_lt (rw (pow-two w n hn) fits)
          ∙ pow-two w n hn
          ∙ square_groups

      all :
          Done 1
            (has_prev n 1)
            (running_sum w)
            (group b)
            guard
            x
            m
            (for_up 0
              (ipow 32 n 2)
              (n * interleave)
              (λ i. interleaved_rows w n (p + i))
              (x, λ k. 0)).0
      all =
          for_up_inv (λ c t. Done 1 (has_prev n 1) (running_sum w) (group b) guard x c t.0) m 0
            (ipow 32 n 2) (n * interleave) (λ i. interleaved_rows w n (p + i)) (x, λ k. 0)
            (omega arith) limit
            (λ c (y, vec) lt h.
              Done-suc 1 (has_prev n 1) (running_sum w) (group b) guard
                (λ a prev.
                  let parts = prev_parts n 1 a (omega arith) hn (ground (arith, prev)) in
                  (ap (λ (t : ℕ). (t - b) / interleave) parts.0, ap (leb b) parts.0))
                x y _ c
                (λ a.
                  interleaved_rows-sums w n (b + c * interleave) hn y vec _ (omega (arith, e)) a
                  ∙ ap
                      (λ t.
                        if t && has_prev n 1 a
                        then running_sum w (y a) (y (a - 1)) (
                            (interleaved_rows w n (p + (0 + c * (n * interleave))) (y, vec)).0
                              (a - 1))
                        else y a)
                      (in_group b c (block n 1 a)))
                h)
            (λ a. ground arith)
