-- ===== src/Extent/Digits.antt =====
-- The components of `extent_from_linear_id` as the digits of the number.
use native.Mathlib.Decide.{ℕ_discrete}
use ndzip.Base.{
  ℕ, zero, suc, ◌+◌, ◌-◌, ◌*◌, ◌/◌, ◌%◌, ◌==◌, if◌then◌else◌, ◌≤◌, ◌<◌, ◌≡◌, refl, ap, ◌∙◌, arith,
  for_up, for_up_inv, eq→==, ne→==,
}
use ndzip.Memory.{update_self, update_ne}
use ndzip.Extent.{Extent, id_round, extent_from_linear_id}

-- The component `e` of the position number `t` among those of `m` components with the counts `q`.
abbrev pub digit : Extent → ℕ → ℕ → ℕ → ℕ
digit q zero t e = 0
digit q (suc m) t e = if e == m then t % q m else digit q m (t / q m) e

pub digit_cong :
    (q r : Extent) (m t e : ℕ) → ((d : ℕ) → d < m → q d ≡ r d) → digit q m t e ≡ digit r m t e
digit_cong q r zero t e h = refl
digit_cong q r (suc m) t e h = rw (h m (omega arith)) (
    ap (λ (v : ℕ). if e == m then t % r m else v)
      (digit_cong q r m (t / r m) e (λ d lt. h d (omega arith))))

-- The loop of `extent_from_linear_id` after `c` rounds.
record HasDigits (dims : ℕ) (q : Extent) (id c : ℕ) (t : Extent × ℕ) : Type 0 where
  done : (e : ℕ) → dims - c ≤ e → e < dims → t.0 e ≡ digit q dims id e
  left : (e : ℕ) → e < dims - c → digit q (dims - c) t.1 e ≡ digit q dims id e
  blank : (e : ℕ) → dims ≤ e → t.0 e ≡ 0

HasDigits-suc :
    (dims : ℕ) (q : Extent) (id c : ℕ) (t : Extent × ℕ)
    → c < dims
    → HasDigits dims q id c t
    → HasDigits dims q id (suc c) (id_round dims q c t)
unfolding id_round
HasDigits-suc dims q id c (ext, r) hc h =
    let d = dims - 1 - c in
    let e : dims - c ≡ suc d = omega arith in
    let f : dims - suc c ≡ d = omega arith in
    let rest : (k : ℕ) → k < suc d → digit q (suc d) r k ≡ digit q dims id k = rw e at (h.left) in
    record {
      done = λ k lo hi. elim (ℕ_discrete k d) [
        | yes here ↦
            rw here
              (update_self ext d (r % q d) d refl ∙ (rw (eq→== d d refl) at (rest d (omega arith))))
        | no ne ↦ update_ne ext d (r % q d) k ne ∙ h.done k (omega arith) hi
      ];
      left = λ k lt. rw f (rw (ne→== k d (omega arith)) at (rest k (omega arith)));
      blank = λ k ge. update_ne ext d (r % q d) k (omega arith) ∙ h.blank k ge;
    }

id_loop-HasDigits :
    (dims : ℕ) (q : Extent) (id : ℕ)
    → HasDigits dims q id dims (for_up 0 dims 1 (id_round dims q) ((λ d. 0), id))
id_loop-HasDigits dims q id =
    for_up_inv (HasDigits dims q id) dims 0 dims 1 (id_round dims q) ((λ d. 0), id) (omega arith)
      (omega arith)
      (λ c t hc h. let at : 0 + c * 1 ≡ c = omega arith in rw at (HasDigits-suc dims q id c t hc h))
      (record {
        done = λ e lo hi. absurd (omega arith);
        left = λ e lt. let none : dims - 0 ≡ dims = omega arith in rw none refl;
        blank = λ e ge. refl;
      })

pub extent_from_linear_id-digit :
    (dims : ℕ) (q : Extent) (id e : ℕ)
    → e < dims
    → extent_from_linear_id dims id q e ≡ digit q dims id e
unfolding extent_from_linear_id
extent_from_linear_id-digit dims q id e h = (id_loop-HasDigits dims q id).done e (omega arith) h

pub extent_from_linear_id-blank :
    (dims : ℕ) (q : Extent) (id e : ℕ) → dims ≤ e → extent_from_linear_id dims id q e ≡ 0
unfolding extent_from_linear_id
extent_from_linear_id-blank dims q id e h = (id_loop-HasDigits dims q id).blank e h
