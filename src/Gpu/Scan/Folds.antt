-- ===== src/Gpu/Scan/Folds.antt =====
-- The values from an item back: what the scans compute, with the operation's arguments in their
-- order.
use ndzip.Base.{ℕ, zero, suc, ◌+◌, ◌-◌, ◌*◌, ◌≤◌, ◌≡◌, refl, ap, sym, ◌∙◌, arith}
use native.Mathlib.Nat.{add-mul}

module _ {A : Type 0} (op : A → A → A) where
  -- `f t`, and the `k` values before it.
  abbrev pub fold_back : (ℕ → A) → ℕ → ℕ → A
  fold_back f t zero = f t
  fold_back f t (suc k) = op (fold_back f t k) (f (t - suc k))

  -- Only the values from `t - k` to `t` matter, at whatever place they stand.
  pub fold_back-cong :
      (f g : ℕ → A) (t u k : ℕ)
      → ((j : ℕ) → j ≤ k → f (t - j) ≡ g (u - j))
      → fold_back f t k ≡ fold_back g u k
  fold_back-cong f g t u zero h =
      let (e, e') : (t - 0 ≡ t) × (u - 0 ≡ u) = (omega arith, omega arith) in
      rw (e, e') at (h 0 (omega arith))
  fold_back-cong f g t u (suc k) h =
      ap (λ a. op a (f (t - suc k))) (fold_back-cong f g t u k (λ j hj. h j (omega arith)))
      ∙ ap (op (fold_back g u k)) (h (suc k) (omega arith))

  module _ (assoc : (a b c : A) → op (op a b) c ≡ op a (op b c)) (f : ℕ → A) where
    pub fold_back-append :
        (t k j : ℕ) → op (fold_back f t k) (fold_back f (t - suc k) j) ≡ fold_back f t (suc k + j)
    fold_back-append t k zero = let e : suc k + 0 ≡ suc k = omega arith in rw e refl
    fold_back-append t k (suc j) =
        let e : suc k + suc j ≡ suc (suc k + j) = omega arith in
        let at : t - suc k - suc j ≡ t - suc (suc k + j) = omega arith in
        sym (assoc _ _ _)
        ∙ ap (λ a. op a (f (t - suc k - suc j))) (fold_back-append t k j)
        ∙ rw (e, at) refl

    -- A fold over the folds of blocks of `c + 1` values is the fold over the values.
    pub fold_back-blocks :
        (c v k : ℕ)
        → k ≤ v
        → fold_back (λ w. fold_back f (w * suc c + c) c) v k
          ≡ fold_back f (v * suc c + c) (k * suc c + c)
    fold_back-blocks c v zero h = let e : 0 * suc c + c ≡ c = omega arith in rw e refl
    fold_back-blocks c v (suc k) h =
        let before : (v - suc k) * suc c + c ≡ v * suc c + c - suc (k * suc c + c) =
          let whole : v * suc c ≡ (v - suc k) * suc c + suc k * suc c =
            ap (λ n. n * suc c) (let e : v ≡ v - suc k + suc k = omega arith in e)
            ∙ add-mul (v - suc k) (suc k) (suc c) in
          let more : suc k * suc c ≡ k * suc c + suc c = grind arith in omega arith in
        let all : suc (k * suc c + c) + c ≡ suc k * suc c + c = grind arith in
        ap (λ a. op a (fold_back f ((v - suc k) * suc c + c) c))
          (fold_back-blocks c v k (omega arith))
        ∙ ap (λ n. op (fold_back f (v * suc c + c) (k * suc c + c)) (fold_back f n c)) before
        ∙ fold_back-append (v * suc c + c) (k * suc c + c) c
        ∙ ap (fold_back f (v * suc c + c)) all
