-- ===== src/Extent/Tails.antt =====
-- The value of a position, split into its first components and the rest.
use native.Mathlib.Nat.{mul-le-mul_right}
use ndzip.Base.{ℕ, zero, suc, ◌+◌, ◌*◌, ◌≤◌, ◌<◌, ◌≡◌, refl, ap, arith}
use ndzip.Extent.{Extent}
use ndzip.Extent.Laws.{volume, value}

-- How many positions there are in the `left` components from `k` on.
abbrev pub span : Extent → ℕ → ℕ → ℕ
span size k zero = 1
span size k (suc left) = size k * span size (suc k) left

pub volume-span :
    (size : Extent) (left k : ℕ) → volume size k * span size k left ≡ volume size (k + left)
volume-span size zero k = let e : k + 0 ≡ k = omega arith in rw e (omega arith)
volume-span size (suc left) k =
    let e : suc k + left ≡ k + suc left = omega arith in
    rw (← e) (omega (arith, volume-span size left (suc k)))

module _ (size pos : Extent) where
  pub value-ge : (left k : ℕ) → value size pos k * span size k left ≤ value size pos (k + left)
  value-ge zero k = let e : k + 0 ≡ k = omega arith in rw e (omega arith)
  value-ge (suc left) k =
      let e : suc k + left ≡ k + suc left = omega arith in
      rw (← e) (omega (arith, value-ge left (suc k)))

  pub value-lt :
      (left k : ℕ)
      → ((d : ℕ) → k ≤ d → d < k + left → pos d < size d)
      → value size pos (k + left) < (value size pos k + 1) * span size k left
  value-lt zero k h = let e : k + 0 ≡ k = omega arith in rw e (omega arith)
  value-lt (suc left) k h =
      let e : suc k + left ≡ k + suc left = omega arith in
      let room : suc (pos k) * span size (suc k) left ≤ size k * span size (suc k) left =
        mul-le-mul_right (span size (suc k) left) (h k (omega arith) (omega arith)) in
      rw (← e)
        (omega (arith, room, value-lt left (suc k) (λ d lo hi. h d (omega arith) (omega arith))))

  pub value-zeros :
      (left k : ℕ)
      → ((d : ℕ) → k ≤ d → d < k + left → pos d ≡ 0)
      → value size pos (k + left) ≡ value size pos k * span size k left
  value-zeros zero k h = let e : k + 0 ≡ k = omega arith in rw e (omega arith)
  value-zeros (suc left) k h =
      let e : suc k + left ≡ k + suc left = omega arith in
      let none : pos k * span size (suc k) left ≡ 0 * span size (suc k) left =
        ap (λ (t : ℕ). t * span size (suc k) left) (h k (omega arith) (omega arith)) in
      rw (← e)
        (omega (arith, none, value-zeros left (suc k) (λ d lo hi. h d (omega arith) (omega arith))))

-- The value of the first components depends on these alone.
pub value_cong :
    (size p q : Extent) (k : ℕ) → ((d : ℕ) → d < k → p d ≡ q d) → value size p k ≡ value size q k
value_cong size p q zero h = refl
value_cong size p q (suc k) h =
    rw (h k (omega arith), value_cong size p q k (λ d lt. h d (omega arith))) refl
