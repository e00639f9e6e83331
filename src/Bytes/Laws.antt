-- ===== src/Bytes/Laws.antt =====
-- A word that is stored is loaded again, and a store touches its own bytes only.
use native.Mathlib.Nat.{one-le-pow, mod-lt, mod-eq_of_lt, div-add-mod'}
use native.Mathlib.Decide.{ℕ_discrete}
use ndzip.Base.{
  ℕ, zero, suc, ◌+◌, ◌-◌, ◌*◌, ◌/◌, ◌%◌, ◌^◌, ◌≤◌, ◌<◌, ◌≡◌, refl, ap, ◌∙◌, ◌⊎◌, ◌&&◌, arith, ltb,
  leb, if◌then◌else◌, for_up_inv, pow2-mul8, mod-mul-add, mul-add-lt, pow256-suc,
}
use ndzip.Memory.{Memory, update, update_self, update_ne}
use ndzip.Bytes.{byte_of, value_of, store_aligned, load_aligned}

module _ (bytes p v : ℕ) (x : Memory) where
  abbrev Stored : ℕ → Memory → Type 0
  Stored c y = (a : ℕ) → y a ≡ (if leb p a && ltb a (p + c) then byte_of v (a - p) else x a)

  Stored-suc : (c : ℕ) (y : Memory) → Stored c y → Stored (suc c) (update y (p + c) (byte_of v c))
  Stored-suc c y h a = elim (ℕ_discrete a (p + c)) [
    | yes e ↦ rw e (
        update_self y (p + c) (byte_of v c) (p + c) refl
        ∙ ground (arith, ap (byte_of v) (let f : p + c - p ≡ c = omega arith in f)))
    | no ne ↦ update_ne y (p + c) _ a ne ∙ ground (arith, h a)
  ]

  pub store_aligned-eq : Stored bytes (store_aligned bytes p v x)
  unfolding store_aligned
  store_aligned-eq =
      for_up_inv Stored bytes 0 bytes 1 (λ i y. update y (p + i) (byte_of v i)) x (omega arith)
        (omega arith) (λ c y lt h. let e : 0 + c * 1 ≡ c = omega arith in rw e (Stored-suc c y h))
        (λ a. ground arith)

  pub store_aligned_outside :
      (a : ℕ) → (a < p) ⊎ (p + bytes ≤ a) → store_aligned bytes p v x a ≡ x a
  store_aligned_outside a h = ground (arith, store_aligned-eq a)

  pub store_aligned_inside : (i : ℕ) → i < bytes → store_aligned bytes p v x (p + i) ≡ byte_of v i
  store_aligned_inside i h =
      ground
        (arith, store_aligned-eq (p + i), ap (byte_of v) (let f : p + i - p ≡ i = omega arith in f))

value_of_cong : (n : ℕ) (f g : ℕ → ℕ) → ((i : ℕ) → i < n → f i ≡ g i) → value_of n f ≡ value_of n g
value_of_cong zero f g h = refl
value_of_cong (suc n) f g h = omega (
  arith,
  value_of_cong n f g (λ i lt. h i (omega arith)),
  ap (λ (t : ℕ). t * 256 ^ n) (h n (omega arith)),
)

value_of-byte_of : (n v : ℕ) → value_of n (byte_of v) ≡ v % 256 ^ n
value_of-byte_of zero v = omega arith
value_of-byte_of (suc n) v =
    let d = 256 ^ n in
    let q = v / d in
    let pos : 0 < d = one-le-pow n 256 (omega arith) in
    let low : q % 256 * d + v % d < 256 * d =
      mul-add-lt (q % 256) (v % d) 256 d (omega arith) (mod-lt v pos) in
    let parts : v ≡ q / 256 * (256 * d) + (q % 256 * d + v % d) =
      omega (arith, div-add-mod' v d, ap (λ (t : ℕ). t * d) (div-add-mod' q 256)) in
    rw pow256-suc (
      omega (
        arith,
        value_of-byte_of n v,
        ap (λ (t : ℕ). t % (256 * d)) parts,
        mod-mul-add (q / 256) (q % 256 * d + v % d) (256 * d) low,
      ))

-- A load depends on its own bytes only.
pub load_aligned_cong :
    (bytes p : ℕ) (x y : Memory)
    → ((i : ℕ) → i < bytes → x (p + i) ≡ y (p + i))
    → load_aligned bytes p x ≡ load_aligned bytes p y
unfolding load_aligned
load_aligned_cong bytes p x y h = value_of_cong bytes _ _ h

-- A value that fits into the bytes of its type is what `load_aligned` reads where `store_aligned`
-- put it.
pub load_aligned-store_aligned :
    (bytes p v : ℕ) (x : Memory)
    → v < 2 ^ (8 * bytes)
    → load_aligned bytes p (store_aligned bytes p v x) ≡ v
unfolding load_aligned
load_aligned-store_aligned bytes p v x h =
    value_of_cong bytes _ (byte_of v) (λ i lt. store_aligned_inside bytes p v x i lt)
    ∙ value_of-byte_of bytes v
    ∙ mod-eq_of_lt (rw pow2-mul8 at h)
