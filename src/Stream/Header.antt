-- ===== src/Stream/Header.antt =====
-- Where the hypercubes stand, by the header.
use native.Mathlib.Nat.{mod-lt, div-add-mod'}
use ndzip.Base.{ℕ, zero, suc, ◌+◌, ◌-◌, ◌*◌, ◌/◌, ◌^◌, ◌≤◌, ◌<◌, ◌≡◌, refl, ◌⊎◌, arith, ne→==}
use ndzip.Word.{u32, add, sub}
use ndzip.Memory.{Memory}
use ndzip.Bytes.Laws.{load_aligned_cong, store_aligned_outside, load_aligned-store_aligned}
use ndzip.Stream.{offset_after, set_offset_after, base_byte_offset, hypercube}

-- Where the hypercube `j` starts, in words from the first one.
abbrev pub start : Memory → ℕ → ℕ
start stream zero = 0
start stream (suc j) = offset_after stream j

pub hypercube-start :
    (bytes n : ℕ) (stream : Memory) (j : ℕ)
    → hypercube bytes n stream j ≡ base_byte_offset bytes n + start stream j * bytes
unfolding hypercube
hypercube-start bytes n stream zero = omega arith
hypercube-start bytes n stream (suc j) =
    let e : suc j - 1 ≡ j = omega arith in rw (ne→== (suc j) 0 (omega arith), e) refl

-- The header does not wrap around, and the first hypercube stands behind it.
pub base-ge : (bytes n : ℕ) → 0 < bytes → n * 4 + bytes < 2 ^ 32 → n * 4 ≤ base_byte_offset bytes n
base-ge bytes n hb fits =
    let whole = div-add-mod' (n * 4 + bytes - 1) bytes in
    let part = mod-lt (n * 4 + bytes - 1) hb in
    let numerator : sub 32 (add 32 (u32 (n * 4)) bytes) 1 ≡ n * 4 + bytes - 1 = omega arith in
    rw numerator (omega (arith, whole, part))

-- It stands at a whole number of words.
pub base-whole :
    (bytes n : ℕ)
    → 0 < bytes
    → n * 4 + bytes < 2 ^ 32
    → base_byte_offset bytes n ≡ (n * 4 + bytes - 1) / bytes * bytes
base-whole bytes n hb fits =
    let whole = div-add-mod' (n * 4 + bytes - 1) bytes in
    let numerator : sub 32 (add 32 (u32 (n * 4)) bytes) 1 ≡ n * 4 + bytes - 1 = omega arith in
    rw numerator (omega (arith, whole))

-- The offsets depend on the header's bytes only.
pub offset_after-cong :
    (x y : Memory) (j : ℕ)
    → ((a : ℕ) → a < suc j * 4 → x a ≡ y a)
    → offset_after x j ≡ offset_after y j
unfolding offset_after
offset_after-cong x y j same =
    load_aligned_cong 4 (j * 4) x y (λ i hi. same (j * 4 + i) (omega arith))

pub start-cong : (x y : Memory) (j : ℕ) → ((a : ℕ) → a < j * 4 → x a ≡ y a) → start x j ≡ start y j
start-cong x y zero same = refl
start-cong x y (suc j) same = offset_after-cong x y j same

pub offset_after-set_offset_after :
    (j v : ℕ) (x : Memory) → v < 2 ^ 32 → offset_after (set_offset_after j v x) j ≡ v
unfolding offset_after set_offset_after
offset_after-set_offset_after j v x h = load_aligned-store_aligned 4 (j * 4) v x h

pub set_offset_after_outside :
    (j v : ℕ) (x : Memory) (a : ℕ) → (a < j * 4) ⊎ (suc j * 4 ≤ a) → set_offset_after j v x a ≡ x a
unfolding set_offset_after
set_offset_after_outside j v x a away = store_aligned_outside 4 (j * 4) v x a (grind arith)
