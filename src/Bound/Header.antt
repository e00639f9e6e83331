-- ===== src/Bound/Header.antt =====
-- The header of a stream against the one that the bound counts.
use native.Mathlib.Nat.{mod-lt, div-add-mod', mod-eq_of_lt}
use native.Mathlib.Decide.{ℕ_discrete}
use ndzip.Base.{
  ℕ, suc, ◌+◌, ◌-◌, ◌*◌, ◌/◌, ◌%◌, ◌^◌, ◌<◌, ◌≡◌, ap, ◌∙◌, arith, div-mul-add, mod-mul-add,
}
use ndzip.Word.{u32, add, sub}
use ndzip.Memory.{Memory}
use ndzip.Extent.{Extent}
use ndzip.Grid.{Profile, num_hypercubes, file_header_length}
use ndzip.Stream.{hypercube, base_byte_offset}
use ndzip.Stream.Header.{hypercube-start}

-- Rounding up to a multiple adds what is missing to the next one.
round_up : (m x : ℕ) → 0 < m → (x + m - 1) / m * m ≡ x + (m - x % m) % m
round_up m x hm =
    let q = x / m in
    let r = x % m in
    let whole : q * m + r ≡ x = div-add-mod' x m in
    let lt : r < m = mod-lt x hm in
    elim (ℕ_discrete r 0) [
      | yes e ↦
          let n : x + m - 1 ≡ q * m + (m - 1) = omega arith in
          let d : (x + m - 1) / m ≡ q =
            ap (λ (t : ℕ). t / m) n ∙ div-mul-add q (m - 1) m (omega arith) in
          let none : (m - r) % m ≡ 0 =
            ap (λ (t : ℕ). t % m) (let f : m - r ≡ 1 * m + 0 = omega arith in f)
            ∙ mod-mul-add 1 0 m hm in
          rw d (omega arith)
      | no ne ↦
          let n : x + m - 1 ≡ suc q * m + (r - 1) = omega arith in
          let d : (x + m - 1) / m ≡ suc q =
            ap (λ (t : ℕ). t / m) n ∙ div-mul-add (suc q) (r - 1) m (omega arith) in
          let same : (m - r) % m ≡ m - r = mod-eq_of_lt (omega arith) in rw d (omega arith)
    ]

-- For a type that is not empty and a header that stays below `2 ^ 32` bytes: the first hypercube
-- of a stream starts behind the header's bytes, and as many more as are missing to a multiple of
-- the size of the type.
pub hypercube-file_header_length :
    (pr : Profile) (size : Extent) (stream : Memory)
    → 0 < pr.bytes
    → file_header_length pr size + pr.bytes < 2 ^ 32
    → hypercube pr.bytes (num_hypercubes pr size) stream 0
      ≡ file_header_length pr size + (pr.bytes - file_header_length pr size % pr.bytes) % pr.bytes
unfolding file_header_length
hypercube-file_header_length pr size stream hb fits =
    let n = num_hypercubes pr size in
    let m = pr.bytes in
    let numerator : sub 32 (add 32 (u32 (n * 4)) m) 1 ≡ n * 4 + m - 1 = omega arith in
    let small : (n * 4 + m - 1) / m * m < 2 ^ 32 = omega (arith, div-add-mod' (n * 4 + m - 1) m) in
    hypercube-start m n stream 0
    ∙ (let none : base_byte_offset m n + 0 * m ≡ base_byte_offset m n = omega arith in none)
    ∙ ap (λ (t : ℕ). u32 (t / m * m)) numerator
    ∙ mod-eq_of_lt small
    ∙ round_up m (n * 4) hb
