-- ===== src/Border/RoundTrip.antt =====
-- `unpack_border` restores the cells that `pack_border` wrote.
use ndzip.Base.{
  ℕ, ◌+◌, ◌-◌, ◌*◌, ◌^◌, ◌≤◌, ◌<◌, ◌≡◌, refl, ◌∙◌, ◌⊎◌, inl, inr, arith, List, [], ◌∷◌,
}
use native.Mathlib.Decide.{dec_lt}
use ndzip.Memory.{Memory}
use ndzip.Extent.{Extent}
use ndzip.Border.{memcpy_out, memcpy_in, pack_slice, pack_border, unpack_slice, unpack_border}
use ndzip.Border.Slices.{run, border_slices, for_each_border_slice-run}
use ndzip.Border.Copy.{Holds, Holds-cong, memcpy_out_lem, memcpy_in_lem}

-- The cell `a` lies in some slice.
abbrev pub InSlices : List (ℕ × ℕ) → ℕ → Type 0
InSlices [] a = ⊥
InSlices ((offset, count) ∷ l) a = ((offset ≤ a) × (a < offset + count)) ⊎ InSlices l a

-- The elements of all slices.
abbrev pub total : List (ℕ × ℕ) → ℕ
total [] = 0
total ((offset, count) ∷ l) = count + total l

module _ (bytes : ℕ) (base : ℕ) (src : Memory) (fits : (a : ℕ) → src a < 2 ^ (8 * bytes)) where
  -- The slices' elements stand after each other from the byte `at` on.
  abbrev pub AllHold : List (ℕ × ℕ) → ℕ → Memory → Type 0
  AllHold [] at x = Unit
  AllHold ((offset, count) ∷ l) at x =
      Holds bytes (base + at) src offset count x × AllHold l (at + count * bytes) x

  pub AllHold-cong :
      (l : List (ℕ × ℕ)) (at : ℕ) (x y : Memory)
      → ((a : ℕ) → base + at ≤ a → a < base + at + total l * bytes → y a ≡ x a)
      → AllHold l at x
      → AllHold l at y
  AllHold-cong [] at x y same h = tt
  AllHold-cong ((offset, count) ∷ l) at x y same (first, rest) = (
    Holds-cong bytes (base + at) src offset count x y (λ a lo hi. same a lo (omega arith)) first,
    AllHold-cong l (at + count * bytes) x y (λ a lo hi. same a (omega arith) (omega arith)) rest,
  )

  record Packed (l : List (ℕ × ℕ)) (at : ℕ) (stream : Memory) (t : Memory × ℕ) : Type 0 where
    holds : AllHold l at t.0
    outside : (a : ℕ) → (a < base + at) ⊎ (base + at + total l * bytes ≤ a) → t.0 a ≡ stream a
    length : t.1 ≡ at + total l * bytes

  pack-Packed :
      (l : List (ℕ × ℕ)) (at : ℕ) (stream : Memory)
      → Packed l at stream (run (pack_slice bytes base src) l (stream, at))
  unfolding pack_slice
  pack-Packed [] at stream = record { holds = tt; outside = λ a away. refl; length = omega arith }
  pack-Packed ((offset, count) ∷ l) at stream =
      let (first, others) = memcpy_out_lem bytes (base + at) src offset stream fits count in
      let x = memcpy_out bytes (base + at) src offset count stream in
      let rest = pack-Packed l (at + count * bytes) x in
      record {
        holds = (
          Holds-cong bytes (base + at) src offset count x _
              (λ a lo hi. rest.outside a (inl (omega arith))) first,
          rest.holds,
        );
        outside = λ a away. rest.outside a (grind arith) ∙ others a (grind arith);
        length = omega (arith, rest.length);
      }

  record Unpacked (l : List (ℕ × ℕ)) (at : ℕ) (dest : Memory) (t : Memory × ℕ) : Type 0 where
    restored : (a : ℕ) → (dest a ≡ src a) ⊎ InSlices l a → t.0 a ≡ src a
    length : t.1 ≡ at + total l * bytes

  unpack-Unpacked :
      (l : List (ℕ × ℕ)) (at : ℕ) (stream dest : Memory)
      → AllHold l at stream
      → Unpacked l at dest (run (unpack_slice bytes base stream) l (dest, at))
  unfolding unpack_slice
  unpack-Unpacked [] at stream dest h = record {
    restored = λ a h. elim h [ inl e ↦ e | inr none ↦ absurd none ];
    length = omega arith;
  }
  unpack-Unpacked ((offset, count) ∷ l) at stream dest (first, others) =
      let (inside, outside) = memcpy_in_lem bytes stream (base + at) src offset dest count first in
      let x = memcpy_in bytes stream (base + at) offset count dest in
      let rest = unpack-Unpacked l (at + count * bytes) stream x others in
      let here : (a : ℕ) → offset ≤ a → a < offset + count → x a ≡ src a = λ a lo hi.
        let e : offset + (a - offset) ≡ a = omega arith in
        rw e at (inside (a - offset) (omega arith)) in
      let kept : (a : ℕ) → dest a ≡ src a → x a ≡ src a = λ a same. elim (dec_lt a offset) [
        | yes lt ↦ outside a (inl lt) ∙ same
        | no ge ↦ elim (dec_lt a (offset + count)) [
          | yes lt ↦ here a (omega arith) lt
          | no past ↦ outside a (inr (omega arith)) ∙ same
        ]
      ] in
      record {
        restored = λ a h. elim h [
          | inl same ↦ rest.restored a (inl (kept a same))
          | inr (inl (lo, hi)) ↦ rest.restored a (inl (here a lo hi))
          | inr (inr later) ↦ rest.restored a (inr later)
        ];
        length = omega (arith, rest.length);
      }

  module _ (dims : ℕ) (size : Extent) (side : ℕ) where
    abbrev pub border_bytes : ℕ
    border_bytes = total (border_slices dims size side) * bytes

    -- `pack_border` writes the elements of the slices, and nothing else.
    pub pack_border_lem :
        (stream : Memory)
        → let packed = pack_border bytes base dims size side src stream in
          AllHold (border_slices dims size side) 0 packed.0
          × (packed.1 ≡ border_bytes)
          × ((a : ℕ) → (a < base) ⊎ (base + border_bytes ≤ a) → packed.0 a ≡ stream a)
    unfolding pack_border
    pack_border_lem stream =
        let l = border_slices dims size side in
        let same =
          for_each_border_slice-run dims size side (pack_slice bytes base src) (stream, 0) in
        rw same (
          let p = pack-Packed l 0 stream in
          (p.holds, p.length ∙ omega arith, λ a away. p.outside a (grind arith)))

    -- `unpack_border` restores the elements from a stream that holds them.
    pub unpack_border_lem :
        (stream dest : Memory)
        → AllHold (border_slices dims size side) 0 stream
        → let unpacked = unpack_border bytes base dims size side stream dest in
          (unpacked.1 ≡ border_bytes)
          × ((a : ℕ)
              → (dest a ≡ src a) ⊎ InSlices (border_slices dims size side) a
              → unpacked.0 a ≡ src a)
    unfolding unpack_border
    unpack_border_lem stream dest holds =
        let l = border_slices dims size side in
        let same =
          for_each_border_slice-run dims size side (unpack_slice bytes base stream) (dest, 0) in
        rw same
          (let u = unpack-Unpacked l 0 stream dest holds in (u.length ∙ omega arith, u.restored))
