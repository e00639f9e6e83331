-- ===== src/Gpu/BorderMap/Restored.antt =====
-- The border of a grid survives the border kernels.
use ndzip.Base.{
  ℕ, suc, ◌+◌, ◌-◌, ◌*◌, ◌/◌, ◌^◌, ◌≤◌, ◌<◌, ◌≡◌, ap, sym, ◌∙◌, subst, arith, ltb, if◌then◌else◌,
  for_up, for_up_inv, lt→ltb, le→ltb,
}
use native.Mathlib.Decide.{dec_lt, ℕ_discrete}
use ndzip.Word.{u32}
use ndzip.Memory.{Memory, update, update_self, update_ne}
use ndzip.Extent.{Extent, linear_index}
use ndzip.Extent.Laws.{volume, value-lt-volume}
use ndzip.Extent.Ids.{linear_index-value}
use ndzip.Extent.Tails.{value_cong}
use ndzip.Gpu.BorderMap.{
  BorderMap, border_map, border_size, border_position, border_threads, compact_border,
  expand_border,
}
use ndzip.Gpu.BorderMap.Located.{border_size-le, border_map-Located}

-- Each thread number is taken in turn, and there is one for each element.
module _ {κ} {S : Type 0} (P : ℕ → S → Type κ) (n : ℕ) (few : n + 255 < 2 ^ 32) (f : ℕ → S → S)
    (keep : (j : ℕ) (t : S) → P j t → P (suc j) (f j t)) where
  abbrev blocks : ℕ
  blocks = (n + 255) / 256

  abbrev block_of : ℕ → S → S
  block_of block = for_up 0 256 1 (λ thread. f (u32 (block * 256 + thread)))

  block_inv :
      (block : ℕ) (t : S)
      → block < blocks
      → P (block * 256) t
      → P (suc block * 256) (block_of block t)
  block_inv block t hb h =
      let all : block * 256 + 256 ≡ suc block * 256 = omega arith in
      let none : block * 256 + 0 ≡ block * 256 = omega arith in
      subst (λ j. P j (block_of block t)) all
        (for_up_inv (λ j. P (block * 256 + j)) 256 0 256 1
          (λ thread. f (u32 (block * 256 + thread))) t (omega arith) (omega arith)
          (λ j t hj h.
            let number : u32 (block * 256 + (0 + j * 1)) ≡ block * 256 + j = omega arith in
            let next : suc (block * 256 + j) ≡ block * 256 + suc j = omega arith in
            rw number (subst (λ k. P k (f (block * 256 + j) t)) next (keep (block * 256 + j) t h)))
          (subst (λ j. P j t) (sym none) h))

  pub border_threads_inv : (s : S) → P 0 s → P (blocks * 256) (border_threads n f s)
  unfolding border_threads
  border_threads_inv s h =
      let count : u32 (n + 256 - 1) / 256 ≡ blocks = omega arith in
      rw count (
        for_up_inv (λ j. P (j * 256)) blocks 0 blocks 1 block_of s (omega arith) (omega arith)
          (λ j t hj h. let e : 0 + j * 1 ≡ j = omega arith in rw e (block_inv j t hj h)) h)

-- Threads that store `g i` at `at i`, below `n`.
module _ (at g : ℕ → ℕ) (n : ℕ) (few : n + 255 < 2 ^ 32)
    (same : (c d : ℕ) → c < n → d < n → at c ≡ at d → g c ≡ g d) where
  abbrev guarded : ℕ → Memory → Memory
  guarded i v = if ltb i n then update v (at i) (g i) else v

  abbrev Done : ℕ → Memory → Type 0
  Done j v = (c : ℕ) → c < j → c < n → v (at c) ≡ g c

  guarded-Done : (j : ℕ) (v : Memory) → Done j v → Done (suc j) (guarded j v)
  guarded-Done j v done c lt hc = elim (dec_lt j n) [
    | yes hj ↦ rw (lt→ltb j n hj) (elim (ℕ_discrete (at c) (at j)) [
      | yes e ↦ update_self v (at j) (g j) (at c) e ∙ same j c hj hc (sym e)
      | no ne ↦
          let before : c < j = elim (ℕ_discrete c j) [
            | yes e ↦ absurd (ne (ap at e))
            | no other ↦ omega arith
          ] in
          update_ne v (at j) (g j) (at c) ne ∙ done c before hc
    ])
    | no ge ↦ rw (le→ltb j n (omega arith)) (done c (omega arith) hc)
  ]

  pub threads-stored : (v : Memory) (c : ℕ) → c < n → border_threads n guarded v (at c) ≡ g c
  threads-stored v c hc =
      border_threads_inv Done n few guarded guarded-Done v
        (λ c lt. absurd (let no : ⊥ = omega arith in no)) c (omega arith) hc

module _ (dims side : ℕ) (lo : 0 < dims) (hi : dims ≤ 3) (size : Extent)
    (small : volume size dims + 255 < 2 ^ 32) (src : Memory) (border_offset : ℕ)
    (room : border_offset + volume size dims ≤ 2 ^ 32) (m : BorderMap) (stream_buf dest : Memory)
    (q : Extent) (within : (d : ℕ) → d < dims → q d < size d) (e : ℕ) (he : e < dims)
    (behind : size e / side * side ≤ q e) where
  abbrev built_map : BorderMap
  built_map = border_map dims side size m

  abbrev index : ℕ → ℕ
  index i = linear_index dims size (border_position dims built_map i)

  size-le : border_size built_map ≤ volume size dims
  size-le =
      border_size-le dims side size (omega arith)
        (omega (arith, value-lt-volume dims size q dims within)) lo m

  -- For a grid of one, two or three dimensions with at most `2 ^ 32 - 256` elements, whose border
  -- has place in a stream of 32-bit indices: after the CUDA kernels have compacted the border to
  -- any stream and expanded it from there, the element at every position of the grid that is behind
  -- the last whole hypercube of some dimension `e` is the one that was there, whatever the memories
  -- held before.
  pub expand_border-compact_border :
      expand_border dims size
        (compact_border dims size src border_offset built_map stream_buf)
        border_offset
        built_map
        dest
        (linear_index dims size q)
      ≡ src (linear_index dims size q)
  unfolding compact_border expand_border
  expand_border-compact_border =
      let few : border_size built_map + 255 < 2 ^ 32 = omega (arith, size-le) in
      let (i, hi, position) =
        border_map-Located side size q m dims lo hi (omega arith) within e he behind in
      let same : index i ≡ linear_index dims size q =
        linear_index-value dims size (border_position dims built_map i) lo (omega arith)
          (λ d hd. rw (position d hd) (within d hd))
        ∙ value_cong size (border_position dims built_map i) q dims position
        ∙ sym (linear_index-value dims size q lo (omega arith) within) in
      let stream = compact_border dims size src border_offset built_map stream_buf in
      let written : (c : ℕ)
          → c < border_size built_map
          → stream (u32 (border_offset + c)) ≡ src (index c) =
        threads-stored (λ i. u32 (border_offset + i)) (λ i. src (index i)) (border_size built_map)
          few
          (λ c d hc hd same.
            let one : c ≡ d = omega (arith, size-le, same) in ap (λ i. src (index i)) one)
          stream_buf in
      ap (λ a. expand_border dims size stream border_offset built_map dest a) (sym same)
      ∙ threads-stored index (λ i. stream (u32 (border_offset + i))) (border_size built_map) few
          (λ c d hc hd same. written c hc ∙ ap src same ∙ sym (written d hd)) dest i hi
      ∙ written i hi
      ∙ ap src same
