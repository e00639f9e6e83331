-- ===== src/Gpu/Scan.antt =====
-- ndzip/cuda_bits.cuh: scans by the threads of a warp, of a block, and of several kernels. A value
-- of each thread of a warp is a function of the lane; what happens between two barriers is a
-- function of the item.
pub mod Folds
pub mod Warps
pub mod Blocks
pub mod Levels
use ndzip.Base.{
  ℕ, zero, suc, ◌+◌, ◌-◌, ◌*◌, ◌/◌, ◌%◌, ◌==◌, ◌&&◌, ltb, leb, if◌then◌else◌, Bool, true, false,
  List, [], ◌∷◌,
}
use ndzip.Word.{sub}
use ndzip.Stream.{div_ceil, ceil}

-- `__shfl_sync(0xffff'ffff, x, lane)`.
abbrev pub shfl_sync : {A : Type 0} → (ℕ → A) → ℕ → A
shfl_sync x lane = x (lane % 32)

module _ {A : Type 0} (op : A → A → A) where
  -- One round of the loop of the warp scans, in the lane `warp_thread_id`.
  unfoldable pub scan_round : ℕ → (ℕ → A) → ℕ → A
  scan_round i x warp_thread_id =
      let next_id = if ltb warp_thread_id i then 0 else sub 64 warp_thread_id i in
      let y = shfl_sync x next_id in
      if leb i warp_thread_id && ltb warp_thread_id 32
      then op (x warp_thread_id) y
      else x warp_thread_id

  pub scan_rounds : ℕ → ℕ → (ℕ → A) → ℕ → A
  unfolding scan_round
  scan_rounds zero i x = x
  scan_rounds (suc fuel) i x = elim (ltb i 32) [
    | true ↦ scan_rounds fuel (i * 2) (scan_round i x)
    | false ↦ x
  ]

  unfoldable pub warp_inclusive_scan : (ℕ → A) → ℕ → A
  unfolding scan_rounds
  warp_inclusive_scan x = scan_rounds 6 1 x

  unfoldable pub warp_exclusive_scan : (ℕ → A) → A → ℕ → A
  unfolding scan_rounds
  warp_exclusive_scan x init warp_thread_id =
      let scan = shfl_sync (scan_rounds 6 1 x) (sub 32 warp_thread_id 1 % 32) in
      if warp_thread_id == 0 then init else op scan init

  module _ (nothing : A) where
    -- The scan of the warp that has the item, whose lanes from `range` on have `nothing`.
    unfoldable pub fine : ℕ → (ℕ → A) → ℕ → A
    unfolding warp_inclusive_scan
    fine range acc item =
        warp_inclusive_scan
          (λ lane. let i = item / 32 * 32 + lane in if ltb i range then acc i else nothing)
          (item % 32)

    -- The two overloads of `inclusive_scan`; each level has a 32nd of the items.
    pub scan_level : ℕ → ℕ → (ℕ → A) → ℕ → A
    unfolding fine
    scan_level zero range acc = acc
    scan_level (suc fuel) range acc = elim (leb range 32) [
      | true ↦ λ item. if ltb item range then fine range acc item else acc item
      | false ↦
          let coarse =
            scan_level fuel (div_ceil range 32) (λ warp. fine range acc (warp * 32 + 31)) in
          λ item.
            if ltb item range
            then (if leb 32 item
                then op (fine range acc item) (coarse (item / 32 - 1))
                else fine range acc item)
            else acc item
    ]

    unfoldable pub inclusive_scan : ℕ → (ℕ → A) → ℕ → A
    unfolding scan_level
    inclusive_scan range acc = scan_level range range acc

-- `cuda_buffer`.
pub record CudaBuffer (A : Type 0) : Type 0 where
  pub memory : ℕ → A
  pub size : ℕ

-- `hierarchical_inclusive_scan_granularity`.
abbrev pub granularity : ℕ
granularity = 512

module _ {A : Type 0} (op : A → A → A) (nothing : A) where
  -- The kernels, on so many blocks: the buffers after it.
  unfoldable pub hierarchical_inclusive_scan_reduce : ℕ → (ℕ → A) → (ℕ → A) → (ℕ → A) × (ℕ → A)
  unfolding inclusive_scan
  hierarchical_inclusive_scan_reduce blocks big_buf small_buf =
      let big = λ (block : ℕ).
        inclusive_scan op nothing granularity (λ i. big_buf (block * granularity + i)) in
      (
        (λ a.
            if ltb (a / granularity) blocks
            then big (a / granularity) (a % granularity)
            else big_buf a),
        (λ block. if ltb block blocks then big block (granularity - 1) else small_buf block),
      )

  unfoldable pub hierarchical_inclusive_scan_expand : ℕ → (ℕ → A) → (ℕ → A) → ℕ → A
  hierarchical_inclusive_scan_expand blocks small_buf big_buf a =
      if leb granularity a && ltb a ((blocks + 1) * granularity)
      then op (big_buf a) (small_buf (a / granularity - 1))
      else big_buf a

  -- `hierarchical_inclusive_scan_allocate`; a new buffer has the contents `fresh n`.
  unfoldable pub hierarchical_inclusive_scan_allocate : (ℕ → ℕ → A) → ℕ → ℕ → List (CudaBuffer A)
  hierarchical_inclusive_scan_allocate fresh zero n = []
  hierarchical_inclusive_scan_allocate fresh (suc fuel) n = elim (ltb 1 n) [
    | true ↦
        let n' = div_ceil n granularity in
        record { memory = fresh n'; size = ceil n' granularity }
        ∷ hierarchical_inclusive_scan_allocate fresh fuel n'
    | false ↦ []
  ]

  -- The loop over the buffers that reduces each to the next.
  unfoldable pub reduce_loop :
      CudaBuffer A → List (CudaBuffer A) → CudaBuffer A × List (CudaBuffer A)
  unfolding hierarchical_inclusive_scan_reduce
  reduce_loop big [] = (big, [])
  reduce_loop big (small ∷ rest) =
      let (big_buf, small_buf) =
        hierarchical_inclusive_scan_reduce (div_ceil big.size granularity) big.memory
          small.memory in
      let (small', rest') = reduce_loop (record { memory = small_buf; size = small.size }) rest in
      (record { memory = big_buf; size = big.size }, small' ∷ rest')

  -- The loop back that expands each buffer but the last into the one before.
  unfoldable pub expand_loop :
      CudaBuffer A → List (CudaBuffer A) → CudaBuffer A × List (CudaBuffer A)
  unfolding hierarchical_inclusive_scan_expand
  expand_loop big [] = (big, [])
  expand_loop big (small ∷ []) = (big, small ∷ [])
  expand_loop big (small ∷ (next ∷ rest)) =
      let (small', rest') = expand_loop small (next ∷ rest) in
      (
        record {
          memory =
              hierarchical_inclusive_scan_expand (div_ceil big.size granularity - 1) small'.memory
                big.memory;
          size = big.size;
        },
        small' ∷ rest',
      )

  unfoldable pub hierarchical_inclusive_scan :
      (ℕ → A) → List (CudaBuffer A) → ℕ → (ℕ → A) × List (CudaBuffer A)
  unfolding reduce_loop expand_loop
  hierarchical_inclusive_scan in_out_buf intermediate_bufs n_elems =
      let (big, bufs) =
        reduce_loop (record { memory = in_out_buf; size = n_elems }) intermediate_bufs in
      let (scanned, bufs') = expand_loop big bufs in (scanned.memory, bufs')
