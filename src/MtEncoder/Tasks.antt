-- ===== src/MtEncoder/Tasks.antt =====
-- The chunk that a compression task leaves in its buffer.
use ndzip.Base.{
  ℕ, zero, suc, ◌+◌, ◌-◌, ◌≡◌, refl, ap, ◌∙◌, min, List, [], ◌∷◌, ◌++◌, ltb, Bool-cases, inl, inr,
  ltb→lt, ltb→le, arith,
}
use ndzip.Memory.{Memory}
use ndzip.Extent.{Extent}
use ndzip.Grid.{Profile, num_hypercubes}
use ndzip.MtEncoder.{
  WriteBuffer, length, chunk_round, chunk_loop, compress_chunk, num_hcs_per_chunk,
}

length-snoc : (l : List ℕ) (x : ℕ) → length (l ++ (x ∷ [])) ≡ suc (length l)
unfolding length
length-snoc [] x = refl
length-snoc (y ∷ l) x = ap suc (length-snoc l x)

module _ (pr : Profile) (scratch : ℕ → Memory) (size : Extent) (values : Memory) where
  chunk_round_lem :
      (hc_index : ℕ) (t : Memory × ℕ × WriteBuffer)
      → let b = (chunk_round pr scratch size values hc_index t).2 in
        (b.first_hc_index ≡ t.2.first_hc_index)
        × (length b.offsets_after_hcs ≡ suc (length t.2.offsets_after_hcs))
        × (b.number ≡ t.2.number)
  unfolding chunk_round
  chunk_round_lem hc_index (cube, offset, b) = (refl, length-snoc b.offsets_after_hcs _, refl)

  chunk_loop_lem :
      (left hc_index : ℕ) (t : Memory × ℕ × WriteBuffer)
      → let b = (chunk_loop pr scratch size values left hc_index t).2 in
        (b.first_hc_index ≡ t.2.first_hc_index)
        × (length b.offsets_after_hcs
            ≡ length t.2.offsets_after_hcs + min left (num_hypercubes pr size - hc_index))
        × (b.number ≡ t.2.number)
  unfolding chunk_loop
  chunk_loop_lem zero hc_index t = (refl, omega arith, refl)
  chunk_loop_lem (suc left) hc_index (cube, offset, b) =
      elim (Bool-cases (ltb hc_index (num_hypercubes pr size))) [
        | inl e ↦
            let more = ltb→lt hc_index (num_hypercubes pr size) e in
            let round = chunk_round_lem hc_index (cube, offset, b) in
            let rest =
              chunk_loop_lem left (suc hc_index)
                (chunk_round pr scratch size values hc_index (cube, offset, b)) in
            rw (e, chunk_loop)
              (rest.0 ∙ round.0, omega (arith, rest.1, round.1, more), rest.2 ∙ round.2)
        | inr e ↦
            let done = ltb→le hc_index (num_hypercubes pr size) e in
            rw (e, chunk_loop) (refl, omega (arith, done), refl)
      ]

  -- The buffer has the chunk's first index, and an offset for each of its hypercubes, and is the
  -- same one.
  pub compress_chunk_lem :
      (first_hc_index : ℕ) (cube : Memory) (b : WriteBuffer)
      → let b' = (compress_chunk pr scratch size values first_hc_index cube b).1 in
        (b'.first_hc_index ≡ first_hc_index)
        × (length b'.offsets_after_hcs
            ≡ min (num_hcs_per_chunk pr) (num_hypercubes pr size - first_hc_index))
        × (b'.number ≡ b.number)
  unfolding compress_chunk length
  compress_chunk_lem first_hc_index cube b =
      let all =
        chunk_loop_lem (num_hcs_per_chunk pr) first_hc_index
          (cube, 0, record b { first_hc_index = first_hc_index; offsets_after_hcs = [] }) in
      let zero_add : (m : ℕ) → 0 + m ≡ m = λ m. omega arith in (all.0, all.1 ∙ zero_add _, all.2)
