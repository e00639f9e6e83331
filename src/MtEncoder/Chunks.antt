-- ===== src/MtEncoder/Chunks.antt =====
-- In every schedule, each chunk that is claimed and not written is in one place.
use ndzip.Base.{
  ℕ, suc, ◌<◌, ◌≡◌, refl, ap, ◌∙◌, sym, List, [], ◌∷◌, none, some, inl, inr, arith, Bool-cases, ltb,
  ltb→le, ◌==◌,
}
use ndzip.Memory.{Memory}
use ndzip.Extent.{Extent}
use ndzip.Grid.{Profile, num_hypercubes}
use ndzip.MtEncoder.{
  WriteBuffer, Worker, idle, entered, loaded, at_queue, writing, copied, compressing, popped,
  claimed, filled, finished, State, buffer_hypercubes, act, run, start, num_hcs_per_chunk,
}
use ndzip.MtEncoder.Order.{chunk, Inv}
use ndzip.MtEncoder.Tasks.{compress_chunk_lem}
use ndzip.MtEncoder.Actions.{run-Inv, act-Inv, start-Inv}
use ndzip.MtEncoder.Buffers.{Threads}
use ndzip.MtEncoder.Progress.{
  AllKept, Accounted, go-AllKept, go_without, take_task-AllKept, pop_free-AllKept,
  give_back-AllKept, put_task-AllKept, claim-AllKept,
}

module _ (pr : Profile) (scratch : ℕ → Memory) (size : Extent) (values : Memory) (threads : ℕ)
    (some_hcs : 0 < num_hcs_per_chunk pr) where
  abbrev n : ℕ
  n = num_hypercubes pr size

  abbrev c : ℕ
  c = num_hcs_per_chunk pr

  act-AllKept :
      (tid : ℕ) (s : State) (w : Worker)
      → tid < threads
      → s.workers tid ≡ w
      → Inv n c s
      → AllKept n c threads s
      → AllKept n c threads (act pr scratch size values tid w s)
  unfolding act
  act-AllKept tid s idle below e inv kept = elim (Bool-cases (ltb s.next_hc_index_to_write n)) [
    | inl more ↦ rw more (go_without n c threads tid below s kept entered (ap chunk e))
    | inr done ↦ rw done (go_without n c threads tid below s kept finished (ap chunk e))
  ]
  act-AllKept tid s entered below e inv kept =
      go_without n c threads tid below s kept (loaded s.next_available_write_task_hc_index)
        (ap chunk e)
  act-AllKept tid s (loaded available) below e inv kept =
      elim (Bool-cases (available == s.next_hc_index_to_write)) [
        | inl ready ↦ rw ready (go_without n c threads tid below s kept at_queue (ap chunk e))
        | inr other ↦ rw other (go_without n c threads tid below s kept compressing (ap chunk e))
      ]
  act-AllKept tid s at_queue below e inv kept =
      take_task-AllKept n c threads tid below s kept s.write_task_queue refl (ap chunk e) some_hcs
        inv
  act-AllKept tid s (writing b offset k) below e inv kept =
      elim (Bool-cases (ltb k (buffer_hypercubes b))) [
        | inl more ↦
            rw more
              (go_without n c threads tid below s kept (writing b offset (suc k)) (ap chunk e))
        | inr done ↦ rw done (go_without n c threads tid below s kept (copied b) (ap chunk e))
      ]
  act-AllKept tid s (copied b) below e inv kept =
      give_back-AllKept n c threads tid below s kept b s.stream
        (λ f lt h. (let none_left : none ≡ some f = sym (ap chunk e) ∙ h in cc))
  act-AllKept tid s compressing below e inv kept =
      pop_free-AllKept n c threads tid below s kept s.free_write_buffers (ap chunk e)
  act-AllKept tid s (popped b) below e inv kept =
      claim-AllKept n c threads tid below s kept b (ap chunk e) inv
  act-AllKept tid s (claimed b f) below e inv kept = elim (Bool-cases (ltb f n)) [
    | inl more ↦
        let first = (compress_chunk_lem pr scratch size values f (s.cubes tid) b).0 in
        rw more (
          go-AllKept n c threads tid below s kept (filled _)
            (λ g lt h. ap some first ∙ sym (ap chunk e) ∙ h))
    | inr over ↦ rw over (
        give_back-AllKept n c threads tid below s kept b s.stream (λ g lt h.
          let same : some f ≡ some g = sym (ap chunk e) ∙ h in
          let same' : f ≡ g = cc in omega (arith, lt, same', ltb→le f n over)))
  ]
  act-AllKept tid s (filled b) below e inv kept = put_task-AllKept n c threads tid below s kept b e
  act-AllKept tid s finished below e inv kept = kept

  run-AllKept :
      (l : List ℕ) (s : State)
      → Threads threads l
      → Inv n c s
      → AllKept n c threads s
      → AllKept n c threads (run pr scratch size values l s)
  unfolding run
  run-AllKept [] s h inv kept = kept
  run-AllKept (tid ∷ l) s h inv kept =
      run-AllKept l _ h.1 (act-Inv pr scratch size values some_hcs tid s (s.workers tid) refl inv)
        (act-AllKept tid s (s.workers tid) h.0 refl inv kept)

  start-AllKept :
      (cubes : ℕ → Memory) (buffers : List WriteBuffer) (stream : Memory)
      → AllKept n c threads (start cubes buffers stream)
  unfolding start
  start-AllKept cubes buffers stream f o lt = absurd (omega (arith, o.2))

  -- After every schedule of the threads below a bound, if a chunk has at least one hypercube: every
  -- chunk of the grid that is claimed and not yet written is in the queue or with one of these
  -- threads, and in no two of these places; it lies between the next index to write and the next to
  -- read. The queue is sorted, its buffers have an offset for each hypercube of their chunk,
  -- next_available_write_task_hc_index is the index on top of it, and the tasks that threads write
  -- are apart and below the next index to write.
  pub run-Accounted :
      (l : List ℕ) (cubes : ℕ → Memory) (buffers : List WriteBuffer) (stream : Memory)
      → Threads threads l
      → Accounted n c threads (run pr scratch size values l (start cubes buffers stream))
  run-Accounted l cubes buffers stream h = (
    run-Inv pr scratch size values some_hcs l cubes buffers stream,
    run-AllKept l (start cubes buffers stream) h
        (start-Inv pr scratch size values cubes buffers stream)
        (start-AllKept cubes buffers stream),
  )
