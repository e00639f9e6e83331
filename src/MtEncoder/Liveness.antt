-- ===== src/MtEncoder/Liveness.antt =====
-- As long as not everything is written, there is work that some thread can do.
use native.Mathlib.Decide.{dec_lt}
use ndzip.Base.{
  ℕ, zero, suc, ◌*◌, ◌≤◌, ◌<◌, ◌≡◌, ◌⊎◌, refl, ◌∙◌, List, [], ◌∷◌, some, inl, inr, arith,
}
use ndzip.Memory.{Memory}
use ndzip.Extent.{Extent}
use ndzip.Grid.{Profile, num_hypercubes}
use ndzip.MtEncoder.{
  WriteBuffer, Worker, idle, entered, loaded, at_queue, writing, copied, compressing, popped,
  claimed, filled, finished, State, top_index, run, start, num_hcs_per_chunk,
}
use ndzip.MtEncoder.Queue.{All, All-map, IsSorted}
use ndzip.MtEncoder.Order.{chunk, IsOpen, IsFull, Inv}
use ndzip.MtEncoder.Buffers.{count, held, holds, Threads, IsWhole, run-IsWhole}
use ndzip.MtEncoder.Chunks.{run-Accounted}
use ndzip.MtEncoder.Progress.{IsQueued, AllKept}

-- Each buffer counts once.
abbrev pub one : ℕ → ℕ
one number = 1

holds-le : (w : Worker) → 0 < holds one w → holds one w ≡ 1
holds-le (claimed b g) h = refl
holds-le (filled b) h = refl
holds-le (writing b o k) h = refl
holds-le (copied b) h = refl
holds-le entered h = absurd (omega (arith, h))
holds-le (loaded a) h = absurd (omega (arith, h))
holds-le (popped b) h = refl
holds-le idle h = absurd (omega (arith, h))
holds-le at_queue h = absurd (omega (arith, h))
holds-le compressing h = absurd (omega (arith, h))
holds-le finished h = absurd (omega (arith, h))

held-some :
    (t : ℕ) (workers : ℕ → Worker)
    → 0 < held one t workers
    → (u : ℕ) × (u < t) × (holds one (workers u) ≡ 1)
held-some zero workers h = absurd (omega (arith, h))
held-some (suc t) workers h = elim (dec_lt 0 (holds one (workers t))) [
  | yes mine ↦ (t, omega arith, holds-le (workers t) mine)
  | no none_here ↦
      let (u, lt, e) = held-some t workers (omega (arith, h, none_here)) in
      (u, omega (arith, lt), e)
]

behind_first :
    (f : ℕ) (g : ℕ) (l : List WriteBuffer)
    → All (λ d. g < d.first_hc_index) l
    → IsQueued f l
    → g < f
behind_first f g [] h q = elim q [ ]
behind_first f g (d ∷ l) h (inl e) = omega (arith, h.0, e)
behind_first f g (d ∷ l) h (inr q) = behind_first f g l h.1 q

-- The smallest index of the queue is on top.
top_is :
    (f : ℕ) (l : List WriteBuffer)
    → IsSorted l
    → All (λ b. f ≤ b.first_hc_index) l
    → IsQueued f l
    → top_index l ≡ f
unfolding top_index
top_is f [] sorted least q = elim q [ ]
top_is f (b ∷ l) sorted least (inl e) = e
top_is f (b ∷ l) sorted least (inr q) =
    absurd (omega (arith, least.0, behind_first f b.first_hc_index l sorted.0 q))

module _ (n c threads k : ℕ) (s : State) (inv : Inv n c s) (kept : AllKept n c threads s)
    (whole : IsWhole one threads k s) (some_buffer : 0 < k)
    (more : s.next_hc_index_to_write < n) where
  -- The task that is next to write is on top of the queue, and the test before the critical
  -- section shows it.
  abbrev pub TaskReady : Type 0
  TaskReady =
      (s.next_available_write_task_hc_index ≡ s.next_hc_index_to_write)
      × (top_index s.write_task_queue ≡ s.next_hc_index_to_write)

  write_number : (q : ℕ) × (s.next_hc_index_to_write ≡ q * c)
  write_number = elim inv.to_write [ inl q ↦ q | inr e ↦ absurd (omega (arith, more, e)) ]

  claimed_next :
      s.next_hc_index_to_write < s.next_hc_index_to_read
      → TaskReady
        ⊎ ((t : ℕ) × (t < threads) × (chunk (s.workers t) ≡ some s.next_hc_index_to_write))
  claimed_next lt = elim (kept s.next_hc_index_to_write (write_number, omega arith, lt) more) [
    | inl queued ↦
        let top =
          top_is s.next_hc_index_to_write s.write_task_queue inv.sorted
            (All-map _ (λ b. s.next_hc_index_to_write ≤ b.first_hc_index) s.write_task_queue
              (λ b h. h.0.1) inv.queued)
            queued in
        inl (inv.available ∙ top, top)
    | inr thread ↦ inr thread
  ]

  none_queued :
      (l : List WriteBuffer)
      → s.next_hc_index_to_read ≤ s.next_hc_index_to_write
      → All
          (λ b.
            IsOpen c s.next_hc_index_to_write s.next_hc_index_to_read b.first_hc_index
            × IsFull n c b)
          l
      → count one l ≡ 0
  none_queued [] le h = refl
  none_queued (b ∷ l) le h = absurd (omega (arith, h.0.0.1, h.0.0.2))

  unclaimed_next :
      s.next_hc_index_to_read ≤ s.next_hc_index_to_write
      → ((t : ℕ) × (t < threads) × (holds one (s.workers t) ≡ 1))
        ⊎ (0 < count one s.free_write_buffers)
  unclaimed_next le =
      let no_tasks = none_queued s.write_task_queue le inv.queued in
      elim (dec_lt 0 (count one s.free_write_buffers)) [
        | yes free ↦ inr free
        | no busy ↦ inl (held-some threads s.workers (omega (arith, whole, no_tasks, busy)))
      ]

  -- Who can do the next step towards the next write.
  abbrev pub NextStep : Type 0
  NextStep =
      ((s.next_hc_index_to_write < s.next_hc_index_to_read)
        × (TaskReady
            ⊎ ((t : ℕ) × (t < threads) × (chunk (s.workers t) ≡ some s.next_hc_index_to_write))))
      ⊎ ((s.next_hc_index_to_read ≤ s.next_hc_index_to_write)
          × (((t : ℕ) × (t < threads) × (holds one (s.workers t) ≡ 1))
              ⊎ (0 < count one s.free_write_buffers)))

  next_step : NextStep
  next_step = elim (dec_lt s.next_hc_index_to_write s.next_hc_index_to_read) [
    | yes lt ↦ inl (lt, claimed_next lt)
    | no ge ↦
        let le : s.next_hc_index_to_read ≤ s.next_hc_index_to_write = omega arith in
        inr (le, unclaimed_next le)
  ]

-- After every schedule of the threads below a bound, if a chunk has at least one hypercube, there
-- is at least one write buffer and not every hypercube is written yet. If the chunk that is next to
-- write is claimed, then its task is on top of the queue and the test before the critical section
-- shows it, or one of these threads has that chunk. If it is not claimed, then one of these threads
-- fills or writes a buffer, or there is a free buffer.
pub run_never_stuck :
    (pr : Profile) (scratch : ℕ → Memory) (size : Extent) (values : Memory) (threads : ℕ)
    → 0 < num_hcs_per_chunk pr
    → (l : List ℕ) (cubes : ℕ → Memory) (buffers : List WriteBuffer) (stream : Memory)
    → Threads threads l
    → 0 < count one buffers
    → let s = run pr scratch size values l (start cubes buffers stream) in
      s.next_hc_index_to_write < num_hypercubes pr size
      → ((s.next_hc_index_to_write < s.next_hc_index_to_read)
          × (((s.next_available_write_task_hc_index ≡ s.next_hc_index_to_write)
                × (top_index s.write_task_queue ≡ s.next_hc_index_to_write))
              ⊎ ((t : ℕ) × (t < threads) × (chunk (s.workers t) ≡ some s.next_hc_index_to_write))))
        ⊎ ((s.next_hc_index_to_read ≤ s.next_hc_index_to_write)
            × (((t : ℕ) × (t < threads) × (holds one (s.workers t) ≡ 1))
                ⊎ (0 < count one s.free_write_buffers)))
run_never_stuck pr scratch size values threads some_hcs l cubes buffers stream h some_buffer more =
    let (inv, kept) =
      run-Accounted pr scratch size values threads some_hcs l cubes buffers stream h in
    next_step (num_hypercubes pr size) (num_hcs_per_chunk pr) threads (count one buffers)
      (run pr scratch size values l (start cubes buffers stream)) inv kept
      (run-IsWhole one pr scratch size values threads l cubes buffers stream h) some_buffer more
