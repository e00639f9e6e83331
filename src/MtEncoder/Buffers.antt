-- ===== src/MtEncoder/Buffers.antt =====
-- Each write buffer is free, queued or held by one thread, in every schedule.
use native.Mathlib.Decide.{ℕ_discrete}
use ndzip.Base.{
  ℕ, zero, suc, ◌+◌, ◌≤◌, ◌<◌, ◌≡◌, ◌≢◌, refl, ap, ◌∙◌, sym, List, [], ◌∷◌, ◌++◌, inl, inr, arith,
  Bool-cases, ltb, ◌==◌, if◌then◌else◌,
}
use ndzip.Memory.{Memory}
use ndzip.Extent.{Extent}
use ndzip.Grid.{Profile, num_hypercubes}
use ndzip.MtEncoder.{
  WriteBuffer, Worker, idle, entered, loaded, at_queue, writing, copied, compressing, popped,
  claimed, filled, finished, State, go, buffer_hypercubes, push, take_task, pop_free, give_back,
  put_task, act, run, start,
}
use ndzip.MtEncoder.Order.{go_self, go_other}
use ndzip.MtEncoder.Tasks.{compress_chunk_lem}

-- A schedule of the threads below `threads`.
abbrev pub Threads : ℕ → List ℕ → Type 0
Threads threads [] = Unit
Threads threads (tid ∷ l) = (tid < threads) × Threads threads l

-- Each buffer has a weight, by its number.
module _ (v : ℕ → ℕ) where
  abbrev pub count : List WriteBuffer → ℕ
  count [] = 0
  count (b ∷ l) = v b.number + count l

  count-snoc :
      (l : List WriteBuffer) (b : WriteBuffer) → count (l ++ (b ∷ [])) ≡ v b.number + count l
  count-snoc [] b = omega arith
  count-snoc (x ∷ l) b = omega (arith, count-snoc l b)

  count-push : (b : WriteBuffer) (l : List WriteBuffer) → count (push b l) ≡ v b.number + count l
  unfolding push
  count-push b [] = refl
  count-push b (x ∷ l) = elim (Bool-cases (ltb b.first_hc_index x.first_hc_index)) [
    | inl e ↦ rw e refl
    | inr e ↦ rw e (omega (arith, count-push b l))
  ]

  -- The weight of the buffer that a thread fills or writes.
  abbrev pub holds : Worker → ℕ
  holds idle = 0
  holds at_queue = 0
  holds entered = 0
  holds (loaded a) = 0
  holds (writing b o k) = v b.number
  holds (copied b) = v b.number
  holds compressing = 0
  holds (popped b) = v b.number
  holds (claimed b f) = v b.number
  holds (filled b) = v b.number
  holds finished = 0

  -- The weight of the buffers that the threads below `t` hold.
  abbrev pub held : ℕ → (ℕ → Worker) → ℕ
  held zero workers = 0
  held (suc t) workers = held t workers + holds (workers t)

  held-go_above :
      (tid : ℕ) (w : Worker) (s : State) (t : ℕ)
      → t ≤ tid
      → held t (go tid w s).workers ≡ held t s.workers
  held-go_above tid w s zero h = refl
  held-go_above tid w s (suc t) h =
      let ne : t ≢ tid = λ e. omega (arith, e) in
      rw (go_other tid w s t ne, held-go_above tid w s t (omega arith)) refl

  -- A move changes the sum by what the thread held before and holds now.
  pub held-go :
      (tid : ℕ) (w : Worker) (s : State) (t : ℕ)
      → tid < t
      → held t (go tid w s).workers + holds (s.workers tid) ≡ held t s.workers + holds w
  held-go tid w s zero h = absurd (omega (arith, h))
  held-go tid w s (suc t) h = elim (ℕ_discrete t tid) [
    | yes e ↦
        let below = held-go_above tid w s t (omega (arith, e)) in
        let mine : holds ((go tid w s).workers t) ≡ holds w =
          ap holds (ap (go tid w s).workers e ∙ go_self tid w s) in
        let before : holds (s.workers t) ≡ holds (s.workers tid) =
          ap (λ u. holds (s.workers u)) e in
        omega (arith, below, mine, before)
    | no ne ↦
        let below = held-go tid w s t (omega (arith, h, ne)) in
        let same : holds ((go tid w s).workers t) ≡ holds (s.workers t) =
          ap holds (go_other tid w s t ne) in
        omega (arith, below, same)
  ]

  -- The buffers have the weight `k` together, with `threads` threads.
  abbrev pub IsWhole : ℕ → ℕ → State → Type 0
  IsWhole threads k s =
      count s.free_write_buffers + count s.write_task_queue + held threads s.workers ≡ k

  module _ (threads k tid : ℕ) (below : tid < threads) (s : State)
      (whole : IsWhole threads k s) where
    go-IsWhole : (w : Worker) → holds w ≡ holds (s.workers tid) → IsWhole threads k (go tid w s)
    unfolding go
    go-IsWhole w same = omega (arith, whole, held-go tid w s threads below, same)

    take_task-IsWhole :
        (l : List WriteBuffer)
        → s.write_task_queue ≡ l
        → holds (s.workers tid) ≡ 0
        → IsWhole threads k (take_task tid l s)
    unfolding take_task go
    take_task-IsWhole [] e nmine = go-IsWhole compressing (sym nmine)
    take_task-IsWhole (b ∷ l) e nmine =
        elim (Bool-cases (b.first_hc_index == s.next_hc_index_to_write)) [
          | inl same ↦ rw same (
              omega (
                arith,
                whole,
                ap count e,
                nmine,
                held-go tid (writing b s.stream_offset 0) s threads below,
              ))
          | inr other ↦ rw other (go-IsWhole compressing (sym nmine))
        ]

    pop_free-IsWhole :
        (l : List WriteBuffer)
        → s.free_write_buffers ≡ l
        → holds (s.workers tid) ≡ 0
        → IsWhole threads k (pop_free tid l s)
    unfolding pop_free go
    pop_free-IsWhole [] e nmine = go-IsWhole idle (sym nmine)
    pop_free-IsWhole (b ∷ l) e nmine =
        omega (arith, whole, ap count e, nmine, held-go tid (popped b) s threads below)

    give_back-IsWhole :
        (b : WriteBuffer) (stream : Memory)
        → holds (s.workers tid) ≡ v b.number
        → IsWhole threads k (give_back tid b (record s { stream = stream }))
    unfolding give_back go
    give_back-IsWhole b stream mine =
        omega
          (arith, whole, count-snoc s.free_write_buffers b, mine, held-go tid idle s threads below)

    put_task-IsWhole :
        (b : WriteBuffer)
        → holds (s.workers tid) ≡ v b.number
        → IsWhole threads k (put_task tid b s)
    unfolding put_task go
    put_task-IsWhole b mine =
        omega
          (arith, whole, count-push b s.write_task_queue, mine, held-go tid idle s threads below)

  module _ (pr : Profile) (scratch : ℕ → Memory) (size : Extent) (values : Memory)
      (threads k : ℕ) where
    act-IsWhole :
        (tid : ℕ) (s : State) (w : Worker)
        → tid < threads
        → s.workers tid ≡ w
        → IsWhole threads k s
        → IsWhole threads k (act pr scratch size values tid w s)
    unfolding act
    act-IsWhole tid s idle below e whole =
        elim (Bool-cases (ltb s.next_hc_index_to_write (num_hypercubes pr size))) [
          | inl more ↦ rw more (go-IsWhole threads k tid below s whole entered (sym (ap holds e)))
          | inr done ↦ rw done (go-IsWhole threads k tid below s whole finished (sym (ap holds e)))
        ]
    act-IsWhole tid s entered below e whole =
        go-IsWhole threads k tid below s whole (loaded s.next_available_write_task_hc_index)
          (sym (ap holds e))
    act-IsWhole tid s (loaded available) below e whole =
        elim (Bool-cases (available == s.next_hc_index_to_write)) [
          | inl ready ↦
              rw ready (go-IsWhole threads k tid below s whole at_queue (sym (ap holds e)))
          | inr other ↦
              rw other (go-IsWhole threads k tid below s whole compressing (sym (ap holds e)))
        ]
    act-IsWhole tid s at_queue below e whole =
        take_task-IsWhole threads k tid below s whole s.write_task_queue refl (ap holds e)
    act-IsWhole tid s (writing b offset j) below e whole =
        elim (Bool-cases (ltb j (buffer_hypercubes b))) [
          | inl more ↦
              rw more (
                go-IsWhole threads k tid below s whole (writing b offset (suc j))
                  (sym (ap holds e)))
          | inr done ↦
              rw done (go-IsWhole threads k tid below s whole (copied b) (sym (ap holds e)))
        ]
    act-IsWhole tid s (copied b) below e whole =
        give_back-IsWhole threads k tid below s whole b s.stream (ap holds e)
    act-IsWhole tid s compressing below e whole =
        pop_free-IsWhole threads k tid below s whole s.free_write_buffers refl (ap holds e)
    act-IsWhole tid s (popped b) below e whole =
        go-IsWhole threads k tid below s whole (claimed b s.next_hc_index_to_read)
          (sym (ap holds e))
    act-IsWhole tid s (claimed b f) below e whole =
        elim (Bool-cases (ltb f (num_hypercubes pr size))) [
          | inl more ↦
              let same = (compress_chunk_lem pr scratch size values f (s.cubes tid) b).2 in
              rw more
                (go-IsWhole threads k tid below s whole (filled _) (ap v same ∙ sym (ap holds e)))
          | inr over ↦
              rw over (give_back-IsWhole threads k tid below s whole b s.stream (ap holds e))
        ]
    act-IsWhole tid s (filled b) below e whole =
        put_task-IsWhole threads k tid below s whole b (ap holds e)
    act-IsWhole tid s finished below e whole = whole

    run-IsWhole-from :
        (l : List ℕ) (s : State)
        → Threads threads l
        → IsWhole threads k s
        → IsWhole threads k (run pr scratch size values l s)
    unfolding run
    run-IsWhole-from [] s h whole = whole
    run-IsWhole-from (tid ∷ l) s h whole =
        run-IsWhole-from l _ h.1 (act-IsWhole tid s (s.workers tid) h.0 refl whole)

  idle_held : (t : ℕ) → held t (λ u. idle) ≡ 0
  idle_held zero = refl
  idle_held (suc t) = rw (idle_held t) refl

  pub run-IsWhole :
      (pr : Profile) (scratch : ℕ → Memory) (size : Extent) (values : Memory) (threads : ℕ)
      (l : List ℕ) (cubes : ℕ → Memory) (buffers : List WriteBuffer) (stream : Memory)
      → Threads threads l
      → IsWhole threads (count buffers) (run pr scratch size values l (start cubes buffers stream))
  unfolding start
  run-IsWhole pr scratch size values threads l cubes buffers stream h =
      run-IsWhole-from pr scratch size values threads (count buffers) l (start cubes buffers stream)
        h (omega (arith, idle_held threads))

-- One for the buffer with this number.
abbrev pub only : ℕ → ℕ → ℕ
only number i = if i == number then 1 else 0

-- After every schedule of the threads below a bound, for each number: among the free buffers, the
-- queued buffers and the buffers that these threads fill or write, there are together as many with
-- this number as there were free buffers with it at first.
pub run-count :
    (pr : Profile) (scratch : ℕ → Memory) (size : Extent) (values : Memory) (threads : ℕ)
    (l : List ℕ) (cubes : ℕ → Memory) (buffers : List WriteBuffer) (stream : Memory)
    → Threads threads l
    → (number : ℕ)
    → let s = run pr scratch size values l (start cubes buffers stream) in
      count (only number) s.free_write_buffers
        + count (only number) s.write_task_queue
        + held (only number) threads s.workers
      ≡ count (only number) buffers
run-count pr scratch size values threads l cubes buffers stream h number =
    run-IsWhole (only number) pr scratch size values threads l cubes buffers stream h
