-- ===== src/MtEncoder/Actions.antt =====
-- Every action of a thread keeps the invariant, and so does every schedule.
use native.Mathlib.Decide.{ℕ_discrete}
use ndzip.Base.{
  ℕ, suc, ◌+◌, ◌≤◌, ◌<◌, ◌≡◌, ◌≢◌, refl, ap, ◌∙◌, sym, subst, List, [], ◌∷◌, ◌++◌, none, some, inl,
  inr, arith, Bool-cases, ltb, ltb→lt, ◌==◌, eq→==, ne→==,
}
use ndzip.Word.{u32}
use ndzip.Memory.{Memory}
use ndzip.Extent.{Extent}
use ndzip.Grid.{Profile, num_hypercubes}
use ndzip.MtEncoder.{
  WriteBuffer, Worker, idle, entered, loaded, at_queue, writing, copied, compressing, popped,
  claimed, filled, finished, State, go, buffer_hypercubes, compressed_size, top_index, take_task,
  pop_free, give_back, put_task, compress_chunk, act, run, start, num_hcs_per_chunk,
}
use ndzip.MtEncoder.Queue.{All-map}
use ndzip.MtEncoder.Order.{chunk, task, IsOpen, IsFull, IsReady, IsApart, Inv, go_self, go_other}
use ndzip.MtEncoder.Moves.{go-Inv, go_free, stream-Inv, claim-Inv, push-Inv, pop-Inv}
use ndzip.MtEncoder.Tasks.{compress_chunk_lem}

module _ (n c tid : ℕ) (s : State) (inv : Inv n c s) where
  take_task-Inv : (l : List WriteBuffer) → s.write_task_queue ≡ l → Inv n c (take_task tid l s)
  unfolding take_task go
  take_task-Inv [] e = go_free n c tid compressing s tt refl refl inv
  take_task-Inv (b ∷ l) e = elim (ℕ_discrete b.first_hc_index s.next_hc_index_to_write) [
    | yes same ↦ rw (eq→== b.first_hc_index s.next_hc_index_to_write same) (
        go-Inv n c tid (writing b s.stream_offset 0) _
          (pop-Inv n c b l (u32 (s.stream_offset + compressed_size b)) s e same inv) tt (λ f h. cc)
          (λ d h.
            let is : b ≡ d = cc in
            subst
              (λ d.
                (d.first_hc_index + buffer_hypercubes d
                  ≤ s.next_hc_index_to_write + buffer_hypercubes b)
                × ((u : ℕ) (x : WriteBuffer) → u ≢ tid → task (s.workers u) ≡ some x → IsApart d x))
              is (omega (arith, same), λ u x other k. inr (omega (arith, same, inv.behind u x k)))))
    | no ne ↦
        rw (ne→== b.first_hc_index s.next_hc_index_to_write ne)
          (go_free n c tid compressing s tt refl refl inv)
  ]

  pop_free-Inv : (l : List WriteBuffer) → Inv n c (pop_free tid l s)
  unfolding pop_free go
  pop_free-Inv [] = go_free n c tid idle s tt refl refl inv
  pop_free-Inv (b ∷ l) =
      go_free n c tid (popped b) _ tt refl refl (stream-Inv n c l s.cubes s.stream s inv)

  give_back-Inv :
      (b : WriteBuffer) (stream : Memory) → Inv n c (give_back tid b (record s { stream = stream }))
  unfolding give_back go
  give_back-Inv b stream =
      go_free n c tid idle _ tt refl refl
        (stream-Inv n c (s.free_write_buffers ++ (b ∷ [])) s.cubes stream s inv)

  put_task-Inv : (b : WriteBuffer) → s.workers tid ≡ filled b → Inv n c (put_task tid b s)
  unfolding put_task go
  put_task-Inv b e =
      let mine : chunk (s.workers tid) ≡ some b.first_hc_index = ap chunk e in
      push-Inv n c b (go tid idle s) (go_free n c tid idle s tt refl refl inv)
        (inv.claims tid b.first_hc_index mine) (subst (IsReady n c) e (inv.ready tid))
        (inv.not_queued tid b.first_hc_index mine)
        (λ u k. elim (ℕ_discrete u tid) [
          | yes at ↦
              (let none_left : none ≡ some b.first_hc_index = rw (at, go_self tid idle s) at k in
                cc)
          | no ne ↦ ne (inv.unique u tid b.first_hc_index (rw (go_other tid idle s u ne) at k) mine)
        ])

module _ (pr : Profile) (scratch : ℕ → Memory) (size : Extent) (values : Memory) where
  abbrev n : ℕ
  n = num_hypercubes pr size

  abbrev c : ℕ
  c = num_hcs_per_chunk pr

  claimed-Inv :
      (tid : ℕ) (s : State) (b : WriteBuffer) (f : ℕ)
      → s.workers tid ≡ claimed b f
      → f < n
      → Inv n c s
      → let t = compress_chunk pr scratch size values f (s.cubes tid) b in
        (cubes : ℕ → Memory) → Inv n c (go tid (filled t.1) (record s { cubes = cubes }))
  claimed-Inv tid s b f e below inv cubes =
      let b' = (compress_chunk pr scratch size values f (s.cubes tid) b).1 in
      let (first, full, same_buffer) =
        compress_chunk_lem pr scratch size values f (s.cubes tid) b in
      let mine : chunk (s.workers tid) ≡ some b'.first_hc_index =
        ap chunk e ∙ ap some (sym first) in
      go-Inv n c tid (filled b') _ (stream-Inv n c s.free_write_buffers cubes s.stream s inv)
        (rw first (below, full))
        (λ g h.
          let same : b'.first_hc_index ≡ g = cc in
          let mine' : chunk (s.workers tid) ≡ some g = mine ∙ ap some same in
          (inv.claims tid g mine', inv.not_queued tid g mine', λ u k. inv.unique u tid g k mine'))
        (λ d h. cc)

  pub act-Inv :
      0 < c
      → (tid : ℕ) (s : State) (w : Worker) → s.workers tid ≡ w
      → Inv n c s
      → Inv n c (act pr scratch size values tid w s)
  unfolding act
  act-Inv some_hcs tid s idle e inv = elim (Bool-cases (ltb s.next_hc_index_to_write n)) [
    | inl more ↦ rw more (go_free n c tid entered s tt refl refl inv)
    | inr done ↦ rw done (go_free n c tid finished s tt refl refl inv)
  ]
  act-Inv some_hcs tid s entered e inv = go_free n c tid (loaded _) s tt refl refl inv
  act-Inv some_hcs tid s (loaded available) e inv =
      elim (Bool-cases (available == s.next_hc_index_to_write)) [
        | inl ready ↦ rw ready (go_free n c tid at_queue s tt refl refl inv)
        | inr other ↦ rw other (go_free n c tid compressing s tt refl refl inv)
      ]
  act-Inv some_hcs tid s at_queue e inv = take_task-Inv n c tid s inv s.write_task_queue refl
  act-Inv some_hcs tid s (writing b offset k) e inv =
      elim (Bool-cases (ltb k (buffer_hypercubes b))) [
        | inl more ↦
            let mine : task (s.workers tid) ≡ some b = ap task e in
            rw more (
              go-Inv n c tid (writing b offset (suc k)) _
                (stream-Inv n c s.free_write_buffers s.cubes _ s inv) tt (λ f h. cc)
                (λ d h.
                  let mine' : task (s.workers tid) ≡ some d = cc in
                  (
                    inv.behind tid d mine',
                    λ u x ne k. inv.apart tid u d x mine' k (λ same. ne (sym same)),
                  )))
        | inr done ↦ rw done (
            go_free n c tid (copied b) _ tt refl refl
              (stream-Inv n c s.free_write_buffers s.cubes _ s inv))
      ]
  act-Inv some_hcs tid s (copied b) e inv = give_back-Inv n c tid s inv b s.stream
  act-Inv some_hcs tid s compressing e inv = pop_free-Inv n c tid s inv s.free_write_buffers
  act-Inv some_hcs tid s (popped b) e inv =
      let (q, at) = inv.to_read in
      go-Inv n c tid (claimed b s.next_hc_index_to_read) _ (claim-Inv n c s inv) tt
        (λ g h.
          let same : s.next_hc_index_to_read ≡ g = cc in
          (
            ((q, sym same ∙ at), omega (arith, same, inv.written), omega (arith, same)),
            All-map
                (λ d.
                  IsOpen c s.next_hc_index_to_write s.next_hc_index_to_read d.first_hc_index
                  × IsFull n c d)
                (λ d. d.first_hc_index ≢ g) s.write_task_queue (λ d o e. omega (arith, o.0.2, same))
                inv.queued,
            λ u k. absurd (omega (arith, same, (inv.claims u g k).2)),
          ))
        (λ d h. cc)
  act-Inv some_hcs tid s (claimed b f) e inv = elim (Bool-cases (ltb f n)) [
    | inl below ↦ rw below (claimed-Inv tid s b f e (ltb→lt f n below) inv _)
    | inr over ↦ rw over (give_back-Inv n c tid s inv b s.stream)
  ]
  act-Inv some_hcs tid s (filled b) e inv = put_task-Inv n c tid s inv b e
  act-Inv some_hcs tid s finished e inv = inv

  pub start-Inv :
      (cubes : ℕ → Memory) (buffers : List WriteBuffer) (stream : Memory)
      → Inv n c (start cubes buffers stream)
  unfolding start top_index
  start-Inv cubes buffers stream = record {
    to_read = (0, omega arith);
    to_write = inl (0, omega arith);
    available = refl;
    sorted = tt;
    queued = tt;
    written = omega arith;
    ready = λ t. tt;
    claims = λ t f h. cc;
    not_queued = λ t f h. tt;
    unique = λ t u f h k. cc;
    behind = λ t b h. cc;
    apart = λ t u b d h k ne. cc;
  }

  run-Inv-from :
      0 < c → (l : List ℕ) (s : State) → Inv n c s → Inv n c (run pr scratch size values l s)
  unfolding run
  run-Inv-from some_hcs [] s inv = inv
  run-Inv-from some_hcs (tid ∷ l) s inv =
      run-Inv-from some_hcs l _ (act-Inv some_hcs tid s (s.workers tid) refl inv)

  pub run-Inv :
      0 < c
      → (l : List ℕ) (cubes : ℕ → Memory) (buffers : List WriteBuffer) (stream : Memory)
      → Inv n c (run pr scratch size values l (start cubes buffers stream))
  run-Inv some_hcs l cubes buffers stream =
      run-Inv-from some_hcs l _ (start-Inv cubes buffers stream)
