-- ===== src/MtEncoder/Progress.antt =====
-- No chunk is lost: each chunk that was claimed and not written is queued or with a thread, so the
-- compressor never comes to a state where no thread can do more.
use native.Mathlib.Decide.{ℕ_discrete, dec_lt}
use ndzip.Base.{
  ℕ, ◌+◌, ◌<◌, ◌≡◌, ◌≢◌, ◌⊎◌, refl, ap, ◌∙◌, sym, subst, List, [], ◌∷◌, none, some, inl, inr, arith,
  Bool-cases, ltb, eq→==, ne→==,
}
use ndzip.Memory.{Memory}
use ndzip.MtEncoder.{
  WriteBuffer, Worker, idle, writing, compressing, popped, claimed, filled, State, go, push,
  take_task, pop_free, give_back, put_task,
}
use ndzip.MtEncoder.Queue.{All}
use ndzip.MtEncoder.Order.{chunk, IsOpen, Inv, go_self, go_other}
use ndzip.MtEncoder.Moves.{next_multiple}

-- A buffer of the queue starts with the hypercube `f`.
abbrev pub IsQueued : ℕ → List WriteBuffer → Type 0
IsQueued f [] = ⊥
IsQueued f (b ∷ l) = (b.first_hc_index ≡ f) ⊎ IsQueued f l

push_here : (b : WriteBuffer) (l : List WriteBuffer) → IsQueued b.first_hc_index (push b l)
unfolding push
push_here b [] = inl refl
push_here b (c ∷ l) = elim (Bool-cases (ltb b.first_hc_index c.first_hc_index)) [
  | inl e ↦ rw e (inl refl)
  | inr e ↦ rw e (inr (push_here b l))
]

push_there : (f : ℕ) (b : WriteBuffer) (l : List WriteBuffer) → IsQueued f l → IsQueued f (push b l)
unfolding push
push_there f b [] h = elim h [ ]
push_there f b (c ∷ l) h = elim (Bool-cases (ltb b.first_hc_index c.first_hc_index)) [
  | inl e ↦ rw e (inr h)
  | inr e ↦ rw e (elim h [ inl here ↦ inl here | inr there ↦ inr (push_there f b l there) ])
]

-- The chunk is queued, or one of the threads below `threads` has it.
abbrev pub IsKept : ℕ → State → ℕ → Type 0
IsKept threads s f =
    IsQueued f s.write_task_queue ⊎ ((t : ℕ) × (t < threads) × (chunk (s.workers t) ≡ some f))

-- Every chunk of the grid that is claimed and not written is kept.
abbrev pub AllKept : ℕ → ℕ → ℕ → State → Type 0
AllKept n c threads s =
    (f : ℕ)
    → IsOpen c s.next_hc_index_to_write s.next_hc_index_to_read f
    → f < n
    → IsKept threads s f

-- The invariant, and that no chunk is lost.
abbrev pub Accounted : ℕ → ℕ → ℕ → State → Type 0
Accounted n c threads s = Inv n c s × AllKept n c threads s

module _ (n c threads tid : ℕ) (below : tid < threads) (s : State)
    (kept : AllKept n c threads s) where
  -- A thread that keeps its chunk.
  pub go-AllKept :
      (w : Worker)
      → ((f : ℕ) → f < n → chunk (s.workers tid) ≡ some f → chunk w ≡ some f)
      → AllKept n c threads (go tid w s)
  unfolding go
  go-AllKept w keeps f o lt = elim (kept f o lt) [
    | inl queued ↦ inl queued
    | inr (t, ht, e) ↦ elim (ℕ_discrete t tid) [
      | yes at ↦ inr (
        tid,
        below,
        ap chunk (go_self tid w s) ∙ keeps f lt (ap (λ u. chunk (s.workers u)) (sym at) ∙ e),
      )
      | no ne ↦ inr (t, ht, ap chunk (go_other tid w s t ne) ∙ e)
    ]
  ]

  pub go_without : (w : Worker) → chunk (s.workers tid) ≡ none → AllKept n c threads (go tid w s)
  go_without w no_chunk = go-AllKept w (λ f lt h. cc)

  pub take_task-AllKept :
      (l : List WriteBuffer)
      → s.write_task_queue ≡ l
      → chunk (s.workers tid) ≡ none
      → 0 < c
      → Inv n c s
      → AllKept n c threads (take_task tid l s)
  unfolding take_task go
  take_task-AllKept [] e no_chunk some_hcs inv = go_without compressing no_chunk
  take_task-AllKept (b ∷ l) e no_chunk some_hcs inv =
      elim (ℕ_discrete b.first_hc_index s.next_hc_index_to_write) [
        | yes same ↦
            let full = (subst (All _) e inv.queued).0.1 in
            rw (eq→== b.first_hc_index s.next_hc_index_to_write same) (λ f o lt.
              elim (kept f (o.0, omega (arith, o.1), o.2) lt) [
                | inl queued ↦ elim (subst (IsQueued f) e queued) [
                  | inl here ↦ absurd (omega (arith, here, same, full, o.1))
                  | inr there ↦ inl there
                ]
                | inr (t, ht, k) ↦
                    let ne : t ≢ tid = λ at.
                      (let none_left : none ≡ some f =
                          sym no_chunk ∙ ap (λ u. chunk (s.workers u)) (sym at) ∙ k in
                        cc) in
                    inr (t, ht, ap chunk (go_other tid (writing b s.stream_offset 0) s t ne) ∙ k)
              ])
        | no ne ↦
            rw (ne→== b.first_hc_index s.next_hc_index_to_write ne)
              (go_without compressing no_chunk)
      ]

  pub pop_free-AllKept :
      (l : List WriteBuffer) → chunk (s.workers tid) ≡ none → AllKept n c threads (pop_free tid l s)
  unfolding pop_free go
  pop_free-AllKept [] no_chunk = go_without idle no_chunk
  pop_free-AllKept (b ∷ l) no_chunk = go_without (popped b) no_chunk

  pub give_back-AllKept :
      (b : WriteBuffer) (stream : Memory)
      → ((f : ℕ) → f < n → chunk (s.workers tid) ≢ some f)
      → AllKept n c threads (give_back tid b (record s { stream = stream }))
  unfolding give_back go
  give_back-AllKept b stream no_chunk = go-AllKept idle (λ f lt h. absurd (no_chunk f lt h))

  pub put_task-AllKept :
      (b : WriteBuffer) → s.workers tid ≡ filled b → AllKept n c threads (put_task tid b s)
  unfolding put_task go
  put_task-AllKept b e f o lt = elim (kept f o lt) [
    | inl queued ↦ inl (push_there f b s.write_task_queue queued)
    | inr (t, ht, k) ↦ elim (ℕ_discrete t tid) [
      | yes at ↦
          let mine : some b.first_hc_index ≡ some f =
            sym (ap chunk e) ∙ ap (λ u. chunk (s.workers u)) (sym at) ∙ k in
          let same : b.first_hc_index ≡ f = cc in
          inl (
            subst (λ g. IsQueued g (push b s.write_task_queue)) same
              (push_here b s.write_task_queue))
      | no ne ↦ inr (t, ht, ap chunk (go_other tid idle s t ne) ∙ k)
    ]
  ]

  pub claim-AllKept :
      (b : WriteBuffer)
      → chunk (s.workers tid) ≡ none
      → Inv n c s
      → AllKept n c threads (
          go tid
            (claimed b s.next_hc_index_to_read)
            (record s { next_hc_index_to_read = s.next_hc_index_to_read + c }))
  unfolding go
  claim-AllKept b no_chunk inv f (q, above, under) lt = elim (dec_lt f s.next_hc_index_to_read) [
    | yes old ↦ go_without (claimed b s.next_hc_index_to_read) no_chunk f (q, above, old) lt
    | no new ↦ elim (ℕ_discrete f s.next_hc_index_to_read) [
      | yes same ↦ inr (
        tid,
        below,
        ap chunk (go_self tid (claimed b s.next_hc_index_to_read) s) ∙ ap some (sym same),
      )
      | no ne ↦ absurd (
          omega (
            arith,
            new,
            under,
            ne,
            next_multiple c s.next_hc_index_to_read f inv.to_read q (omega arith),
          ))
    ]
  ]
