-- ===== src/MtEncoder/Moves.antt =====
-- Changes of one thread's place, and changes of the shared variables, that keep the invariant.
use native.Mathlib.Decide.{ℕ_discrete, dec_lt}
use native.Mathlib.Nat.{mul-le-mul_right}
use ndzip.Base.{
  ℕ, suc, ◌+◌, ◌-◌, ◌*◌, ◌≤◌, ◌<◌, ◌≡◌, ◌≢◌, refl, ap, ◌∙◌, sym, subst, List, ◌∷◌, none, some, inl,
  inr, arith,
}
use ndzip.Memory.{Memory}
use ndzip.MtEncoder.{WriteBuffer, Worker, State, go, buffer_hypercubes, top_index, push}
use ndzip.MtEncoder.Queue.{All, All-map, All-zip, IsSorted, push-All, push-IsSorted}
use ndzip.MtEncoder.Order.{chunk, task, IsOpen, IsFull, IsReady, IsApart, Inv, go_self, go_other}

IsApart-sym : (b d : WriteBuffer) → IsApart b d → IsApart d b
IsApart-sym b d (inl h) = inr h
IsApart-sym b d (inr h) = inl h

pub next_multiple : (c a b : ℕ) → (q : ℕ) × (a ≡ q * c) → (q : ℕ) × (b ≡ q * c) → a < b → a + c ≤ b
next_multiple c a b (p, e) (q, f) lt = elim (dec_lt p q) [
  | yes h ↦ let room : suc p * c ≤ q * c = mul-le-mul_right c h in omega (arith, room)
  | no h ↦
      let room : q * c ≤ p * c = (let le : q ≤ p = omega arith in mul-le-mul_right c le) in
      absurd (omega (arith, room))
]

module _ (n c : ℕ) where
  -- A thread moves, and what it then has does not clash with the others.
  pub go-Inv :
      (tid : ℕ) (w : Worker) (s : State)
      → Inv n c s
      → IsReady n c w
      → ((f : ℕ)
          → chunk w ≡ some f
          → IsOpen c s.next_hc_index_to_write s.next_hc_index_to_read f
            × All (λ b. b.first_hc_index ≢ f) s.write_task_queue
            × ((u : ℕ) → chunk (s.workers u) ≡ some f → u ≡ tid))
      → ((b : WriteBuffer)
          → task w ≡ some b
          → (b.first_hc_index + buffer_hypercubes b ≤ s.next_hc_index_to_write)
            × ((u : ℕ) (d : WriteBuffer) → u ≢ tid → task (s.workers u) ≡ some d → IsApart b d))
      → Inv n c (go tid w s)
  unfolding go
  go-Inv tid w s inv ready claim tasks = record {
    to_read = inv.to_read;
    to_write = inv.to_write;
    available = inv.available;
    sorted = inv.sorted;
    queued = inv.queued;
    written = inv.written;
    ready = λ t. elim (ℕ_discrete t tid) [
      | yes e ↦ rw (e, go_self tid w s) ready
      | no ne ↦ rw (go_other tid w s t ne) (inv.ready t)
    ];
    claims = λ t f h. elim (ℕ_discrete t tid) [
      | yes e ↦ (claim f (rw (e, go_self tid w s) at h)).0
      | no ne ↦ inv.claims t f (rw (go_other tid w s t ne) at h)
    ];
    not_queued = λ t f h. elim (ℕ_discrete t tid) [
      | yes e ↦ (claim f (rw (e, go_self tid w s) at h)).1
      | no ne ↦ inv.not_queued t f (rw (go_other tid w s t ne) at h)
    ];
    unique = λ t u f h k. elim (ℕ_discrete t tid) [
      | yes e ↦ elim (ℕ_discrete u tid) [
        | yes e' ↦ e ∙ sym e'
        | no ne ↦
            e ∙ sym ((claim f (rw (e, go_self tid w s) at h)).2 u (rw (go_other tid w s u ne) at k))
      ]
      | no ne ↦ elim (ℕ_discrete u tid) [
        | yes e' ↦
            (claim f (rw (e', go_self tid w s) at k)).2 t (rw (go_other tid w s t ne) at h) ∙ sym e'
        | no ne' ↦
            inv.unique t u f (rw (go_other tid w s t ne) at h) (rw (go_other tid w s u ne') at k)
      ]
    ];
    behind = λ t b h. elim (ℕ_discrete t tid) [
      | yes e ↦ (tasks b (rw (e, go_self tid w s) at h)).0
      | no ne ↦ inv.behind t b (rw (go_other tid w s t ne) at h)
    ];
    apart = λ t u b d h k other. elim (ℕ_discrete t tid) [
      | yes e ↦
          (tasks b (rw (e, go_self tid w s) at h)).1 u d (λ e'. other (e ∙ sym e'))
            (rw (go_other tid w s u (λ e'. other (e ∙ sym e'))) at k)
      | no ne ↦ elim (ℕ_discrete u tid) [
        | yes e' ↦
            IsApart-sym d b
              ((tasks d (rw (e', go_self tid w s) at k)).1 t b ne (rw (go_other tid w s t ne) at h))
        | no ne' ↦
            inv.apart t u b d (rw (go_other tid w s t ne) at h) (rw (go_other tid w s u ne') at k)
              other
      ]
    ];
  }

  -- A place with no chunk and no task.
  pub go_free :
      (tid : ℕ) (w : Worker) (s : State)
      → IsReady n c w
      → chunk w ≡ none
      → task w ≡ none
      → Inv n c s
      → Inv n c (go tid w s)
  go_free tid w s ready no_chunk no_task inv = go-Inv tid w s inv ready (λ f h. cc) (λ b h. cc)

  -- What the invariant does not mention.
  pub stream-Inv :
      (free : List WriteBuffer) (cubes : ℕ → Memory) (stream : Memory) (s : State)
      → Inv n c s
      → Inv n c (record s { free_write_buffers = free; cubes = cubes; stream = stream })
  stream-Inv free cubes stream s inv = record {
    to_read = inv.to_read;
    to_write = inv.to_write;
    available = inv.available;
    sorted = inv.sorted;
    queued = inv.queued;
    written = inv.written;
    ready = inv.ready;
    claims = inv.claims;
    not_queued = inv.not_queued;
    unique = inv.unique;
    behind = inv.behind;
    apart = inv.apart;
  }

  -- `fetch_add` of the next chunk to read.
  pub claim-Inv :
      (s : State)
      → Inv n c s
      → Inv n c (record s { next_hc_index_to_read = s.next_hc_index_to_read + c })
  claim-Inv s inv = record {
    to_read = (suc inv.to_read.0, omega (arith, inv.to_read.1));
    to_write = inv.to_write;
    available = inv.available;
    sorted = inv.sorted;
    queued =
        All-map _ _ s.write_task_queue (λ b h. ((h.0.0, h.0.1, omega (arith, h.0.2)), h.1))
          inv.queued;
    written = omega (arith, inv.written);
    ready = inv.ready;
    claims = λ t f h. let o = inv.claims t f h in (o.0, o.1, omega (arith, o.2));
    not_queued = inv.not_queued;
    unique = inv.unique;
    behind = inv.behind;
    apart = inv.apart;
  }

  -- The push of a full buffer that no other thread has.
  pub push-Inv :
      (b : WriteBuffer) (s : State)
      → Inv n c s
      → IsOpen c s.next_hc_index_to_write s.next_hc_index_to_read b.first_hc_index
      → IsFull n c b
      → All (λ d. d.first_hc_index ≢ b.first_hc_index) s.write_task_queue
      → ((u : ℕ) → chunk (s.workers u) ≢ some b.first_hc_index)
      → Inv n c (record s {
        write_task_queue = push b s.write_task_queue;
        next_available_write_task_hc_index = top_index (push b s.write_task_queue);
      })
  push-Inv b s inv open_b full new alone = record {
    to_read = inv.to_read;
    to_write = inv.to_write;
    available = refl;
    sorted = push-IsSorted b s.write_task_queue new inv.sorted;
    queued = push-All _ b s.write_task_queue (open_b, full) inv.queued;
    written = inv.written;
    ready = inv.ready;
    claims = inv.claims;
    not_queued = λ t f h.
        push-All (λ d. d.first_hc_index ≢ f) b s.write_task_queue
          (λ e. alone t (h ∙ ap some (sym e))) (inv.not_queued t f h);
    unique = inv.unique;
    behind = inv.behind;
    apart = inv.apart;
  }

  -- The pop of the task that is next to write.
  pub pop-Inv :
      (b : WriteBuffer) (l : List WriteBuffer) (offset : ℕ) (s : State)
      → s.write_task_queue ≡ b ∷ l
      → b.first_hc_index ≡ s.next_hc_index_to_write
      → Inv n c s
      → Inv n c (record s {
        write_task_queue = l;
        next_available_write_task_hc_index = top_index l;
        next_hc_index_to_write = s.next_hc_index_to_write + buffer_hypercubes b;
        stream_offset = offset;
      })
  pop-Inv b l offset s queue next inv =
      let (here, rest) = subst (All _) queue inv.queued in
      let (first, more) = subst IsSorted queue inv.sorted in
      let lo = s.next_hc_index_to_write in
      let behind_it : (f : ℕ)
          → IsOpen c lo s.next_hc_index_to_read f
          → b.first_hc_index ≢ f
          → IsOpen c (lo + buffer_hypercubes b) s.next_hc_index_to_read f =
        λ f (q, above, below) ne.
          let step : b.first_hc_index + c ≤ f =
            next_multiple c b.first_hc_index f here.0.0 q (omega arith) in
          (q, omega (arith, here.1.1), below) in
      record {
        to_read = inv.to_read;
        to_write = elim (dec_lt (n - b.first_hc_index) c) [
          | yes h ↦ inr (omega (arith, here.1))
          | no h ↦ inl (suc here.0.0.0, omega (arith, here.0.0.1, here.1))
        ];
        available = refl;
        sorted = more;
        queued =
            All-zip _ _ _ l (λ d h lt. (behind_it d.first_hc_index h.0 (λ e. omega arith), h.1))
              rest first;
        written =
            (let step =
                next_multiple c b.first_hc_index s.next_hc_index_to_read here.0.0 inv.to_read
                  here.0.2 in
              omega (arith, here.1.1, step));
        ready = inv.ready;
        claims =
            λ t f h. behind_it f (inv.claims t f h) (subst (All _) queue (inv.not_queued t f h)).0;
        not_queued = λ t f h. (subst (All _) queue (inv.not_queued t f h)).1;
        unique = inv.unique;
        behind = λ t d h. omega (arith, inv.behind t d h);
        apart = inv.apart;
      }
