-- ===== src/MtEncoder/Order.antt =====
-- Which chunks are claimed, queued and written: the invariant of every schedule.
use ndzip.Base.{
  ℕ, ◌+◌, ◌-◌, ◌*◌, ◌≤◌, ◌<◌, ◌≡◌, ◌≢◌, ◌⊎◌, refl, min, Option, none, some, eq→==, ne→==,
}
use ndzip.MtEncoder.{
  WriteBuffer, Worker, writing, claimed, filled, State, go, buffer_hypercubes, top_index,
}
use ndzip.MtEncoder.Queue.{All, IsSorted}

-- The chunk that a thread has claimed and not yet queued.
abbrev pub chunk : Worker → Option ℕ
chunk (claimed b f) = some f
chunk (filled b) = some b.first_hc_index
chunk _ = none

-- The task that a thread writes.
abbrev pub task : Worker → Option WriteBuffer
task (writing b offset k) = some b
task _ = none

-- The first index of a chunk between the chunks written and those not claimed.
abbrev pub IsOpen : ℕ → ℕ → ℕ → ℕ → Type 0
IsOpen c lo hi f = ((q : ℕ) × (f ≡ q * c)) × (lo ≤ f) × (f < hi)

-- A full buffer: a chunk of the grid with an offset for each hypercube of it.
abbrev pub IsFull : ℕ → ℕ → WriteBuffer → Type 0
IsFull n c b = (b.first_hc_index < n) × (buffer_hypercubes b ≡ min c (n - b.first_hc_index))

-- What a worker's own variables satisfy.
abbrev pub IsReady : ℕ → ℕ → Worker → Type 0
IsReady n c (filled b) = IsFull n c b
IsReady n c _ = Unit

-- The hypercubes of two tasks.
abbrev pub IsApart : WriteBuffer → WriteBuffer → Type 0
IsApart b c =
    (b.first_hc_index + buffer_hypercubes b ≤ c.first_hc_index)
    ⊎ (c.first_hc_index + buffer_hypercubes c ≤ b.first_hc_index)

-- For `n` hypercubes in chunks of `c`.
pub record Inv (n c : ℕ) (s : State) : Type 0 where
  pub to_read : (q : ℕ) × (s.next_hc_index_to_read ≡ q * c)
  pub to_write : ((q : ℕ) × (s.next_hc_index_to_write ≡ q * c)) ⊎ (s.next_hc_index_to_write ≡ n)
  pub available : s.next_available_write_task_hc_index ≡ top_index s.write_task_queue
  pub sorted : IsSorted s.write_task_queue
  pub queued :
      All
        (λ b.
          IsOpen c s.next_hc_index_to_write s.next_hc_index_to_read b.first_hc_index × IsFull n c b)
        s.write_task_queue
  pub ready : (t : ℕ) → IsReady n c (s.workers t)
  pub written : s.next_hc_index_to_write ≤ s.next_hc_index_to_read
  pub claims :
      (t f : ℕ)
      → chunk (s.workers t) ≡ some f
      → IsOpen c s.next_hc_index_to_write s.next_hc_index_to_read f
  pub not_queued :
      (t f : ℕ) → chunk (s.workers t) ≡ some f → All (λ b. b.first_hc_index ≢ f) s.write_task_queue
  pub unique : (t u f : ℕ) → chunk (s.workers t) ≡ some f → chunk (s.workers u) ≡ some f → t ≡ u
  pub behind :
      (t : ℕ) (b : WriteBuffer)
      → task (s.workers t) ≡ some b
      → b.first_hc_index + buffer_hypercubes b ≤ s.next_hc_index_to_write
  pub apart :
      (t u : ℕ) (b d : WriteBuffer)
      → task (s.workers t) ≡ some b
      → task (s.workers u) ≡ some d
      → t ≢ u
      → IsApart b d

-- What `go` changes.
pub go_self : (tid : ℕ) (w : Worker) (s : State) → (go tid w s).workers tid ≡ w
unfolding go
go_self tid w s = rw (eq→== tid tid refl) refl

pub go_other :
    (tid : ℕ) (w : Worker) (s : State) (t : ℕ) → t ≢ tid → (go tid w s).workers t ≡ s.workers t
unfolding go
go_other tid w s t ne = rw (ne→== t tid ne) refl
