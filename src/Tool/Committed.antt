-- ===== src/Tool/Committed.antt =====
-- io/io.cc: one chunk in the mapped output stream, from the write buffer to the commit.
use ndzip.Base.{ℕ, ◌+◌, ◌-◌, ◌≤◌, ◌<◌, ◌≡◌, refl, ap, ◌∙◌, arith, if◌then◌else◌, Bool, true, false}
use ndzip.Memory.{Memory}
use ndzip.Io.Output.{MmapOutput, ftruncate}
use ndzip.Io.Output.Working.{mmap_opened, mmap_committed}
use ndzip.Tool.Mapped.{mmap_client}

-- No buffer is mapped, and the file ends with the last chunk.
abbrev pub IsClosed : MmapOutput → Type 0
IsClosed m = (m.mapped ≡ false) × (m.size ≡ m.file.length)

module _ (m : MmapOutput) (closed : IsClosed m) where
  abbrev extended : MmapOutput
  extended = record {
    file = ftruncate (m.size + m.max_chunk_size) m.file;
    max_chunk_size = m.max_chunk_size;
    size = m.size;
    mapped = true;
  }

  opened-eq : mmap_opened m ≡ extended
  unfolding mmap_opened
  opened-eq = ap (λ (b : Bool). if b then m else extended) closed.0

module _ (m : MmapOutput) (closed : IsClosed m) (buffer : Memory) (n : ℕ)
    (fits : n ≤ m.max_chunk_size) where
  abbrev committed : MmapOutput → MmapOutput
  committed opened = mmap_committed n (mmap_client buffer opened)

  pub committed-IsClosed : IsClosed (committed (mmap_opened m))
  unfolding mmap_committed
  committed-IsClosed = (refl, refl)

  pub committed-size : (committed (mmap_opened m)).size ≡ m.size + n
  unfolding mmap_committed
  committed-size = ap (λ (o : MmapOutput). o.size + n) (opened-eq m closed)

  pub committed-max : (committed (mmap_opened m)).max_chunk_size ≡ m.max_chunk_size
  unfolding mmap_committed
  committed-max = ap (λ (o : MmapOutput). o.max_chunk_size) (opened-eq m closed)

  pub committed_before :
      (a : ℕ) → a < m.size → (committed (mmap_opened m)).file.contents a ≡ m.file.contents a
  unfolding mmap_committed
  committed_before a ha =
      let same : m.size ≡ m.file.length = closed.1 in
      ap (λ (o : MmapOutput). (committed o).file.contents a) (opened-eq m closed) ∙ ground arith

  committed_at :
      (a : ℕ)
      → m.size ≤ a
      → a < m.size + n
      → (committed (extended m closed)).file.contents a ≡ buffer (a - m.size)
  unfolding mmap_committed
  committed_at a lo hi = ground arith

  pub committed_chunk :
      (i : ℕ) → i < n → (committed (mmap_opened m)).file.contents (m.size + i) ≡ buffer i
  committed_chunk i hi =
      ap (λ (o : MmapOutput). (committed o).file.contents (m.size + i)) (opened-eq m closed)
      ∙ committed_at (m.size + i) (omega arith) (omega arith)
      ∙ ap buffer (let e : m.size + i - m.size ≡ i = omega arith in e)
