-- ===== src/Tool/Mapped.antt =====
-- The streams of io.cc that map files, as the streams of the tool.
use ndzip.Base.{ℕ, ◌≡◌, ap, ◌∙◌, ◌+◌, ◌-◌, if◌then◌else◌, ltb, leb, ◌&&◌, Option, none, some}
use ndzip.Memory.{Memory}
use ndzip.Io.{Outcome, returned, ◌>>=◌, MmapInput, mmap_read_exact, mmap_read_some}
use ndzip.Io.Output.{Os, Works, MmapOutput, mmap_get_write_buffer, mmap_commit_chunk}
use ndzip.Io.Output.Working.{
  mmap_opened, mmap_committed, mmap_get_write_buffer-eq, mmap_commit_chunk-eq,
}
use ndzip.Tool.{Streams}

-- The client's part of the buffer, at most `max_chunk_size` bytes from the end of the file on.
abbrev pub mmap_client : Memory → MmapOutput → MmapOutput
mmap_client buffer m = record m {
  file = record m.file {
    contents = λ a.
        if leb m.size a && ltb a (m.size + m.max_chunk_size)
        then buffer (a - m.size)
        else m.file.contents a;
  };
}

unfoldable pub mmap_produce :
    Os → (Memory → Outcome (ℕ × ℕ × Memory)) → MmapOutput → Outcome (ℕ × MmapOutput)
unfolding mmap_get_write_buffer mmap_commit_chunk
mmap_produce os client m = mmap_get_write_buffer os m >>= λ opened.
    client (λ a. opened.file.contents (opened.size + a)) >>= λ (result, length, buffer).
    mmap_commit_chunk os length (mmap_client buffer opened) >>= λ m'. returned (result, m')

unfoldable pub mmap_exact : MmapInput → Outcome (Option Memory × MmapInput)
unfolding mmap_read_exact
mmap_exact s =
    let (chunk, s') = mmap_read_exact s in
    chunk >>= λ chunk. elim chunk [
      | none ↦ returned (none, s')
      | some address ↦ returned (some (λ a. s.map (address + a)), s')
    ]

unfoldable pub mmap_some : ℕ → MmapInput → Outcome (Memory × ℕ × MmapInput)
unfolding mmap_read_some
mmap_some remainder s =
    let (address, bytes, s') = mmap_read_some remainder s in
    returned ((λ a. s.map (address + a)), bytes, s')

unfoldable pub mmap_streams : Os → Streams MmapInput MmapOutput
unfolding mmap_exact mmap_some mmap_produce
mmap_streams os = record {
  read_exact = mmap_exact;
  read_some = mmap_some;
  produce = mmap_produce os;
}

-- A chunk through the output stream when no call of the operating system fails.
pub mmap_produce-eq :
    (os : Os) (works : Works os) (client : Memory → Outcome (ℕ × ℕ × Memory)) (m : MmapOutput)
    (result length : ℕ) (buffer : Memory)
    → client (λ a. (mmap_opened m).file.contents ((mmap_opened m).size + a))
      ≡ returned (result, length, buffer)
    → mmap_produce os client m
      ≡ returned (result, mmap_committed length (mmap_client buffer (mmap_opened m)))
unfolding mmap_produce
mmap_produce-eq os works client m result length buffer e =
    ap
      (λ o. o >>= λ opened.
        client (λ a. opened.file.contents (opened.size + a)) >>= λ (result, length, buffer).
        mmap_commit_chunk os length (mmap_client buffer opened) >>= λ m'. returned (result, m'))
      (mmap_get_write_buffer-eq os works m)
    ∙ ap
        (λ c. c >>= λ (result, length, buffer).
          mmap_commit_chunk os length (mmap_client buffer (mmap_opened m)) >>= λ m'.
          returned (result, m'))
        e
    ∙ ap (λ o. o >>= λ m'. returned (result, m'))
        (mmap_commit_chunk-eq os works (mmap_client buffer (mmap_opened m)) length)
