-- ===== src/Io/Output/Working.antt =====
-- What the calls of the mapped output stream leave when no call of the operating system fails.
use ndzip.Base.{ℕ, ◌+◌, ◌≡◌, refl, if◌then◌else◌, true, false, Bool-cases, inl, inr}
use ndzip.Io.{returned}
use ndzip.Io.Output.{
  Os, Works, MmapOutput, ftruncate, unmap_if_mapped, truncate, map, mmap_get_write_buffer,
  mmap_commit_chunk,
}

unfoldable pub mmap_opened : MmapOutput → MmapOutput
mmap_opened m = if m.mapped then m else record {
  file = ftruncate (m.size + m.max_chunk_size) m.file;
  max_chunk_size = m.max_chunk_size;
  size = m.size;
  mapped = true;
}

unfoldable pub mmap_committed : ℕ → MmapOutput → MmapOutput
mmap_committed length m = record {
  file = ftruncate (m.size + length) m.file;
  max_chunk_size = m.max_chunk_size;
  size = m.size + length;
  mapped = false;
}

module _ (os : Os) (works : Works os) (m : MmapOutput) where
  pub mmap_get_write_buffer-eq : mmap_get_write_buffer os m ≡ returned (mmap_opened m)
  unfolding mmap_get_write_buffer truncate map unmap_if_mapped mmap_opened
  mmap_get_write_buffer-eq = elim (Bool-cases m.mapped) [
    | inl e ↦ rw e refl
    | inr e ↦ rw (e, works.ftruncate_works, works.mmap_works) refl
  ]

  pub mmap_commit_chunk-eq :
      (length : ℕ) → mmap_commit_chunk os length m ≡ returned (mmap_committed length m)
  unfolding mmap_commit_chunk truncate unmap_if_mapped mmap_committed
  mmap_commit_chunk-eq length = elim (Bool-cases m.mapped) [
    | inl e ↦ rw (e, works.munmap_works, works.ftruncate_works) refl
    | inr e ↦ rw (e, works.ftruncate_works) refl
  ]
