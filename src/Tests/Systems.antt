-- ===== src/Tests/Systems.antt =====
-- An operating system whose calls succeed, and one with a full disk.
use ndzip.Base.{ℕ, refl, false, ltb}
use ndzip.Io.Output.{Os, Works}

abbrev pub working : Os
working = record {
  fwrite_fails = λ n file. false;
  ftruncate_fails = λ n file. false;
  mmap_fails = λ file. false;
  munmap_fails = λ file. false;
}

abbrev pub working-Works : Works working
working-Works = record {
  fwrite_works = λ n file. refl;
  ftruncate_works = λ n file. refl;
  mmap_works = λ file. refl;
  munmap_works = λ file. refl;
}

abbrev pub full_at : ℕ → Os
full_at most = record {
  fwrite_fails = λ n file. false;
  ftruncate_fails = λ n file. ltb most n;
  mmap_fails = λ file. false;
  munmap_fails = λ file. false;
}
