-- ===== src/Tests/Scans.antt =====
-- Prefix sums of 32-bit words over two levels of buffers.
use ndzip.Base.{ℕ, ◌+◌, ◌≡◌, refl, arith}
use ndzip.Word.{add}
use ndzip.Memory.{Memory}
use ndzip.Gpu.Scan.{
  warp_inclusive_scan, warp_exclusive_scan, hierarchical_inclusive_scan,
  hierarchical_inclusive_scan_allocate,
}
use ndzip.Gpu.Scan.Folds.{fold_back}
use ndzip.Gpu.Scan.Levels.{hierarchical_inclusive_scan-eq-fold_back}

abbrev plus : ℕ → ℕ → ℕ
plus a b = add 32 a b

plus_assoc : (a b c : ℕ) → plus (plus a b) c ≡ plus a (plus b c)
plus_assoc a b c = omega arith

abbrev lengths : Memory
lengths i = i + 1

abbrev garbage : ℕ → Memory
garbage n i = n + 7

inclusive_at_5 : warp_inclusive_scan plus lengths 5 ≡ 21
unfolding warp_inclusive_scan
inclusive_at_5 = refl

exclusive_at_5 : warp_exclusive_scan plus lengths 100 5 ≡ 115
unfolding warp_exclusive_scan
exclusive_at_5 = refl

hierarchical_inclusive_scan-eq-fold_back_example :
    (hierarchical_inclusive_scan plus 0 lengths
        (hierarchical_inclusive_scan_allocate plus 0 garbage 1024 1024)
        1024).0
      1000
    ≡ fold_back plus lengths 1000 1000
hierarchical_inclusive_scan-eq-fold_back_example =
    hierarchical_inclusive_scan-eq-fold_back plus plus_assoc 0 garbage lengths 1024 (omega arith)
      refl (omega arith) 1000 (omega arith)
