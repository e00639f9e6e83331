-- ===== src/Memory.antt =====
-- Arrays behind pointers: a memory gives the word at each index, and an array access through a
-- pointer `x + p` at `i` is an access at `p + i`. What an operation leaves alone is part of its laws.
use ndzip.Base.{ℕ, ◌==◌, if◌then◌else◌, ◌≡◌, ◌≢◌, eq→==, ne→==}

abbrev pub Memory : Type 0
Memory = ℕ → ℕ

-- `m[i] = v`.
unfoldable pub update : Memory → ℕ → ℕ → Memory
update m i v = λ j. if j == i then v else m j

pub update_self : (m : Memory) (i v j : ℕ) → j ≡ i → update m i v j ≡ v
unfolding update
update_self m i v j e = rw (eq→== j i e)

pub update_ne : (m : Memory) (i v j : ℕ) → j ≢ i → update m i v j ≡ m j
unfolding update
update_ne m i v j ne = rw (ne→== j i ne)
