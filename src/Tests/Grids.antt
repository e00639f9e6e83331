-- ===== src/Tests/Grids.antt =====
-- The hypercubes of a grid of 40 * 17 * 33 floats.
use ndzip.Base.{ℕ, zero, suc, ◌+◌, ◌*◌, ◌^◌, ◌<◌, ◌≡◌, refl, arith, for_up, List, [], ◌∷◌}
use ndzip.Extent.{Extent, extent_from_linear_id, mul_extent, div_extent}
use ndzip.Memory.{update}
use ndzip.Grid.{profile, num_hypercubes, for_each_hypercube}
use ndzip.Grid.Order.{for_each_hypercube-eq}

abbrev grid : Extent
grid zero = 40
grid (suc zero) = 17
grid d = 33

number : num_hypercubes (profile 4 3) grid ≡ 4
unfolding num_hypercubes profile
number = refl

-- What a visit keeps of its position.
abbrev visit : ℕ → Extent → List ℕ → List ℕ
visit i off seen = (i * 10000 + off 0 * 100 + off 2) ∷ seen

visits : for_each_hypercube (profile 4 3) grid visit [] ≡ 31616 ∷ 21600 ∷ 10016 ∷ 0 ∷ []
unfolding for_each_hypercube profile update
visits = refl

grid-small : (d : ℕ) → d < 3 → grid d + 16 < 2 ^ 32
grid-small zero h = omega arith
grid-small (suc zero) h = omega arith
grid-small (suc (suc d)) h = omega arith

for_each_hypercube-eq_example :
    for_each_hypercube (profile 4 3) grid visit []
    ≡ for_up 0
        (num_hypercubes (profile 4 3) grid)
        1
        (λ k. visit k (mul_extent 3 (extent_from_linear_id 3 k (div_extent 3 grid 16)) 16))
        []
unfolding profile
for_each_hypercube-eq_example =
    for_each_hypercube-eq (profile 4 3) grid (omega arith) grid-small (omega arith) (omega arith)
      visit []
