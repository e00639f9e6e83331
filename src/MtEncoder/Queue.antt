-- ===== src/MtEncoder/Queue.antt =====
-- The queue of tasks, sorted by the index of the first hypercube.
use ndzip.Base.{◌<◌, ◌≢◌, List, [], ◌∷◌, ltb, Bool-cases, inl, inr, ltb→lt, ltb→le, arith}
use ndzip.MtEncoder.{WriteBuffer, push}

abbrev pub All : (WriteBuffer → Type 0) → List WriteBuffer → Type 0
All P [] = Unit
All P (b ∷ l) = P b × All P l

abbrev pub IsSorted : List WriteBuffer → Type 0
IsSorted [] = Unit
IsSorted (b ∷ l) = All (λ c. b.first_hc_index < c.first_hc_index) l × IsSorted l

pub All-map :
    (P Q : WriteBuffer → Type 0) (l : List WriteBuffer)
    → ((b : WriteBuffer) → P b → Q b)
    → All P l
    → All Q l
All-map P Q [] f h = tt
All-map P Q (b ∷ l) f h = (f b h.0, All-map P Q l f h.1)

pub All-zip :
    (P Q R : WriteBuffer → Type 0) (l : List WriteBuffer)
    → ((b : WriteBuffer) → P b → Q b → R b)
    → All P l
    → All Q l
    → All R l
All-zip P Q R [] f h k = tt
All-zip P Q R (b ∷ l) f h k = (f b h.0 k.0, All-zip P Q R l f h.1 k.1)

pub push-All :
    (P : WriteBuffer → Type 0) (b : WriteBuffer) (l : List WriteBuffer)
    → P b
    → All P l
    → All P (push b l)
unfolding push
push-All P b [] p h = (p, tt)
push-All P b (c ∷ l) p h = elim (Bool-cases (ltb b.first_hc_index c.first_hc_index)) [
  | inl e ↦ rw e (p, h)
  | inr e ↦ rw e (h.0, push-All P b l p h.1)
]

-- A task with a new index keeps the queue sorted.
pub push-IsSorted :
    (b : WriteBuffer) (l : List WriteBuffer)
    → All (λ c. c.first_hc_index ≢ b.first_hc_index) l
    → IsSorted l
    → IsSorted (push b l)
unfolding push
push-IsSorted b [] new h = (tt, tt)
push-IsSorted b (c ∷ l) new h = elim (Bool-cases (ltb b.first_hc_index c.first_hc_index)) [
  | inl e ↦
      let below = ltb→lt b.first_hc_index c.first_hc_index e in
      rw e (
        (
          below,
          All-map (λ d. c.first_hc_index < d.first_hc_index)
              (λ d. b.first_hc_index < d.first_hc_index) l (λ d lt. omega arith) h.0,
        ),
        h,
      )
  | inr e ↦
      let above = ltb→le b.first_hc_index c.first_hc_index e in
      rw e (
        push-All (λ d. c.first_hc_index < d.first_hc_index) b l (ground (arith, new.0)) h.0,
        push-IsSorted b l new.1 h.1,
      )
]
