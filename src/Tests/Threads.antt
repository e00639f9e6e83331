-- ===== src/Tests/Threads.antt =====
-- Two threads that compress three hypercubes of two cells, in chunks of two hypercubes.
use ndzip.Base.{ℕ, ◌+◌, ◌≤◌, ◌<◌, ◌≡◌, some, ◌⊎◌, refl, arith, List, [], ◌∷◌, ◌++◌}
use ndzip.Word.{complement_negative, rotate_left_1}
use ndzip.Memory.{Memory}
use ndzip.Extent.{Extent}
use ndzip.Grid.{Profile, num_hypercubes}
use ndzip.Stream.{hypercube}
use ndzip.MtEncoder.{WriteBuffer, Worker, writing, State, top_index, num_hcs_per_chunk, run, start}
use ndzip.MtEncoder.Order.{chunk}
use ndzip.MtEncoder.Buffers.{count, held, holds, only, Threads, run-count}
use ndzip.MtEncoder.Liveness.{one, run_never_stuck}
use ndzip.MtEncoder.Progress.{Accounted}
use ndzip.MtEncoder.Chunks.{run-Accounted}

abbrev pairs : Profile
pairs = record { bytes = 32; dims = 1; side = 2 }

abbrev six : Extent
six d = 6

abbrev zeros : Memory
zeros a = 0

abbrev numbered : ℕ → WriteBuffer
numbered number = record {
  number = number;
  first_hc_index = 0;
  stream = zeros;
  offsets_after_hcs = [];
}

-- Both threads compress a chunk, then both take a task.
abbrev schedule : List ℕ
schedule =
    1 ∷ 1 ∷ 1 ∷ 0 ∷ 0 ∷ 0 ∷ 0 ∷ 0 ∷ 0 ∷ 0 ∷ 1 ∷ 1 ∷ 1 ∷ 1 ∷ 0 ∷ 0 ∷ 0 ∷ 0 ∷ 1 ∷ 1 ∷ 1 ∷ 1 ∷ []

abbrev scratch : ℕ → Memory
scratch k = zeros

abbrev cubes : ℕ → Memory
cubes t = zeros

abbrev buffers : List WriteBuffer
buffers = numbered 0 ∷ numbered 1 ∷ numbered 2 ∷ []

abbrev after : List ℕ → State
after l = run pairs scratch six zeros l (start cubes buffers zeros)

schedule-Threads : Threads 2 schedule
schedule-Threads = (
  omega arith,
  (
    omega arith,
    (
      omega arith,
      (
        omega arith,
        (
          omega arith,
          (
            omega arith,
            (
              omega arith,
              (
                omega arith,
                (
                  omega arith,
                  (
                    omega arith,
                    (
                      omega arith,
                      (
                        omega arith,
                        (
                          omega arith,
                          (
                            omega arith,
                            (
                              omega arith,
                              (
                                omega arith,
                                (
                                  omega arith,
                                  (
                                    omega arith,
                                    (omega arith, (omega arith, (omega arith, (omega arith, tt)))),
                                  ),
                                ),
                              ),
                            ),
                          ),
                        ),
                      ),
                    ),
                  ),
                ),
              ),
            ),
          ),
        ),
      ),
    ),
  ),
)

run-Accounted_example :
    Accounted (num_hypercubes pairs six) (num_hcs_per_chunk pairs) 2 (after schedule)
run-Accounted_example =
    run-Accounted pairs scratch six zeros 2 (omega arith) schedule cubes buffers zeros
      schedule-Threads

run-count_example :
    count (only 1) (after schedule).free_write_buffers
      + count (only 1) (after schedule).write_task_queue
      + held (only 1) 2 (after schedule).workers
    ≡ 1
run-count_example =
    run-count pairs scratch six zeros 2 schedule cubes buffers zeros schedule-Threads 1

-- The first task is taken and the second is not.
abbrev prefix : List ℕ
prefix = 0 ∷ 0 ∷ 0 ∷ 0 ∷ 0 ∷ 0 ∷ 0 ∷ 0 ∷ 0 ∷ 0 ∷ 0 ∷ []

to_write : (after prefix).next_hc_index_to_write ≡ 2
unfolding run start num_hypercubes
to_write = refl

number : num_hypercubes pairs six ≡ 3
unfolding num_hypercubes
number = refl

prefix-Threads : Threads 2 prefix
prefix-Threads = (
  omega arith,
  (
    omega arith,
    (
      omega arith,
      (
        omega arith,
        (
          omega arith,
          (
            omega arith,
            (omega arith, (omega arith, (omega arith, (omega arith, (omega arith, tt))))),
          ),
        ),
      ),
    ),
  ),
)

run_never_stuck_example :
    let s = after prefix in
    ((s.next_hc_index_to_write < s.next_hc_index_to_read)
      × (((s.next_available_write_task_hc_index ≡ s.next_hc_index_to_write)
            × (top_index s.write_task_queue ≡ s.next_hc_index_to_write))
          ⊎ ((t : ℕ) × (t < 2) × (chunk (s.workers t) ≡ some s.next_hc_index_to_write))))
    ⊎ ((s.next_hc_index_to_read ≤ s.next_hc_index_to_write)
        × (((t : ℕ) × (t < 2) × (holds one (s.workers t) ≡ 1))
            ⊎ (0 < count one s.free_write_buffers)))
run_never_stuck_example =
    run_never_stuck pairs scratch six zeros 2 (omega arith) prefix cubes buffers zeros
      prefix-Threads (omega arith) (omega (arith, to_write, number))

-- What each thread writes after the schedule.
task : Worker → WriteBuffer
task (writing b o k) = b
task _ = numbered 0

offset : Worker → ℕ
offset (writing b o k) = o
offset _ = 0

abbrev worker : ℕ → Worker
worker t = (after schedule).workers t

firsts : ((task (worker 0)).first_hc_index ≡ 0) × ((task (worker 1)).first_hc_index ≡ 2)
unfolding run start num_hypercubes task
firsts = (refl, refl)

-- When the second thread writes first, the last offset of the first task is not in the header yet,
-- and the second task is copied over the place of the first.
second_first : List ℕ
second_first = schedule ++ (1 ∷ [])

misplaced :
    hypercube 32 3 (after second_first).stream 2 ≡ hypercube 32 3 (after second_first).stream 0
unfolding run start num_hypercubes hypercube second_first complement_negative rotate_left_1
misplaced = refl
