-- ===== src/MtEncoder.antt =====
-- cpu_encoder.inl: the multi-threaded compressor `mt_cpu_encoder::compress`. A thread is a state
-- machine between its atomic actions and critical sections, and a schedule is the sequence of the
-- threads that act; the atomic operations act on one memory, in the order of the schedule.
pub mod Queue
pub mod Tasks
pub mod Order
pub mod Moves
pub mod Actions
pub mod Buffers
pub mod Progress
pub mod Chunks
pub mod Liveness
use ndzip.Base.{
  ℕ, zero, suc, ◌+◌, ◌-◌, ◌*◌, ◌/◌, ◌%◌, ◌^◌, ◌==◌, ltb, leb, if◌then◌else◌, Bool, true, false,
  ◌&&◌, List, [], ◌∷◌, ◌++◌, Option, none, some,
}
use ndzip.Word.{u32, bits_of}
use ndzip.Memory.{Memory}
use ndzip.Extent.{Extent, mul_extent, div_extent, extent_from_linear_id}
use ndzip.Grid.{Profile, hc_size, num_hypercubes}
use ndzip.Transform.{block_transform}
use ndzip.ZeroBit.{zero_bit_encode}
use ndzip.Border.{pack_border}
use ndzip.Hypercube.{load_hypercube}
use ndzip.Stream.{set_offset_after, hypercube, border}

-- `SIZE_MAX`.
abbrev pub size_max : ℕ
size_max = 2 ^ 64 - 1

abbrev pub num_write_buffers : ℕ
num_write_buffers = 30

pub length : List ℕ → ℕ
length [] = 0
length (x ∷ l) = suc (length l)

-- `l.back()` and `l[i]`.
pub back : List ℕ → ℕ
back [] = 0
back (x ∷ []) = x
back (x ∷ y ∷ l) = back (y ∷ l)

pub get_elem : List ℕ → ℕ → ℕ
get_elem [] i = 0
get_elem (x ∷ l) zero = x
get_elem (x ∷ l) (suc i) = get_elem l i

-- A write buffer; `number` is its place in `write_buffers`, which a pointer to it stands for.
pub record WriteBuffer : Type 0 where
  pub number : ℕ
  pub first_hc_index : ℕ
  pub stream : Memory
  pub offsets_after_hcs : List ℕ

abbrev pub buffer_hypercubes : WriteBuffer → ℕ
buffer_hypercubes b = length b.offsets_after_hcs

abbrev pub compressed_size : WriteBuffer → ℕ
compressed_size b = back b.offsets_after_hcs

-- Where a thread stands, with its local variables.
pub data Worker : Type 0 where
  idle : Worker
  entered : Worker
  loaded : ℕ → Worker
  at_queue : Worker
  writing : WriteBuffer → ℕ → ℕ → Worker
  copied : WriteBuffer → Worker
  compressing : Worker
  popped : WriteBuffer → Worker
  claimed : WriteBuffer → ℕ → Worker
  filled : WriteBuffer → Worker
  finished : Worker

-- The variables that the threads share, and each thread's cube and place.
pub record State : Type 0 where
  pub cubes : ℕ → Memory
  pub workers : ℕ → Worker
  pub write_task_queue : List WriteBuffer
  pub free_write_buffers : List WriteBuffer
  pub next_hc_index_to_read : ℕ
  pub next_hc_index_to_write : ℕ
  pub next_available_write_task_hc_index : ℕ
  pub stream_offset : ℕ
  pub stream : Memory

pub go : ℕ → Worker → State → State
go tid w s = record s { workers = λ t. if t == tid then w else s.workers t }

-- `write_task_queue.push(b)`: the smallest index is the top.
pub push : WriteBuffer → List WriteBuffer → List WriteBuffer
push b [] = b ∷ []
push b (c ∷ l) = if ltb b.first_hc_index c.first_hc_index then b ∷ c ∷ l else c ∷ push b l

-- `write_task_queue.empty() ? SIZE_MAX : write_task_queue.top()->first_hc_index`.
pub top_index : List WriteBuffer → ℕ
top_index [] = size_max
top_index (b ∷ l) = b.first_hc_index

-- `memcpy(dst + p, src, n)`.
pub memcpy : ℕ → Memory → ℕ → Memory → Memory
memcpy p src n dst = λ a. if leb p a && ltb a (p + n) then src (a - p) else dst a

-- After `prepare()`, with `buffers` as the last call left the write buffers.
unfoldable pub start : (ℕ → Memory) → List WriteBuffer → Memory → State
start cubes buffers stream = record {
  cubes = cubes;
  workers = λ t. idle;
  write_task_queue = [];
  free_write_buffers = buffers;
  next_hc_index_to_read = 0;
  next_hc_index_to_write = 0;
  next_available_write_task_hc_index = size_max;
  stream_offset = 0;
  stream = stream;
}

-- `critical(queue)` before a write: the top of the queue, if it is the next to write.
pub take_task : ℕ → List WriteBuffer → State → State
unfolding go length back top_index
take_task tid [] s = go tid compressing s
take_task tid (b ∷ l) s =
    if b.first_hc_index == s.next_hc_index_to_write
    then go tid (writing b s.stream_offset 0) (record s {
      write_task_queue = l;
      next_available_write_task_hc_index = top_index l;
      next_hc_index_to_write = s.next_hc_index_to_write + buffer_hypercubes b;
      stream_offset = u32 (s.stream_offset + compressed_size b);
    })
    else go tid compressing s

-- `free_write_buffers.pop(write_task)`.
pub pop_free : ℕ → List WriteBuffer → State → State
unfolding go
pop_free tid [] s = go tid idle s
pop_free tid (b ∷ l) s = go tid (popped b) (record s { free_write_buffers = l })

pub give_back : ℕ → WriteBuffer → State → State
unfolding go
give_back tid b s = go tid idle (record s { free_write_buffers = s.free_write_buffers ++ (b ∷ []) })

-- `critical(queue)` behind a compression task.
pub put_task : ℕ → WriteBuffer → State → State
unfolding go push top_index
put_task tid b s =
    let queue = push b s.write_task_queue in
    go tid idle
      (record s { write_task_queue = queue; next_available_write_task_hc_index = top_index queue })

abbrev pub num_hcs_per_chunk : Profile → ℕ
num_hcs_per_chunk pr = 64 / pr.bytes

module _ (pr : Profile) (scratch : ℕ → Memory) (size : Extent) (values : Memory) where
  -- The body of the loop over the hypercubes of a chunk, on the cube, `task_stream_offset` and the
  -- buffer; `scratch k` is what the coder's local array holds at hypercube `k`.
  pub chunk_round : ℕ → Memory × ℕ × WriteBuffer → Memory × ℕ × WriteBuffer
  unfolding load_hypercube block_transform zero_bit_encode hc_size
  chunk_round hc_index (cube, task_stream_offset, b) =
      let hc_offset =
        mul_extent pr.dims
          (extent_from_linear_id pr.dims hc_index (div_extent pr.dims size pr.side)) pr.side in
      let cube' =
        block_transform (bits_of pr.bytes) pr.dims pr.side
          (load_hypercube pr.dims pr.side hc_offset size values cube) in
      let (n, stream) =
        zero_bit_encode pr.bytes (scratch hc_index) cube' (task_stream_offset * pr.bytes)
          (hc_size pr) b.stream in
      let offset = task_stream_offset + n / pr.bytes in
      (
        cube',
        offset,
        record b { stream = stream; offsets_after_hcs = b.offsets_after_hcs ++ (u32 offset ∷ []) },
      )

  -- The loop from `task_hc_index` on, with `num_hcs_per_chunk - task_hc_index` rounds left at most.
  pub chunk_loop : ℕ → ℕ → Memory × ℕ × WriteBuffer → Memory × ℕ × WriteBuffer
  unfolding chunk_round num_hypercubes
  chunk_loop zero hc_index t = t
  chunk_loop (suc left) hc_index t = elim (ltb hc_index (num_hypercubes pr size)) [
    | true ↦ chunk_loop left (suc hc_index) (chunk_round hc_index t)
    | false ↦ t
  ]

  -- The compression task of one chunk, in the thread's cube and its buffer.
  unfoldable pub compress_chunk : ℕ → Memory → WriteBuffer → Memory × WriteBuffer
  unfolding chunk_loop
  compress_chunk first_hc_index cube b =
      let cleared = record b { first_hc_index = first_hc_index; offsets_after_hcs = [] } in
      let (cube', offset, b') =
        chunk_loop (num_hcs_per_chunk pr) first_hc_index (cube, 0, cleared) in
      (cube', b')

  -- The next action of a thread at a place.
  pub act : ℕ → Worker → State → State
  unfolding go take_task pop_free give_back put_task compress_chunk set_offset_after memcpy
      hypercube num_hypercubes length back get_elem
  act tid idle s =
      if ltb s.next_hc_index_to_write (num_hypercubes pr size)
      then go tid entered s
      else go tid finished s
  act tid entered s = go tid (loaded s.next_available_write_task_hc_index) s
  act tid (loaded available) s =
      if available == s.next_hc_index_to_write then go tid at_queue s else go tid compressing s
  act tid at_queue s = take_task tid s.write_task_queue s
  act tid (writing b task_stream_offset task_hc_index) s =
      if ltb task_hc_index (buffer_hypercubes b)
      then go tid (writing b task_stream_offset (suc task_hc_index)) (record s {
        stream =
            set_offset_after (b.first_hc_index + task_hc_index)
              (u32 (task_stream_offset + get_elem b.offsets_after_hcs task_hc_index)) s.stream;
      })
      else go tid (copied b) (record s {
        stream =
            memcpy (hypercube pr.bytes (num_hypercubes pr size) s.stream b.first_hc_index) b.stream
              (compressed_size b * pr.bytes) s.stream;
      })
  act tid (copied b) s = give_back tid b s
  act tid compressing s = pop_free tid s.free_write_buffers s
  act tid (popped b) s =
      go tid (claimed b s.next_hc_index_to_read)
        (record s { next_hc_index_to_read = s.next_hc_index_to_read + num_hcs_per_chunk pr })
  act tid (claimed b first_hc_index) s =
      let (cube, b') = compress_chunk first_hc_index (s.cubes tid) b in
      if ltb first_hc_index (num_hypercubes pr size)
      then go tid (filled b') (record s { cubes = λ t. if t == tid then cube else s.cubes t })
      else give_back tid b s
  act tid (filled b) s = put_task tid b s
  act tid finished s = s

  -- The threads of a schedule act one after the other.
  unfoldable pub run : List ℕ → State → State
  unfolding act
  run [] s = s
  run (tid ∷ l) s = run l (act tid (s.workers tid) s)

  -- `compress` with the schedule of its threads: nothing if `raw_stream` is not aligned, else the
  -- number of bytes and the stream.
  unfoldable pub compress_scheduled : ℕ → List ℕ → State → Option (ℕ × Memory)
  unfolding run border num_hypercubes pack_border
  compress_scheduled raw_stream schedule s =
      let stream = (run schedule s).stream in
      let end = border pr.bytes (num_hypercubes pr size) stream in
      let (packed, border_bytes) = pack_border pr.bytes end pr.dims size pr.side values stream in
      if ltb 0 (raw_stream % pr.bytes)
      then none
      else some (end / pr.bytes * pr.bytes + border_bytes, packed)
