-- ===== src/Tool/Files.antt =====
-- compress/compress.cc: `compress_stream` from a mapped file to a mapped file.
use ndzip.Base.{
  ℕ, zero, suc, ◌+◌, ◌-◌, ◌*◌, ◌≤◌, ◌<◌, ◌≡◌, ap, ◌∙◌, arith, min, Bool-cases, inl, inr, ◌≢◌,
  Option, none, some, eq→==, ne→==, Bool, le→leb, if◌then◌else◌,
}
use ndzip.Memory.{Memory}
use ndzip.Io.{
  Outcome, returned, io_error, aborted, ◌>>=◌, MmapInput, exact_chunk, mmap_read_exact,
  mmap_read_some,
}
use ndzip.Io.Output.{Os, Works, MmapOutput}
use ndzip.Io.Output.Working.{mmap_opened, mmap_committed}
use ndzip.Tool.{Totals, compress_loop, compress_stream}
use ndzip.Tool.Mapped.{mmap_exact, mmap_streams, mmap_client, mmap_produce, mmap_produce-eq}
use ndzip.Tool.Compress.{
  client, counted, compress_loop_end, compress_loop_error, compress_loop_chunk,
}

abbrev pub next : MmapInput → MmapInput
next s = record {
  max_chunk_size = s.max_chunk_size;
  map = s.map;
  size = s.size;
  offset = min s.size (s.offset - 0 + s.max_chunk_size);
}

abbrev pub chunk_of : MmapInput → Memory
chunk_of s a = s.map (s.offset - 0 + a)

-- What `read_exact` makes of the pointer.
abbrev pointed : MmapInput → Outcome (Option ℕ) → Outcome (Option Memory × MmapInput)
pointed s chunk = chunk >>= λ chunk. elim chunk [
  | none ↦ returned (none, next s)
  | some address ↦ returned (some (λ a. s.map (address + a)), next s)
]

module _ {A : Type 0} (chunk_size n : ℕ) (chunk : A) where
  exact_chunk_whole : n ≡ chunk_size → exact_chunk chunk_size n chunk ≡ returned (some chunk)
  unfolding exact_chunk
  exact_chunk_whole e = rw (eq→== n chunk_size e, exact_chunk)

  exact_chunk_end : n ≢ chunk_size → n ≡ 0 → exact_chunk chunk_size n chunk ≡ returned none
  unfolding exact_chunk
  exact_chunk_end ne e = rw (ne→== n chunk_size ne, eq→== n 0 e, exact_chunk)

  exact_chunk_rest : n ≢ chunk_size → n ≢ 0 → exact_chunk chunk_size n chunk ≡ io_error
  unfolding exact_chunk
  exact_chunk_rest ne e = rw (ne→== n chunk_size ne, ne→== n 0 e, exact_chunk)

module _ (s : MmapInput) where
  abbrev bytes_read : ℕ
  bytes_read = min s.max_chunk_size (s.size - (s.offset - 0))

  exact-chunk :
      s.offset + s.max_chunk_size ≤ s.size → mmap_exact s ≡ returned (some (chunk_of s), next s)
  unfolding mmap_exact mmap_read_exact mmap_read_some
  exact-chunk h =
      ap (pointed s) (exact_chunk_whole s.max_chunk_size bytes_read (s.offset - 0) (grind arith))

  pub exact-end : s.offset ≡ s.size → 0 < s.max_chunk_size → mmap_exact s ≡ returned (none, next s)
  unfolding mmap_exact mmap_read_exact mmap_read_some
  exact-end h hL =
      ap (pointed s)
        (exact_chunk_end s.max_chunk_size bytes_read (s.offset - 0) (grind arith) (grind arith))

  exact-rest : s.offset < s.size → s.size < s.offset + s.max_chunk_size → mmap_exact s ≡ io_error
  unfolding mmap_exact mmap_read_exact mmap_read_some
  exact-rest h hL =
      ap (pointed s)
        (exact_chunk_rest s.max_chunk_size bytes_read (s.offset - 0) (grind arith) (grind arith))

-- The write buffer, what the encoder makes of it, and the stream with the chunk committed.
module _ (compress : Memory → Memory → ℕ × Memory) (chunk : Memory) (out_stream : MmapOutput) where
  abbrev pub opened : MmapOutput
  opened = mmap_opened out_stream

  abbrev pub encoded : ℕ × Memory
  encoded = compress chunk (λ a. opened.file.contents (opened.size + a))

  abbrev pub committed : MmapOutput
  committed = mmap_committed encoded.0 (mmap_client encoded.1 opened)

  produced :
      (os : Os)
      → Works os
      → (max_length : ℕ) → encoded.0 ≤ max_length
      → mmap_produce os (client compress max_length chunk) out_stream
        ≡ returned (encoded.0, committed)
  produced os works max_length h =
      mmap_produce-eq os works (client compress max_length chunk) out_stream encoded.0 encoded.0
        encoded.1
        (ap (λ (b : Bool). if b then returned (encoded.0, encoded.0, encoded.1) else aborted)
          (le→leb encoded.0 max_length h))

  opened-size : opened.size ≡ out_stream.size
  unfolding mmap_opened
  opened-size = elim (Bool-cases out_stream.mapped) [
    | inl e ↦ rw (e, mmap_opened)
    | inr e ↦ rw (e, mmap_opened)
  ]

  committed-size : committed.size ≡ out_stream.size + encoded.0
  unfolding mmap_committed
  committed-size = ap (λ (n : ℕ). n + encoded.0) opened-size

module _ (compress : Memory → Memory → ℕ × Memory) where
  -- The state after one whole chunk.
  abbrev pub moved : MmapInput → Totals MmapOutput → Totals MmapOutput
  moved s t =
      counted t (encoded compress (chunk_of s) t.out_stream).0
        (committed compress (chunk_of s) t.out_stream)

module _ (os : Os) (works : Works os) (compress : Memory → Memory → ℕ × Memory) (max_length : ℕ)
    (bound : (chunk buffer : Memory) → (compress chunk buffer).0 ≤ max_length) where
  pub round :
      (fuel : ℕ) (s : MmapInput) (t : Totals MmapOutput)
      → s.offset + s.max_chunk_size ≤ s.size
      → compress_loop (mmap_streams os) compress max_length (suc fuel) s t
        ≡ compress_loop (mmap_streams os) compress max_length fuel (next s) (moved compress s t)
  unfolding mmap_streams
  round fuel s t h =
      compress_loop_chunk (mmap_streams os) compress max_length fuel s t (chunk_of s) (next s)
        (encoded compress (chunk_of s) t.out_stream).0
        (committed compress (chunk_of s) t.out_stream) (exact-chunk s h)
        (produced compress (chunk_of s) t.out_stream os works max_length (bound (chunk_of s) _))

  loop_whole :
      (k fuel : ℕ) (s : MmapInput) (t : Totals MmapOutput)
      → 0 < s.max_chunk_size
      → s.offset + k * s.max_chunk_size ≡ s.size
      → k < fuel
      → t.out_stream.size ≡ t.compressed_length
      → (t' : Totals MmapOutput) × (compress_loop (mmap_streams os) compress max_length fuel s t
          ≡ some (returned t'))
        × (t'.n_chunks ≡ t.n_chunks + k)
        × (t'.out_stream.size ≡ t'.compressed_length)
  unfolding mmap_streams
  loop_whole k zero s t hL h hf same = absurd (let no : ⊥ = omega arith in no)
  loop_whole zero (suc fuel) s t hL h hf same = (
    t,
    compress_loop_end (mmap_streams os) compress max_length fuel s t (next s)
        (exact-end s (omega arith) hL),
    omega arith,
    same,
  )
  loop_whole (suc k) (suc fuel) s t hL h hf same =
      let fits : s.offset + s.max_chunk_size ≤ s.size = grind arith in
      let (t', e, n, z) =
        loop_whole k fuel (next s) (moved compress s t) hL (grind arith) (omega arith) (
          committed-size compress (chunk_of s) t.out_stream
          ∙ ap (λ (n : ℕ). n + (encoded compress (chunk_of s) t.out_stream).0) same) in
      (
        t',
        round fuel s t fits ∙ e,
        n ∙ (let c : t.n_chunks + 1 + k ≡ t.n_chunks + suc k = omega arith in c),
        z,
      )

  loop_rest :
      (k fuel rest : ℕ) (s : MmapInput) (t : Totals MmapOutput)
      → 0 < rest
      → rest < s.max_chunk_size
      → s.offset + (k * s.max_chunk_size + rest) ≡ s.size
      → k < fuel
      → compress_loop (mmap_streams os) compress max_length fuel s t ≡ some io_error
  unfolding mmap_streams
  loop_rest k zero rest s t h0 hr h hf = absurd (let no : ⊥ = omega arith in no)
  loop_rest zero (suc fuel) rest s t h0 hr h hf =
      compress_loop_error (mmap_streams os) compress max_length fuel s t
        (exact-rest s (omega arith) (omega arith))
  loop_rest (suc k) (suc fuel) rest s t h0 hr h hf =
      let fits : s.offset + s.max_chunk_size ≤ s.size = grind arith in
      round fuel s t fits
      ∙ loop_rest k fuel rest (next s) (moved compress s t) h0 hr (grind arith) (omega arith)

module _ (os : Os) (works : Works os) (compress : Memory → Memory → ℕ × Memory) (max_length : ℕ)
    (bound : (chunk buffer : Memory) → (compress chunk buffer).0 ≤ max_length)
    (in_stream : MmapInput) (out_stream : MmapOutput) (k fuel : ℕ) (start : in_stream.offset ≡ 0)
    (enough : k < fuel) where
  abbrev begun : Totals MmapOutput
  begun = record { out_stream = out_stream; compressed_length = 0; n_chunks = 0 }

  -- When no call of the operating system fails, for every encoder whose compressed chunks keep the
  -- bound of the assert, an input file of `k` chunks of at least one byte, read from its start, and
  -- an empty output: with fuel for more than `k` rounds the loop ends without an error after `k`
  -- chunks, and the compressed length is the length of the output.
  pub compress_stream_whole :
      0 < in_stream.max_chunk_size
      → k * in_stream.max_chunk_size ≡ in_stream.size
      → out_stream.size ≡ 0
      → (t : Totals MmapOutput) × (compress_stream
            (mmap_streams os)
            compress
            max_length
            fuel
            in_stream
            out_stream
          ≡ some (returned t))
        × (t.n_chunks ≡ k)
        × (t.out_stream.size ≡ t.compressed_length)
  unfolding compress_stream
  compress_stream_whole hL whole empty =
      let (t, e, n, z) =
        loop_whole os works compress max_length bound k fuel in_stream begun hL (omega arith) enough
          empty in
      (t, e, omega arith, z)

  -- When no call of the operating system fails, for every encoder whose compressed chunks keep the
  -- bound of the assert, and an input file that has some bytes more than `k` chunks, but less than
  -- one more, read from its start: with fuel for more than `k` rounds the loop ends with an
  -- `io_error`.
  pub compress_stream_rest :
      (rest : ℕ)
      → 0 < rest
      → rest < in_stream.max_chunk_size
      → k * in_stream.max_chunk_size + rest ≡ in_stream.size
      → compress_stream (mmap_streams os) compress max_length fuel in_stream out_stream
        ≡ some io_error
  unfolding compress_stream
  compress_stream_rest rest h0 hr part =
      loop_rest os works compress max_length bound k fuel rest in_stream begun h0 hr (omega arith)
        enough
