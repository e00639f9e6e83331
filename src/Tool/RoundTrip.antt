-- ===== src/Tool/RoundTrip.antt =====
-- compress/compress.cc: `decompress_stream` restores the file that `compress_stream` read.
use ndzip.Base.{ℕ, zero, suc, ◌+◌, ◌-◌, ◌*◌, ◌≤◌, ◌<◌, ◌≡◌, refl, ap, subst, sym, ◌∙◌, arith, some}
use native.Mathlib.Decide.{dec_lt}
use ndzip.Io.{returned, MmapInput}
use ndzip.Io.Output.{Os, Works, MmapOutput}
use ndzip.Tool.{Totals, compress_stream, decompress_loop, decompress_stream}
use ndzip.Tool.Mapped.{mmap_streams}
use ndzip.Tool.Decompress.{decompress_loop_end}
use ndzip.Tool.Files.{next}
use ndzip.Tool.Codec.{Codec, AreBytes}
use ndzip.Tool.Committed.{IsClosed}
use ndzip.Tool.Written.{Chunks, loop_written}
use ndzip.Tool.Restoring.{
  later, rest_of, bytes_of, some-read, restored, n, decoded-chunk, step, later-offset, later-le,
  restored-IsClosed, restored-size, restored-max, restored_before, restored_chunk,
}

module _ {L bound : ℕ} (c : Codec L bound) where
  -- The input of the compressor from its offset on, `k` chunks of it, behind what the output has.
  abbrev Restored : ℕ → MmapInput → MmapOutput → MmapOutput → Type 0
  Restored k s o o' =
      IsClosed o'
      × ((a : ℕ) → a < o.size → o'.file.contents a ≡ o.file.contents a)
      × (o'.size ≡ o.size + k * L)
      × ((i : ℕ) → i < k * L → o'.file.contents (o.size + i) ≡ s.map (s.offset + i))

  Restored-suc :
      (k left : ℕ) (s z : MmapInput) (o o' : MmapOutput)
      → (are : AreBytes s.map) → (hl : left ≤ z.offset) → (hz : z.max_chunk_size ≡ bound)
      → (holds : Chunks c (suc k) s z.map (z.offset - left) z.size) → IsClosed o
      → o.max_chunk_size ≡ L
      → s.max_chunk_size ≡ L
      → s.offset + suc k * L ≤ s.size
      → Restored k (next s) (restored c left z o) o'
      → Restored (suc k) s o o'
  Restored-suc k left s z o o' are hl hz holds closed max hL room (closed', before, size, bytes) =
      let grown = restored-size c left z o closed max in
      let moved : (next s).offset ≡ s.offset + L = grind arith in
      (
        closed',
        (λ a ha. before a (omega arith) ∙ restored_before c left z o closed max a ha),
        (grind arith),
        (λ i hi. elim (dec_lt i L) [
          | yes front ↦
              before (o.size + i) (omega arith)
              ∙ restored_chunk c left z o closed max i front
              ∙ decoded-chunk c k left s z o are hl hz holds i front
              ∙ ap s.map (let e : s.offset - 0 + i ≡ s.offset + i = omega arith in e)
          | no ge ↦
              ap o'.file.contents
                (let e : o.size + i ≡ (restored c left z o).size + (i - L) = omega arith in e)
              ∙ bytes (i - L) (grind arith)
              ∙ ap s.map (let e : (next s).offset + (i - L) ≡ s.offset + i = omega arith in e)
        ]),
      )

  loop-Restored :
      (os : Os)
      → Works os
      → (k fuel left : ℕ) (s z : MmapInput) (o : MmapOutput) → k < fuel
      → AreBytes s.map
      → left ≤ z.offset
      → z.max_chunk_size ≡ bound
      → Chunks c k s z.map (z.offset - left) z.size
      → IsClosed o
      → o.max_chunk_size ≡ L
      → s.max_chunk_size ≡ L
      → s.offset + k * L ≤ s.size
      → (o' : MmapOutput) × (decompress_loop (mmap_streams os) c.decompress L fuel left z o
          ≡ some (returned o'))
        × Restored k s o o'
  unfolding mmap_streams
  loop-Restored os works k zero left s z o hf are hl hz holds closed max hL room =
      absurd (let no : ⊥ = omega arith in no)
  loop-Restored os works zero (suc fuel) left s z o hf are hl hz holds closed max hL room = (
    o,
    decompress_loop_end (mmap_streams os) c.decompress L fuel left z o (rest_of left z)
        (bytes_of left z) (later left z) (some-read left z) (grind arith),
    (closed, (λ a ha. refl), omega arith, (λ i hi. absurd (let no : ⊥ = omega arith in no))),
  )
  loop-Restored os works (suc k) (suc fuel) left s z o hf are hl hz holds closed max hL room =
      let (o', e, r) =
        loop-Restored os works k fuel (bytes_of left z - n c k left s z o are hl hz holds) (next s)
          (later left z) (restored c left z o) (omega arith) are
          (later-le c k left s z o are hl hz holds) hz
          (subst (λ (p : ℕ). Chunks c k (next s) z.map p z.size)
            (sym (later-offset c k left s z o are hl hz holds)) holds.2)
          (restored-IsClosed c left z o closed max) (restored-max c left z o closed max) hL
          (grind arith) in
      (
        o',
        step c k left s z o are hl hz holds os works fuel ∙ e,
        Restored-suc k left s z o o' are hl hz holds closed max hL room r,
      )

-- A file that was written, opened for reading.
abbrev pub reopened : ℕ → MmapOutput → MmapInput
reopened bound o = record {
  max_chunk_size = bound;
  map = o.file.contents;
  size = o.file.length;
  offset = 0;
}

-- When no call of the operating system fails, for an encoder that restores its chunks, an input
-- file of `k` chunks of bytes, read from its start, and two empty outputs with buffers for a
-- compressed chunk and for a chunk: with fuel for more than `k` rounds, compress_stream ends
-- without an error, decompress_stream on the file it wrote does so too, and the file that
-- decompress_stream writes has the length and the bytes of the input.
pub decompress_stream-compress_stream :
    (os : Os) (works : Works os) {L bound : ℕ} (c : Codec L bound) (k fuel : ℕ)
    (in_stream : MmapInput) (compressed target : MmapOutput)
    → AreBytes in_stream.map
    → k < fuel
    → 0 < L
    → in_stream.max_chunk_size ≡ L
    → in_stream.offset ≡ 0
    → k * L ≡ in_stream.size
    → IsClosed compressed
    → compressed.max_chunk_size ≡ bound
    → compressed.size ≡ 0
    → IsClosed target
    → target.max_chunk_size ≡ L
    → target.size ≡ 0
    → (t : Totals MmapOutput) × (compress_stream
          (mmap_streams os)
          c.compress
          bound
          fuel
          in_stream
          compressed
        ≡ some (returned t))
      × (o : MmapOutput) × (decompress_stream
            (mmap_streams os)
            c.decompress
            L
            fuel
            (reopened bound t.out_stream)
            target
          ≡ some (returned o))
      × (o.file.length ≡ in_stream.size)
      × ((a : ℕ) → a < in_stream.size → o.file.contents a ≡ in_stream.map a)
unfolding compress_stream decompress_stream
decompress_stream-compress_stream os works {bound = bound} c k fuel s compressed target are hf h0 hL
      start whole closed max empty closed' max' empty' =
    let (t, e, tc, kept, chunks) =
      loop_written c os works k fuel s
        (record { out_stream = compressed; compressed_length = 0; n_chunks = 0 }) (omega arith)
        (subst (λ (l : ℕ). s.offset + k * l ≡ s.size) (sym hL) (omega arith)) hf closed max in
    let z = reopened bound t.out_stream in
    let holds : Chunks c k s z.map 0 z.size =
      subst (λ (q : ℕ). Chunks c k s z.map 0 q) tc.1
        (subst (λ (p : ℕ). Chunks c k s z.map p t.out_stream.size) empty chunks) in
    let (o, d, (oc, before, size, bytes)) =
      loop-Restored c os works k fuel 0 s z target hf are (omega arith) refl holds closed' max' hL
        (omega arith) in
    (
      t,
      e,
      o,
      d,
      sym oc.1 ∙ (let l : o.size ≡ s.size = omega arith in l),
      (λ a ha.
          ap o.file.contents (let l : a ≡ target.size + a = omega arith in l)
          ∙ bytes a (omega arith)
          ∙ ap s.map (let l : s.offset + a ≡ a = omega arith in l)),
    )
