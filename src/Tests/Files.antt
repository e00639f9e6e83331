-- ===== src/Tests/Files.antt =====
-- A file of two arrays of floats through the compress tool, and a small encoder in its loop.
use ndzip.Base.{ℕ, ◌*◌, ◌%◌, ◌<◌, ◌≡◌, refl, arith, ◌==◌, if◌then◌else◌, Option, none, some, false}
use ndzip.Memory.{Memory, update}
use ndzip.Extent.{linear_index, num_elements}
use ndzip.Border.{border_scan}
use ndzip.Grid.{profile, num_hypercubes}
use ndzip.Border.Slices.{border_slices}
use ndzip.Border.RoundTrip.{total}
use ndzip.Io.{Outcome, returned, io_error, aborted, MmapInput}
use ndzip.Io.Output.{MmapOutput}
use ndzip.Tool.{Totals, compress_stream, decompress_stream}
use ndzip.Tool.Mapped.{mmap_streams}
use ndzip.Tool.Encoding.{cpu_compress, cpu_decompress}
use ndzip.Tool.RoundTrip.{reopened}
use ndzip.Tool.Lossless.{decompress_stream-compress_stream_cpu}
use ndzip.Tests.Arrays.{scratch, grid, grid-room, noise}
use ndzip.Tests.Systems.{working, working-Works, full_at}

abbrev new_file : ℕ → MmapOutput
new_file max = record {
  file = record { contents = λ a. 0; length = 0 };
  max_chunk_size = max;
  size = 0;
  mapped = false;
}

-- Two arrays of 40 * 17 * 33 floats.
abbrev arrays : MmapInput
arrays = record { max_chunk_size = 89760; map = λ a. a * 77 % 256; size = 179520; offset = 0 }

border_elements : total (border_slices 3 grid 16) ≡ 6056
unfolding border_scan linear_index update num_elements
border_elements = refl

decompress_stream-compress_stream_cpu_example :
    (t : Totals MmapOutput) × (compress_stream
        (mmap_streams working)
        (cpu_compress (profile 4 3) grid scratch noise 64)
        91824
        3
        arrays
        (new_file 91824)
      ≡ some (returned t))
    × (o : MmapOutput) × (decompress_stream
          (mmap_streams working)
          (cpu_decompress (profile 4 3) grid scratch noise 64)
          89760
          3
          (reopened 91824 t.out_stream)
          (new_file 89760)
        ≡ some (returned o))
    × (o.file.length ≡ 179520)
    × ((a : ℕ) → a < 179520 → o.file.contents a ≡ arrays.map a)
unfolding profile num_hypercubes num_elements
decompress_stream-compress_stream_cpu_example =
    decompress_stream-compress_stream_cpu (profile 4 3) grid 128 (omega arith) (omega arith)
      (omega arith) (omega arith) (omega arith) (omega arith) grid-room (omega arith) (omega arith)
      (omega arith) scratch noise 64 (omega arith) (omega arith) 91824
      (omega (arith, border_elements)) working working-Works 2 3 arrays (new_file 91824)
      (new_file 89760) (λ a. omega arith) (omega arith) (omega arith) refl refl refl (refl, refl)
      refl refl (refl, refl) refl refl

-- An encoder for pairs of bytes, with one byte less for two that are equal.
abbrev pair_compress : Memory → Memory → ℕ × Memory
pair_compress chunk buffer =
    if chunk 0 == chunk 1
    then (2, λ i. if i == 0 then 1 else chunk 0)
    else (3, λ i. if i == 0 then 0 else if i == 1 then chunk 0 else chunk 1)

abbrev pairs_in : MmapInput
pairs_in = record {
  max_chunk_size = 2;
  map = λ a. if a == 3 then 2 else a % 256;
  size = 6;
  offset = 0;
}

-- The compressed length, and numbers for the other ends.
abbrev end_of : Option (Outcome (Totals MmapOutput)) → ℕ
end_of (some (returned t)) = t.compressed_length
end_of (some io_error) = 100
end_of (some aborted) = 200
end_of none = 300

-- The chunks 0 1, 2 2 and 4 5 take three, two and three bytes.
eight_bytes :
    end_of (compress_stream (mmap_streams working) pair_compress 3 4 pairs_in (new_file 3)) ≡ 8
unfolding compress_stream mmap_streams
eight_bytes = refl

-- A chunk over the bound stops the program, a full disk ends the loop with an error.
over_the_bound :
    end_of (compress_stream (mmap_streams working) pair_compress 2 4 pairs_in (new_file 3)) ≡ 200
unfolding compress_stream mmap_streams
over_the_bound = refl

full_disk :
    end_of (compress_stream (mmap_streams (full_at 5)) pair_compress 3 4 pairs_in (new_file 3))
    ≡ 100
unfolding compress_stream mmap_streams
full_disk = refl
