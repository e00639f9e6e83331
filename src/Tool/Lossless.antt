-- ===== src/Tool/Lossless.antt =====
-- compress/compress.cc with the CPU encoder: the tool restores the files that it compresses.
use ndzip.Base.{ℕ, ◌+◌, ◌*◌, ◌%◌, ◌^◌, ◌≤◌, ◌<◌, ◌≡◌, some}
use ndzip.Word.{bits_of}
use ndzip.Memory.{Memory}
use ndzip.Extent.{Extent}
use ndzip.Extent.Laws.{volume}
use ndzip.Grid.{Profile, num_hypercubes}
use ndzip.Border.Slices.{border_slices}
use ndzip.Border.RoundTrip.{total}
use ndzip.Stream.{base_byte_offset}
use ndzip.Io.{returned, MmapInput}
use ndzip.Io.Output.{Os, Works, MmapOutput}
use ndzip.Tool.{Totals, compress_stream, decompress_stream}
use ndzip.Tool.Mapped.{mmap_streams}
use ndzip.Tool.Codec.{AreBytes}
use ndzip.Tool.Committed.{IsClosed}
use ndzip.Tool.Encoding.{chunk_length, cpu_compress, cpu_decompress, cpu_codec}
use ndzip.Tool.RoundTrip.{reopened, decompress_stream-compress_stream}

module _ (pr : Profile) (size : Extent) (chunks : ℕ) (hb : 0 < pr.bytes) (hs : 0 < pr.side)
    (lo : 0 < pr.dims) (hi : pr.dims ≤ 3) (whole : pr.side ^ pr.dims ≡ chunks * bits_of pr.bytes)
    (small : pr.side ^ pr.dims < 2 ^ 32) (room : (d : ℕ) → d < pr.dims → size d + pr.side < 2 ^ 32)
    (cells : volume size pr.dims < 2 ^ 32) (header : num_hypercubes pr size * 4 + pr.bytes < 2 ^ 32)
    (fits : num_hypercubes pr size * (chunks * (bits_of pr.bytes + 1)) < 2 ^ 32)
    (scratch : ℕ → Memory) (cube : Memory) (raw_stream : ℕ)
    (aligned : raw_stream % pr.bytes ≡ 0) where
  -- For one to three dimensions, a side and a type that are not empty, hypercubes of fewer than
  -- `2 ^ 32` cells and a whole number of chunks of the coder, extents that leave room for one more
  -- side below `2 ^ 32`, arrays of at least one hypercube and fewer than `2 ^ 32` elements, a
  -- header and hypercubes that stay below `2 ^ 32` bytes and words, streams at aligned addresses,
  -- and a bound that leaves room for the header, the hypercubes at their largest and the border:
  -- when no call of the operating system fails, for an input file of `k` arrays of bytes, read from
  -- its start, and two empty outputs with buffers for the bound and for an array, with fuel for
  -- more than `k` rounds, compress_stream with the CPU encoder's `compress` ends without an error,
  -- decompress_stream with its `decompress` on the file that was written does so too, and the file
  -- that decompress_stream writes has the length and the bytes of the input.
  pub decompress_stream-compress_stream_cpu :
      (cubes : 0 < num_hypercubes pr size) (bound : ℕ)
      (enough : base_byte_offset pr.bytes (num_hypercubes pr size)
          + num_hypercubes pr size * (chunks * (bits_of pr.bytes + 1)) * pr.bytes
          + total (border_slices pr.dims size pr.side) * pr.bytes
        ≤ bound)
      (os : Os) (works : Works os) (k fuel : ℕ) (in_stream : MmapInput)
      (compressed target : MmapOutput)
      → AreBytes in_stream.map
      → k < fuel
      → 0 < chunk_length pr size
      → in_stream.max_chunk_size ≡ chunk_length pr size
      → in_stream.offset ≡ 0
      → k * chunk_length pr size ≡ in_stream.size
      → IsClosed compressed
      → compressed.max_chunk_size ≡ bound
      → compressed.size ≡ 0
      → IsClosed target
      → target.max_chunk_size ≡ chunk_length pr size
      → target.size ≡ 0
      → (t : Totals MmapOutput) × (compress_stream
            (mmap_streams os)
            (cpu_compress pr size scratch cube raw_stream)
            bound
            fuel
            in_stream
            compressed
          ≡ some (returned t))
        × (o : MmapOutput) × (decompress_stream
              (mmap_streams os)
              (cpu_decompress pr size scratch cube raw_stream)
              (chunk_length pr size)
              fuel
              (reopened bound t.out_stream)
              target
            ≡ some (returned o))
        × (o.file.length ≡ in_stream.size)
        × ((a : ℕ) → a < in_stream.size → o.file.contents a ≡ in_stream.map a)
  decompress_stream-compress_stream_cpu cubes bound enough os works =
      decompress_stream-compress_stream os works (
        cpu_codec pr size chunks hb hs lo hi whole small room cells header fits scratch cube
          raw_stream aligned cubes bound enough)
