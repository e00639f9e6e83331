-- ===== src/Tool/Codec.antt =====
-- ndzip/ndzip.hh: what the compress tool needs of an encoder.
use ndzip.Base.{ℕ, ◌≤◌, ◌<◌, ◌≡◌}
use ndzip.Memory.{Memory}

abbrev pub AreBytes : Memory → Type 0
AreBytes chunk = (i : ℕ) → chunk i < 256

-- An encoder for chunks of `array_chunk_length` bytes. `compress` gives the compressed length, from 1
-- to `bound`, and the buffer. From a stream that begins with the compressed chunk, `decompress` gives
-- the compressed length, whatever follows, and a buffer with the chunk.
pub record Codec (array_chunk_length bound : ℕ) : Type 0 where
  pub compress : Memory → Memory → ℕ × Memory
  pub decompress : Memory → ℕ → Memory → ℕ × Memory
  pub compress_positive : (chunk buffer : Memory) → 0 < (compress chunk buffer).0
  pub compress_bound : (chunk buffer : Memory) → (compress chunk buffer).0 ≤ bound
  pub decompress_size :
      (chunk buffer stream target : Memory) (size : ℕ)
      → AreBytes chunk
      → (compress chunk buffer).0 ≤ size
      → ((i : ℕ) → i < (compress chunk buffer).0 → stream i ≡ (compress chunk buffer).1 i)
      → (decompress stream size target).0 ≡ (compress chunk buffer).0
  pub decompress_chunk :
      (chunk buffer stream target : Memory) (size : ℕ)
      → AreBytes chunk
      → (compress chunk buffer).0 ≤ size
      → ((i : ℕ) → i < (compress chunk buffer).0 → stream i ≡ (compress chunk buffer).1 i)
      → (i : ℕ) → i < array_chunk_length
      → (decompress stream size target).1 i ≡ chunk i
