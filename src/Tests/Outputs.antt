-- ===== src/Tests/Outputs.antt =====
-- Two bytes appended to a file of three.
use ndzip.Base.{ℕ, ◌+◌, ◌<◌, ◌≡◌, refl, arith, true, false}
use ndzip.Memory.{Memory}
use ndzip.Io.{returned, io_error}
use ndzip.Tests.Systems.{working, working-Works, full_at}
use ndzip.Io.Output.{OutFile, StdioOutput, MmapOutput, mmap_get_write_buffer}
use ndzip.Io.Output.Rounds.{stdio_round, mmap_round, stdio_output-eq-mmap_output}

abbrev bytes : Memory
bytes a = a + 100

abbrev chunk : Memory
chunk a = a + 7

abbrev begun : OutFile
begun = record { contents = bytes; length = 3 }

abbrev stdio : StdioOutput
stdio = record { file = begun; max_chunk_length = 4; buffer = bytes; should_zero_buffer = true }

abbrev mapped : MmapOutput
mapped = record { file = begun; max_chunk_size = 4; size = 3; mapped = false }

stdio_output-eq-mmap_output_example :
    (s' : StdioOutput) × (m' : MmapOutput) × (stdio_round working chunk 2 stdio ≡ returned s')
    × (mmap_round working chunk 2 mapped ≡ returned m')
    × (s'.file.length ≡ m'.file.length)
    × (m'.size ≡ m'.file.length)
    × (m'.mapped ≡ false)
    × ((a : ℕ) → a < m'.file.length → s'.file.contents a ≡ m'.file.contents a)
stdio_output-eq-mmap_output_example =
    stdio_output-eq-mmap_output working working-Works stdio mapped chunk 2 (omega arith)
      (omega arith) (omega arith) refl refl refl (λ a h. refl)

no_space : mmap_round (full_at 5) chunk 2 mapped ≡ io_error
unfolding mmap_get_write_buffer
no_space = refl
