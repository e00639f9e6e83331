-- ===== src/Lib.antt =====
-- A model of ndzip, a compressor for grids of floating point numbers, with theorems about it.
--
-- A grid is divided into hypercubes of 4096 cells. The CPU encoder (src/ndzip/cpu_encoder.inl)
-- loads each hypercube as unsigned words, decorrelates it by the block transform
-- (src/ndzip/common.hh), and writes it with the residual coder, which transposes chunks of words as
-- bit matrices and leaves out the words of the transpose that are 0. Decompression runs the inverse
-- of each stage.
--
-- Base holds the Boolean tests, arithmetic, bits of numbers, and the counted loop `for_up`, which
-- runs on fuel: a `for` loop that adds a positive step needs at most as many rounds as its limit.
-- Word has the unsigned types of `w` bits, as natural numbers below `2 ^ w` with each wrap-around
-- written out: `bits_of`, the shifts, `rotate_left_1`, `rotate_right_1` and `complement_negative`
-- of src/ndzip/common.hh. A Memory is an array behind a pointer, a function from indices to words,
-- and what an operation leaves alone is stated where it matters. An uninitialised local array is a
-- parameter.
--
-- Extent models include/ndzip/array.hh (the operators of `extent`, `num_elements`, `linear_offset`,
-- `linear_index`) and `extent_from_linear_id` of src/ndzip/common.hh; an extent is a function from
-- the number of the component, of which the first `dims` exist. Bytes models `load_aligned` and
-- `store_aligned` on bytes, on a little-endian machine. Grid models `profile`, `file` and
-- `iter_hypercubes`; the loop of one dimension has fuel for one round more than the side of the
-- grid has cells. Transform models `ipow`, `block_transform`, `inverse_block_transform` and their
-- steps; `ipow` halves its exponent, and has fuel for one round more than the exponent. ZeroBit
-- models the portable path of the residual coder: `generate_zero_map`, `transpose_bits_trivial`,
-- `compact_zero_words`, `expand_zero_words`, `zero_bit_encode` and `zero_bit_decode`. Indices
-- within one hypercube, positions in byte buffers and the type `size_t` are natural numbers without
-- a bound. Tests runs the definitions on small inputs.
--
-- Border models `for_each_border_slice`, `pack_border`, `unpack_border` and `border_element_count`
-- of src/ndzip/common.hh; the recursion over the dimensions counts down to the last one with a
-- border. Hypercube models `for_each_hypercube_slice`, `load_hypercube` and `store_hypercube`,
-- where a float and its bits are the same word. Stream models `stream`, the header of offsets
-- before the hypercubes, as bytes. Encoder composes all parts to `cpu_encoder::compress` and
-- `cpu_encoder::decompress`, which return nothing where the code throws because the stream is not
-- aligned. Bound is `compressed_size_bound` of src/ndzip/common.cc. Io models the streams of
-- io/io.cc on an open file; a file that is read has a length and may fail from some byte on, and
-- the client of an output stream writes a chunk between get_write_buffer and commit_chunk. Which
-- calls of fwrite, ftruncate, mmap and munmap fail is a parameter, the record Io.Output.Os; each
-- such failure is an io_error as in the code, and an assert that does not hold is the outcome
-- `aborted`. Theorems about runs without errors have the hypothesis Io.Output.Works, that no such
-- call fails.
--
-- Avx2 models the block transform of src/ndzip/cpu_encoder.inl with AVX2, `block_transform_avx2`
-- and `inverse_block_transform_avx2`: a register is the function from its lanes to words, and an
-- intrinsic acts on each lane. Avx2.Transpose models `transpose_bits_avx2` at both widths, with a
-- register as the function from its bytes to their values, and the loops over arrays of registers
-- as functions of the index.
--
-- MtEncoder models `mt_cpu_encoder::compress`: a thread is a state machine whose steps are the
-- atomic loads and updates outside the critical sections, each critical section, each push to and
-- pop from the free buffers, the compression of a chunk, and each entry of the header and the copy
-- of a task, and a schedule is a sequence of thread numbers, so a theorem about every schedule is
-- one about every interleaving of these steps. The atomic operations are taken as sequentially
-- consistent, though the code asks for relaxed ones. A write buffer has a number, its place in
-- `write_buffers`, which a pointer to it stands for. The queue of tasks is a sorted list, the free
-- buffers are a list, and `thread_cubes`, the buffers and the stream hold whatever they held
-- before. MtDecoder models `mt_cpu_encoder::decompress`, whose parallel loop visits the hypercubes
-- in the order of a schedule.
--
-- Tool models the loops of `compress_stream` and `decompress_stream` of compress/compress.cc over
-- the chunks of a file, on streams that are an interface, and on the mapped files of Io. Both loops
-- run on fuel, one round for each chunk and one for the end of the file. The asserts of the two
-- loops stop the program. Tool.Codec is the interface that these loops need of an encoder, as a
-- record of operations and of laws for chunks of bytes. Tool.Encoding fills it with the CPU encoder
-- of Encoder: a chunk of bytes is an array of elements, and the addresses of the streams, which
-- matter only for their alignment, are the same for every chunk. Tool.Lossless has the tool with
-- this encoder.
--
-- Gpu models the layouts of a hypercube in the local memory of a GPU, `hypercube_layout::pad` of
-- src/ndzip/gpu_common.hh, with `load` and `store` of `hypercube_ptr`; a memory has one word for
-- each bank of 32 bits. Gpu.Scan models the scans of src/ndzip/cuda_bits.cuh: a value that each
-- thread of a warp has is a function of the lane, and what a block does between two barriers is a
-- function of the item, for code in which no item reads what another one writes. The loop of a warp
-- has fuel for its five rounds and the last test, the levels of `inclusive_scan` and of the buffers
-- have fuel for one level for each item.
--
-- Gpu.Lanes, Gpu.Hypercubes and Gpu.Inverse model the CUDA kernels' work on one hypercube in local
-- memory (ndzip/cuda_encoder.inl, with the accessors of ndzip/gpu_common.hh). HypercubePtr is the
-- interface of `hypercube_ptr`, a record of `load`, `store` and their law; Gpu.Pointers has it for
-- the padded layouts and for the linear one. The lanes of one direction are taken one after
-- another: between two barriers each lane reads and writes its own cells, and the carries are read
-- before the barrier that separates them from the writes. Indices in local memory are natural
-- numbers, and the index in the grid has its wrap-around at 32 bits. Gpu.BorderMap models
-- `border_map` and the kernels `compact_border` and `expand_border`, whose threads are taken in the
-- order of their numbers, each with an element of its own; the offset of the border in the stream
-- is an argument.
--
-- Not modelled: the choice between the AVX2 and the portable routines by the preprocessor, of the
-- CUDA encoder the transposed chunks and their compaction, and the device memory, the SYCL encoder,
-- opening and closing of files, the options and messages of the compress tool, and the benchmarks
-- and tests. The libraries under contrib are copies of other projects.
pub mod Base
pub mod Word
pub mod Memory
pub mod Extent
pub mod Bytes
pub mod Grid
pub mod Transform
pub mod ZeroBit
pub mod Border
pub mod Stream
pub mod Hypercube
pub mod Encoder
pub mod Avx2
pub mod MtEncoder
pub mod MtDecoder
pub mod Io
pub mod Tool
pub mod Gpu
pub mod Bound
pub mod Tests
