-- ===== src/Lib.antt =====
-- The integer inference engine of a vision transformer on a RISC-V core with a matrix accelerator:
-- src/sw/project. The engine computes in fixed point; a tensor's scale is an exact pair (m, sh)
-- that stands for m 2^-sh. An operator's operands lie in an arena, its weights in a blob whose
-- directory is searched by name, its products are made in software or by the accelerator, and
-- while the accelerator works the core makes the next operand part by part.
--
--   Base        numbers, signed integers and machine words, lists, counted loops
--   Xf          src/sw/project/dav2_xf.h: scales, their normalisation and arithmetic
--   Fixed       src/sw/project/dav2_ops.c: apply_multiplier and the other fixed-point helpers
--   Arena       src/sw/project/dav2_ops.c: dav2_arena_* and dav2_tensor_new
--   Copy        src/sw/project/dav2_ops.c: dav2_copy16 and dav2_zero16
--   Columns     src/sw/project/dav2_ops.c: the loop qgemm_colext, the extremes of a product's columns
--   Exps        src/sw/project/dav2_ops.c: qgemm_exps and its cache
--   Gemm        src/sw/project/dav2_ops.c: dav2_qgemm_cpu
--   Blob        src/sw/project/dav2_blob.c: the search of the directory
--   Producer    src/sw/project/dav2_ops.c: dav2_producer_* and dav2_background_*
--   Relu        src/sw/project/dav2_ops.c: dav2_relu and dav2_copy_relu
--   Add         src/sw/project/dav2_ops.c: add_params, add_range, dav2_add and the sum in parts
--   RowStats    src/sw/project/dav2_ops.c: row_stats
--   Attention   src/sw/project/dav2_engine.c: attn_softmax and its table, the operands of a head's
--               products as int8 halves and as int16, the products on the CPU, and the column
--               sums of the exponentials (attn_softmax_accel_sums)
--   Emulator    src/sw/project/host/accel_emu.c: the register-level model of the accelerator, with
--               Decode and Latch (latch), Tile (a_elem_mem, a_snapshot), Rows (gemm_row), Requant
--               (requant_all), LayerNorm (ln_phase_a, ln_phase_b) and Step (step, dav2_emu_reg)
--   Accel       src/sw/project/dav2_accel.c: the driver, over Emulator, with Wait (probing, waits,
--               deferred jobs), Run (accel_run), Qgemm and Gemm16 (products), Rows, Requant and
--               RowJobs (requantisation), Special (interpolation, LayerNorm), Image and Conv
--               (dav2_accel_conv), and Calls (sequences of calls)
--
-- A function keeps its name without the prefixes dav2_ and xf_. Static variables are the fields of
-- a record that an operation takes and returns. Signed values are integers; a cast or an unsigned
-- operation wraps around as in C, and a signed sum that C leaves undefined on overflow is exact,
-- but for the short forms of add_range, which wrap around. Fuel stands for loops on a counter, and
-- is the number of rounds: n / 2 words in copy16, K in the inner product, N tiles in qgemm_cpu,
-- n_tensors in the search, a round for each pixel that is missing and one more for a producer, N
-- tiles, M chunks and k k positions in the driver, C / 2 words in row_stats. The loops that count
-- bits of a 32-bit word (q_shift, drop_bits) have 32 rounds, after which the word is 0. A wait of
-- the driver has as many rounds as its environment says, and is `none` when they are spent.
-- Fixed.Saturate and Emulator.Round join the engine and the accelerator: both round by the same
-- 64-bit definition. Gemm has the inner loops of the product twice, on exact integers and on int32_t
-- with `none` for an overflow (checked_row_dot).
--
-- Parameters: strcmp is a test of names that succeeds exactly on equal names (Blob.Names); a
-- producer's callbacks are an interface with the behaviour that src/sw/project/dav2.h documents
-- (Producer.IsStepped and IsProducer), and for the driver two hooks that may run operations of their own
-- (Accel.Env); the cycle counter is a sequence of readings; the environment variable that injects
-- a failed job is a number. The register offsets of the accelerator come from a generated header,
-- so a register is a field by its name, and an access is to STATUS, to another register, or
-- outside the block.
--
-- Not modelled: the operators above the product but the ReLU and the residual sum (LayerNorm,
-- GELU, resize, convolution, embedding), the driver's self-tests at boot, the exponential job of
-- the softmax and the sequence of the network (dav2_engine.c), dav2_qw and the messages; input and
-- output, the vendored libraries and the hardware sources.
pub mod Base
pub mod Xf
pub mod Fixed
pub mod Attention
pub mod Add
pub mod Arena
pub mod Copy
pub mod Columns
pub mod Exps
pub mod Gemm
pub mod Blob
pub mod Producer
pub mod Relu
pub mod RowStats
pub mod Emulator
pub mod Accel
