-- ===== src/Emulator.antt =====
-- The state of the register-level model of the accelerator:
-- src/sw/project/host/accel_emu.c. Memory is a map from byte addresses to bytes, so `ptr(a)` is the
-- address a; a register is a field named as the macro R names it. The signed sums that C leaves
-- undefined on overflow are exact. A failed check (`fail`) ends the process: it is `none`.
pub mod Round
pub mod Tile
pub mod Rows
pub mod Requant
pub mod Decode
pub mod Latch
pub mod LayerNorm
pub mod Step
pub mod Contract
pub mod Progress
pub mod RowResults
pub mod Idle
pub mod Tests
use risc_v_vi_t_accelerator.Base.{
  ℕ, ◌+◌, ◌*◌, ◌/◌, ◌%◌, ◌^◌, Bool, true, false, not, ◌&&◌, ◌||◌, ◌==◌, ltb, if◌then◌else◌, ℤ, pos,
  neg_ℤ, ltb_ℤ, ◌-ℤ◌, ◌+ℤ◌, ◌*ℤ◌, ◌>>ℤ◌, pos_part, neg_part, signed8, signed16, signed32, bits16,
  bits32, i32,
}

-- NROWS, KMAX, ROWS_PER_POLL
abbrev pub nrows : ℕ
nrows = 128

abbrev pub kmax : ℕ
kmax = 2048

abbrev pub rows_per_poll : ℕ
rows_per_poll = 5

abbrev pub Memory : Type 0
Memory = ℕ → ℕ

abbrev pub Ints : Type 0
Ints = ℕ → ℤ

-- Little-endian loads and stores at a byte address.
abbrev pub load8 : Memory → ℕ → ℤ
load8 mem a = signed8 (mem a % 2 ^ 8)

abbrev pub load16 : Memory → ℕ → ℤ
load16 mem a = signed16 (mem a % 2 ^ 8 + 2 ^ 8 * (mem (a + 1) % 2 ^ 8))

abbrev pub load32 : Memory → ℕ → ℤ
load32 mem a = signed32 (
    mem a % 2 ^ 8
    + 2 ^ 8 * (mem (a + 1) % 2 ^ 8)
    + 2 ^ 16 * (mem (a + 2) % 2 ^ 8)
    + 2 ^ 24 * (mem (a + 3) % 2 ^ 8))

abbrev pub store8 : ℕ → ℕ → Memory → Memory
store8 a v mem b = if a == b then v % 2 ^ 8 else mem b

abbrev pub store16 : ℕ → ℕ → Memory → Memory
store16 a v mem = store8 (a + 1) (v / 2 ^ 8) (store8 a v mem)

abbrev pub store32 : ℕ → ℕ → Memory → Memory
store32 a v mem = store16 (a + 2) (v / 2 ^ 16) (store16 a v mem)

-- `(w >> i) & 1u` as a condition
abbrev pub bit : ℕ → ℕ → Bool
bit w i = w / 2 ^ i % 2 == 1

-- `(w >> i) & (2^n - 1)`
abbrev pub bits_at : ℕ → ℕ → ℕ → ℕ
bits_at w i n = w / 2 ^ i % 2 ^ n

-- `(a & 3u) == 0`
abbrev pub aligned : ℕ → Bool
aligned a = a % 4 == 0

-- emu_align: the exponents' difference is exact.
unfoldable pub emu_align : ℤ → ℤ → ℤ → ℤ
emu_align m sh e =
    let d = sh -ℤ e in
    if ltb_ℤ (pos 31) d
    then (if ltb_ℤ m (pos 0) then neg_ℤ (pos 1) else pos 0)
    else if ltb_ℤ d (pos 0)
    then pos 0
    else m >>ℤ pos_part d

unfoldable pub emu_mulh : ℤ → ℤ → ℤ
emu_mulh a b = i32 (a *ℤ b >>ℤ 32)

-- `regs`, by name
pub record Regs : Type 0 where
  pub ctrl : ℕ
  pub status : ℕ
  pub caps : ℕ
  pub dbg2 : ℕ
  pub dbg4 : ℕ
  pub cycles : ℕ
  pub rq_amax : ℕ
  pub lut_addr : ℕ
  pub x_addr : ℕ
  pub add_mult_x : ℕ
  pub add_mult_h : ℕ
  pub add_shift : ℕ
  pub a_addr : ℕ
  pub a_stride : ℕ
  pub w_addr : ℕ
  pub w_stride : ℕ
  pub c_addr : ℕ
  pub c_stride : ℕ
  pub s_addr : ℕ
  pub p_addr : ℕ
  pub k_len : ℕ
  pub m_len : ℕ
  pub n_rows : ℕ
  pub g_addr : ℕ
  pub g_geom : ℕ
  pub g_chan : ℕ
  pub g_conv : ℕ
  pub g_start : ℕ
  pub rng_beta_m : ℕ
  pub rng_beta_sh : ℕ
  pub rng_e : ℕ
  pub rng_s_addr : ℕ
  pub rng_b_addr : ℕ
  pub rng_vmax_lo : ℕ
  pub rng_vmax_hi : ℕ
  pub rng_vmin_lo : ℕ
  pub rng_vmin_hi : ℕ
  pub dp_fk : ℕ
  pub dp_gb : ℕ
  pub dp_sh : ℕ
  pub dp_m0 : ℕ
  pub ln_zs : ℕ
  pub ln_fm : ℕ
  pub ln_invm : ℕ
  pub ln_sh : ℕ
  pub ln_ymax_lo : ℕ
  pub ln_ymax_hi : ℕ

-- `job`
pub record Job : Type 0 where
  pub busy : Bool
  pub requant : Bool
  pub gather : Bool
  pub add : Bool
  pub relu : Bool
  pub lut : Bool
  pub lut_load : Bool
  pub a16 : Bool
  pub w16 : Bool
  pub ostats : Bool
  pub onchip : Bool
  pub osums : Bool
  pub grelu : Bool
  pub lutint : Bool
  pub lerp : Bool
  pub ln : Bool
  pub lnb : Bool
  pub rng : Bool
  pub rngl : Bool
  pub dpar : Bool
  pub msums : Bool
  pub nparam : Bool
  pub sat16 : Bool
  pub wsh : ℕ
  pub dp_fk : ℕ
  pub dp_gb : ℕ
  pub dp_sh : ℕ
  pub dp_m0 : ℕ
  pub rng_beta_m : ℕ
  pub rng_beta_sh : ℕ
  pub ln_zs : ℕ
  pub ln_fm : ℕ
  pub ln_invm : ℕ
  pub ln_sh : ℕ
  pub lut_addr : ℕ
  pub x_addr : ℕ
  pub add_mx : ℕ
  pub add_mh : ℕ
  pub add_shift : ℕ
  pub a_addr : ℕ
  pub a_stride : ℕ
  pub w_addr : ℕ
  pub w_stride : ℕ
  pub c_addr : ℕ
  pub c_stride : ℕ
  pub s_addr : ℕ
  pub p_addr : ℕ
  pub k : ℕ
  pub m : ℕ
  pub n : ℕ
  pub g_addr : ℕ
  pub g_geom : ℕ
  pub g_chan : ℕ
  pub g_conv : ℕ
  pub g_start : ℕ
  pub m_done : ℕ
  pub writes : ℕ

-- The static variables, with memory and the count of finished jobs.
pub record Emu : Type 0 where
  pub regs : Regs
  pub mem : Memory
  pub job : Job
  pub lut_tab : Ints
  pub cr_ram : Ints
  pub lut_valid : Bool
  pub ln_zq : Ints
  pub ln_g : Ints
  pub ln_b : Ints
  pub ln_valid : Bool
  pub rng_s : Ints
  pub rng_b : Ints
  pub rng_valid : Bool
  pub rng_rows : ℕ
  pub rng_vmax : ℤ
  pub rng_vmin : ℤ
  pub ln_n : ℕ
  pub ln_k : ℕ
  pub a_snap : Ints
  pub jobs_done : ℕ
  pub init : Bool
