-- ===== src/Accel.antt =====
-- The driver of the accelerator, src/sw/project/dav2_accel.c, over the model of its registers: its
-- state, and the primitives that its operations are made of. It is the build that
-- src/sw/project/host runs (DAV2_ACCEL_EMU), in which REG32 is dav2_emu_reg. A pointer is an
-- address, 0 for null; a size is a natural number, so the tests for a size below 1 are tests for 0.
-- What is printed, and the registers that are read only to be printed, are left out.
pub mod Logic
pub mod Steps
pub mod Waits
pub mod Settle
pub mod KeptProducts
pub mod KeptRows
pub mod KeptImages
pub mod Calls
pub mod Untouched
pub mod Disabled
pub mod Ends
pub mod Caps
pub mod Probe
pub mod Tests
pub mod Wait
pub mod Run
pub mod Qgemm
pub mod Gemm16
pub mod Rows
pub mod Requant
pub mod RowJobs
pub mod Special
pub mod Image
pub mod Conv
use risc_v_vi_t_accelerator.Base.{
  ℕ, ◌+◌, ◌*◌, ◌/◌, ◌%◌, ◌^◌, bit_or, Bool, true, false, not, ◌&&◌, if◌then◌else◌, Option, none,
  some, List, [], ◌∷◌, u32, u64, ℤ, bits32,
}
use risc_v_vi_t_accelerator.Arena.{Arena, arena_alloc, arena_mark, arena_release}
use risc_v_vi_t_accelerator.Emulator.{Emu, Regs, bit, load32, store32}
use risc_v_vi_t_accelerator.Emulator.Step.{Access, emu_reg}

-- dav2_accel_rng_t
pub record RngCfg : Type 0 where
  pub s : ℕ
  pub b : ℕ
  pub es : ℤ
  pub eb : ℤ
  pub beta_m : ℤ
  pub beta_sh : ℤ

-- pend: the job that was left running.
pub record Pend : Type 0 where
  pub active : Bool
  pub beats : ℕ
  pub amax : ℕ

-- The static variables, named without the prefix accel_; `clock` counts the readings of the cycle
-- counter, `arena` and `emu` are the memory allocator and the block.
pub record Driver : Type 0 where
  pub probed : Bool
  pub gather_ok : Bool
  pub epi_ok : Bool
  pub lut_ok : Bool
  pub a16_ok : Bool
  pub w16_ok : Bool
  pub ostats_ok : Bool
  pub onchip_ok : Bool
  pub greuse_ok : Bool
  pub osums_ok : Bool
  pub grelu_ok : Bool
  pub conv_relu : Bool
  pub wsh_ok : Bool
  pub lutint_ok : Bool
  pub lerp_ok : Bool
  pub conv_onchip : Bool
  pub gemm_ctrl : ℕ
  pub gemm_wsh : ℕ
  pub cr_base : ℕ
  pub rq_onchip : Bool
  pub attcr_ok : Bool
  pub tp_ok : Bool
  pub ln_ok : Bool
  pub rng_ok : Bool
  pub smx_ok : Bool
  pub rq_msums : ℕ
  pub rng_cfg : RngCfg
  pub rng_armed : Bool
  pub rng_on : Bool
  pub rng_first : Bool
  pub rng_valid : Bool
  pub out_stride : ℕ
  pub in_pitch : ℕ
  pub ok : Bool
  pub nrows : ℕ
  pub kmax : ℕ
  pub cycles : ℕ
  pub jobs : ℕ
  pub beats : ℕ
  pub retries : ℕ
  pub overlapped : ℕ
  pub defer : Bool
  pub pend : Pend
  pub ln_a_jobs : ℕ
  pub clock : ℕ
  pub arena : Arena
  pub emu : Emu

-- An operation: its result and the state it leaves; `none` when the block's model stops the process
-- or a loop's fuel is spent.
abbrev pub Action {ℓ} : Type ℓ → Type ℓ
Action A = Driver → Option (A × Driver)

-- What the driver takes from elsewhere: DAV2_EMU_FAIL_JOB, the n-th reading of the cycle counter, the
-- rounds that a wait may take, dav2_producer_need and dav2_producer_idle, and the addresses of the
-- static and local variables that a job's largest output is folded in, and of the transposition's
-- parameters.
pub record Env : Type 0 where
  pub fail_at : ℕ
  pub mcycle : ℕ → ℕ
  pub rounds : ℕ
  pub need : ℕ → Action (Unit {0})
  pub idle : Action Bool
  pub lut_sink : ℕ
  pub stride_sink : ℕ
  pub tp_sink : ℕ
  pub norm_sink : ℕ
  pub local_amax : ℕ
  pub tp_par : ℕ

abbrev pub pure {ℓ} : {A : Type ℓ} → A → Action A
pure a d = some (a, d)

-- The process stops here, or is not modelled further.
unfoldable pub fault {ℓ} : {A : Type ℓ} → Action A
fault d = none

abbrev pub after {ℓ κ} :
    {A : Type ℓ} {B : Type κ} → (A → Action B) → Option (A × Driver) → Option (B × Driver)
after f none = none
after f (some (a, d)) = f a d

infixl 5 ◌>>=◌ ◌>>◌
unfoldable pub ◌>>=◌ {ℓ κ} : {A : Type ℓ} {B : Type κ} → Action A → (A → Action B) → Action B
(m >>= f) d = after f (m d)

abbrev pub ◌>>◌ {ℓ κ} : {A : Type ℓ} {B : Type κ} → Action A → Action B → Action B
m >> k = m >>= λ _. k

unfoldable pub gets {ℓ} : {A : Type ℓ} → (Driver → A) → Action A
gets f d = some (f d, d)

unfoldable pub modify : (Driver → Driver) → Action (Unit {0})
modify f d = some (tt, f d)

-- The operand registers that the driver writes.
pub data Reg : Type 0 where
  a_addr a_stride w_addr w_stride c_addr c_stride s_addr p_addr x_addr k_len m_len n_rows : Reg
  g_addr g_geom g_chan g_conv g_start lut_addr add_mx add_mh add_sh : Reg
  rng_s rng_b rng_e rng_bm rng_bsh dp_fk dp_gb dp_sh dp_m0 ln_zs ln_fm ln_invm ln_sh : Reg

unfoldable pub set_reg : Reg → ℕ → Regs → Regs
set_reg Reg.a_addr x r = record r { a_addr = x }
set_reg Reg.a_stride x r = record r { a_stride = x }
set_reg Reg.w_addr x r = record r { w_addr = x }
set_reg Reg.w_stride x r = record r { w_stride = x }
set_reg Reg.c_addr x r = record r { c_addr = x }
set_reg Reg.c_stride x r = record r { c_stride = x }
set_reg Reg.s_addr x r = record r { s_addr = x }
set_reg Reg.p_addr x r = record r { p_addr = x }
set_reg Reg.x_addr x r = record r { x_addr = x }
set_reg Reg.k_len x r = record r { k_len = x }
set_reg Reg.m_len x r = record r { m_len = x }
set_reg Reg.n_rows x r = record r { n_rows = x }
set_reg Reg.g_addr x r = record r { g_addr = x }
set_reg Reg.g_geom x r = record r { g_geom = x }
set_reg Reg.g_chan x r = record r { g_chan = x }
set_reg Reg.g_conv x r = record r { g_conv = x }
set_reg Reg.g_start x r = record r { g_start = x }
set_reg Reg.lut_addr x r = record r { lut_addr = x }
set_reg Reg.add_mx x r = record r { add_mult_x = x }
set_reg Reg.add_mh x r = record r { add_mult_h = x }
set_reg Reg.add_sh x r = record r { add_shift = x }
set_reg Reg.rng_s x r = record r { rng_s_addr = x }
set_reg Reg.rng_b x r = record r { rng_b_addr = x }
set_reg Reg.rng_e x r = record r { rng_e = x }
set_reg Reg.rng_bm x r = record r { rng_beta_m = x }
set_reg Reg.rng_bsh x r = record r { rng_beta_sh = x }
set_reg Reg.dp_fk x r = record r { dp_fk = x }
set_reg Reg.dp_gb x r = record r { dp_gb = x }
set_reg Reg.dp_sh x r = record r { dp_sh = x }
set_reg Reg.dp_m0 x r = record r { dp_m0 = x }
set_reg Reg.ln_zs x r = record r { ln_zs = x }
set_reg Reg.ln_fm x r = record r { ln_fm = x }
set_reg Reg.ln_invm x r = record r { ln_invm = x }
set_reg Reg.ln_sh x r = record r { ln_sh = x }

abbrev pub with_emu : Driver → Option Emu → Option (Unit {0} × Driver)
with_emu d none = none
with_emu d (some e) = some (tt, record d { emu = e })

abbrev pub assign : (Regs → Regs) → Driver → Driver
assign f d = record d { emu = record (d.emu) { regs = f d.emu.regs } }

module _ (v : Env) where
  -- `REG32(r)`: the block takes the access before the value is read or written.
  unfoldable pub touch : Access → Action (Unit {0})
  touch a d = with_emu d (emu_reg v.fail_at a d.emu)

  unfoldable pub write : Reg → ℕ → Action (Unit {0})
  write r x = touch Access.other_reg >> modify (assign (set_reg r (u32 x)))

  -- `REG32(r1) = x1; REG32(r2) = x2; ...`
  unfoldable pub write_all : List (Reg × ℕ) → Action (Unit {0})
  write_all [] = pure tt
  write_all ((r, x) ∷ rest) = write r x >> write_all rest

  -- `REG32(GEMM_CTRL) = ctrl;`
  unfoldable pub write_ctrl : ℕ → Action (Unit {0})
  write_ctrl ctrl = touch Access.other_reg >> modify (assign (λ r. record r { ctrl = u32 ctrl }))

  unfoldable pub read : (Regs → ℕ) → Action ℕ
  read f = touch Access.other_reg >> gets (λ d. f d.emu.regs)

  unfoldable pub read_status : Action ℕ
  read_status = touch Access.status_reg >> gets (λ d. d.emu.regs.status)

  -- accel_mcycle
  unfoldable pub read_clock : Action ℕ
  read_clock d = some (u32 (v.mcycle d.clock), record d { clock = d.clock + 1 })

-- `*p` and `*p = x;` for an int32_t.
unfoldable pub load_int : ℕ → Action ℤ
load_int p = gets (λ d. load32 d.emu.mem p)

unfoldable pub store_int : ℕ → ℤ → Action (Unit {0})
store_int p x =
    modify (λ d. record d { emu = record (d.emu) { mem = store32 p (bits32 x) d.emu.mem } })

-- dav2_arena_alloc, `none` for null; dav2_arena_mark; dav2_arena_release.
unfoldable pub alloc : ℕ → Action (Option ℕ)
alloc bytes d = let (p, a) = arena_alloc (u32 bytes) d.arena in some (p, record d { arena = a })

unfoldable pub mark : Action ℕ
mark = gets (λ d. arena_mark d.arena)

unfoldable pub release : ℕ → Action (Unit {0})
release m = modify (λ d. record d { arena = arena_release m d.arena })

-- `if (!p) ... else ...` for a pointer from the allocator.
unfoldable pub null_or {ℓ} : {A : Type ℓ} → Option ℕ → Action A → (ℕ → Action A) → Action A
null_or none refused granted = refused
null_or (some q) refused granted = granted q

-- `c ? flag : 0u`, and the bits that are or-ed into a word.
abbrev pub flag : Bool → ℕ → ℕ
flag c bits = if c then bits else 0

abbrev pub ored : List ℕ → ℕ
ored [] = 0
ored (x ∷ xs) = bit_or x (ored xs)
