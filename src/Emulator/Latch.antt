-- ===== src/Emulator/Latch.antt =====
-- The start of a job: latch of src/sw/project/host/accel_emu.c, with the contract it checks.
use risc_v_vi_t_accelerator.Base.{
  ℕ, ◌+◌, ◌-◌, ◌*◌, ◌/◌, ◌%◌, ◌^◌, Bool, true, false, not, ◌&&◌, ◌||◌, ◌==◌, ltb, leb,
  if◌then◌else◌, Option, some, guard, ◌>>◌, ◌>>=◌, u32, u64, pos, signed16,
}
use risc_v_vi_t_accelerator.Emulator.{
  Emu, Regs, Job, nrows, kmax, load32, bit, bits_at, aligned, emu_align,
}
use risc_v_vi_t_accelerator.Emulator.Tile.{a_snapshot}
use risc_v_vi_t_accelerator.Emulator.Decode.{job_flags, job_operands}

abbrev odd : ℕ → Bool
odd n = n % 2 == 1

-- CTRL.rng_load: the table, read at the start.
unfoldable pub load_range : Job → Emu → Option Emu
load_range j e =
    let r = e.regs in
    let es = signed16 (r.rng_e % 2 ^ 16) in
    let eb = signed16 (r.rng_e / 2 ^ 16) in
    guard (leb j.m 2048)
    >> guard (aligned r.rng_s_addr && aligned r.rng_b_addr)
    >> some (record e {
      rng_s = λ i.
          if ltb i j.m
          then emu_align (load32 e.mem (r.rng_s_addr + 8 * i))
              (load32 e.mem (r.rng_s_addr + 8 * i + 4)) es
          else e.rng_s i;
      rng_b = λ i.
          if ltb i j.m
          then (if r.rng_b_addr == 0
              then pos 0
              else emu_align (load32 e.mem (r.rng_b_addr + 8 * i))
                  (load32 e.mem (r.rng_b_addr + 8 * i + 4)) eb)
          else e.rng_b i;
      rng_valid = true;
      rng_rows = j.m;
      rng_vmax = pos 0;
      rng_vmin = pos 0;
    })

-- CTRL.ln: its own contract.
unfoldable pub ln_ok : Job → Emu → Bool
ln_ok j e =
    let bsr = bits_at j.ln_sh 16 5 in
    leb 1 j.n
    && leb j.n nrows
    && (leb 2 j.k && not (odd j.k) && leb j.k kmax)
    && (if j.lnb
        then e.ln_valid
          && (j.n == e.ln_n)
          && (j.k == e.ln_k)
          && (aligned j.c_addr && aligned j.c_stride)
          && (leb 1 bsr && leb bsr 30)
        else (j.m == j.n)
          && (aligned j.a_addr
              && aligned j.a_stride
              && aligned j.p_addr
              && aligned j.w_addr
              && aligned j.x_addr)
          && (j.ln_zs / 2 ^ 25 == 0))

unfoldable pub latch_ln : Job → Emu → Option Emu
latch_ln j e =
    let started =
      if j.lnb then record e { job = j } else a_snapshot (record e { job = j; ln_valid = false }) in
    guard (ln_ok j e) >> some started

-- The contract of a requantisation's sizes, and of a GEMM's.
unfoldable pub requant_ok : Job → Bool
requant_ok j =
    leb 2 j.m
    && not (odd j.m)
    && leb j.m (kmax / 2)
    && (j.onchip || aligned j.a_stride)
    && not (j.add && not (leb j.m (kmax / 4)))
    && not (j.add && not (aligned j.x_addr))

unfoldable pub gemm_ok : Job → Bool
gemm_ok j =
    leb 4 j.k
    && aligned j.k
    && leb j.k kmax
    && not (j.gather && not (j.k == bits_at j.g_conv 20 8 * bits_at j.g_chan 0 16))
    && not (j.gather && odd j.g_chan)

-- `(uint64_t)base + (uint64_t)(m - 1) * stride + n > 131072u` does not hold.
unfoldable pub fits_ram : ℕ → ℕ → Job → Bool
fits_ram base stride j = leb (u64 (base + u32 (j.m + (2 ^ 32 - 1)) * stride + j.n)) 131_072

-- The alignment and the result RAM's room for every other job.
unfoldable pub operands_ok : ℕ → Job → Bool
operands_ok ctrl j =
    not (j.lerp && not (j.n == 2))
    && ((j.onchip && j.requant || aligned j.a_addr)
        && aligned j.w_addr
        && (j.onchip && not j.requant || aligned j.c_addr)
        && aligned j.s_addr
        && aligned j.p_addr
        && aligned j.g_addr)
    && not (j.onchip && j.requant && j.a16)
    && (not (j.onchip && not j.requant) || fits_ram j.c_addr j.c_stride j)
    && (not (j.onchip && j.requant) || fits_ram j.a_addr j.a_stride j)
    && not (bit ctrl 11 && not j.gather)

-- Every other job: the contract as student_gemm.hjson states it.
unfoldable pub other_ok : ℕ → Job → Bool
other_ok ctrl j =
    (leb 1 j.n && leb j.n nrows)
    && ((if j.requant then requant_ok j else gemm_ok j) && operands_ok ctrl j)

unfoldable pub latch_other : ℕ → Job → Emu → Option Emu
latch_other ctrl j e =
    let e1 = record e { job = j; ln_valid = false } in
    guard (other_ok ctrl j) >> some (if j.requant then e1 else a_snapshot e1)

-- The checks between the decoding of the flags and the operands.
unfoldable pub flags_ok : ℕ → Job → Bool
flags_ok ctrl j =
    not (bit ctrl 13 && not j.gather)
    && not (j.a16 && odd j.n)
    && not (j.lut_load && not (aligned j.lut_addr))

-- CTRL.dpar against the table in the block.
unfoldable pub dpar_ok : Job → Emu → Bool
dpar_ok j e =
    e.rng_valid
    && leb (u32 (j.dp_m0 + j.m)) e.rng_rows
    && (bit j.dp_sh 24 || (leb 1 (bits_at j.dp_sh 16 5) && leb (bits_at j.dp_sh 16 5) 31))

-- The checks on the flags and on the operands that do not need the table.
unfoldable pub start_ok : ℕ → Regs → Bool
start_ok ctrl r =
    let flags = job_flags ctrl r in
    let j = job_operands ctrl r flags in
    flags_ok ctrl flags
    && not (j.sat16 && (j.lut || j.add))
    && not (j.msums && not (aligned r.s_addr))

-- The checks against the range table in the block.
unfoldable pub table_ok : Job → Emu → Bool
table_ok j e = not (j.rng && (not e.rng_valid || ltb e.rng_rows j.m)) && (not j.dpar || dpar_ok j e)

unfoldable pub latch_job : ℕ → Emu → Option Emu
latch_job ctrl e =
    let j = job_operands ctrl e.regs (job_flags ctrl e.regs) in
    guard (start_ok ctrl e.regs) >> (if j.rngl then load_range j e else some e) >>= λ e1.
    guard (table_ok j e1) >> (if j.ln then latch_ln j e1 else latch_other ctrl j e1)

unfoldable pub latch : Emu → Option Emu
latch e =
    let ctrl = e.regs.ctrl in
    let cleared = record e { regs = record (e.regs) { ctrl = 0 } } in
    if not (bit ctrl 0) then some cleared else guard (not e.job.busy) >> latch_job ctrl cleared
