-- ===== src/Emulator/Step.antt =====
-- A register access: step and dav2_emu_reg of src/sw/project/host/accel_emu.c.
use risc_v_vi_t_accelerator.Base.{
  ℕ, zero, suc, ◌+◌, ◌*◌, ◌/◌, ◌%◌, ◌^◌, true, false, not, ◌&&◌, ◌==◌, ltb, if◌then◌else◌, Option,
  none, some, ◌>>=◌, u32, pos, ◌-ℤ◌, ◌+ℤ◌, ◌*ℤ◌, ◌>>ℤ◌, bits16, bits64, for_range,
}
use risc_v_vi_t_accelerator.Emulator.{Emu, nrows, kmax, rows_per_poll, store16}
use risc_v_vi_t_accelerator.Emulator.Tile.{a_elem}
use risc_v_vi_t_accelerator.Emulator.Rows.{gemm_row}
use risc_v_vi_t_accelerator.Emulator.Requant.{requant_all}
use risc_v_vi_t_accelerator.Emulator.LayerNorm.{ln_phase_a, ln_phase_b}
use risc_v_vi_t_accelerator.Emulator.Latch.{latch}

-- `for (i = 0; i < ROWS_PER_POLL && job.m_done < job.m; i++) gemm_row(job.m_done++);`, with `left`
-- rounds to go.
unfoldable pub gemm_rows : ℕ → Emu → Emu
gemm_rows zero e = e
gemm_rows (suc left) e =
    let counted = record e { job = record (e.job) { m_done = u32 (e.job.m_done + 1) } } in
    let rest = gemm_rows left (gemm_row e.job.m_done counted) in
    if ltb e.job.m_done e.job.m then rest else e

-- A job's end: busy cleared, with the count of its writes.
abbrev pub ended : ℕ → Emu → Emu
ended writes e = record e { job = record (e.job) { writes = writes; busy = false } }

-- CTRL.lerp: the two rows interpolated.
unfoldable pub lerp_rows : Emu → Emu
lerp_rows e =
    let w = pos (e.job.add_mx % 512) in
    record e {
      mem =
          for_range e.job.k 0
            (λ i mem.
              let t = a_elem e 0 i in
              let b = a_elem e 1 i in
              store16 (e.job.c_addr + 2 * i) (bits16 (t +ℤ ((b -ℤ t) *ℤ w >>ℤ 8))) mem)
            e.mem;
    }

-- The job's progress in one poll.
unfoldable pub advance : Emu → Option Emu
advance e =
    let j = e.job in
    if j.requant
    then (requant_all e >>= λ e1. some (ended (u32 (j.n * j.m) / 2) e1))
    else if j.ln
    then (if j.lnb
        then some (ended (u32 (j.n * j.k) / 2) (ln_phase_b e))
        else some (ended 0 (ln_phase_a e)))
    else if j.lerp
    then some (ended (j.k / 2) (lerp_rows e))
    else (let e1 = gemm_rows rows_per_poll e in
        some (record e1 {
          job = record (e1.job) { busy = if e1.job.m_done == e1.job.m then false else e1.job.busy };
        }))

-- What a finished job leaves in the registers; `fail_at` is the environment's DAV2_EMU_FAIL_JOB.
unfoldable pub report : ℕ → Emu → Emu
report fail_at e =
    let j = e.job in
    let done = e.jobs_done + 1 in
    record e {
      jobs_done = done;
      regs = record (e.regs) {
        status = if not (fail_at == 0) && (done == fail_at) then 6 else 2;
        dbg2 = j.writes % 2 ^ 16 * 2 ^ 16 + j.writes % 2 ^ 16;
        rng_vmax_lo = u32 (bits64 e.rng_vmax);
        rng_vmax_hi = bits64 e.rng_vmax / 2 ^ 32;
        rng_vmin_lo = u32 (bits64 e.rng_vmin);
        rng_vmin_hi = bits64 e.rng_vmin / 2 ^ 32;
        cycles = u32 (j.m * (j.k / 4 + 1) * 3);
      };
    }

unfoldable pub step : ℕ → Emu → Option Emu
step fail_at e =
    if not e.job.busy
    then some e
    else (advance e >>= λ e1. some (if e1.job.busy then e1 else report fail_at e1))

-- An access by its address: outside the block, the STATUS register, or another register.
pub data Access : Type 0 where
  outside_block status_reg other_reg : Access

-- `if (!init) { init = 1; R(CAPS) = ...; }`
unfoldable pub init_caps : Emu → Emu
init_caps e = if e.init then e else record e {
  init = true;
  regs = record (e.regs) { caps = 255 * 2 ^ 24 + 7 * 2 ^ 21 + kmax * 2 ^ 8 + nrows };
}

-- `R(STATUS) = job.busy ? 1u : (R(STATUS) & ~1u);`
unfoldable pub set_status : Emu → Emu
set_status e = record e {
  regs = record (e.regs) { status = if e.job.busy then 1 else e.regs.status / 2 * 2 };
}

-- dav2_emu_reg: the state in which the caller then reads or writes the register.
unfoldable pub emu_reg : ℕ → Access → Emu → Option Emu
emu_reg fail_at Access.outside_block e = none
emu_reg fail_at Access.status_reg e =
    latch (init_caps e) >>= λ e1. step fail_at e1 >>= λ e2. some (set_status e2)
emu_reg fail_at Access.other_reg e = latch (init_caps e)
