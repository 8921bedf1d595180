-- ===== src/Emulator/Tests.antt =====
-- Runs of the model on a small product, and instances of its theorems.
use risc_v_vi_t_accelerator.Base.{
  ◌%◌, ◌≡◌, refl, arith, true, false, Option, none, some, if◌then◌else◌, ◌==◌, pos,
}
use risc_v_vi_t_accelerator.Emulator.{Emu, Regs}
use risc_v_vi_t_accelerator.Emulator.Rows.{row_sum, gemm_row}
use risc_v_vi_t_accelerator.Emulator.Decode.{zero_job, job_flags, job_operands}
use risc_v_vi_t_accelerator.Emulator.Latch.{
  gemm_ok, fits_ram, operands_ok, other_ok, latch_other, flags_ok, start_ok, table_ok, latch_job,
  latch,
}
use risc_v_vi_t_accelerator.Emulator.Contract.{IsContract, latch-IsContract}
use risc_v_vi_t_accelerator.Emulator.Progress.{IsGemm, reached, polls, polls-gemm}
use risc_v_vi_t_accelerator.Emulator.RowResults.{gemm_row-ram}

-- Two rows of four activations at address 0, seven rows of four weights at 64, results on chip.
abbrev blank : Regs
blank = record {
  ctrl = 0;
  status = 0;
  caps = 0;
  dbg2 = 0;
  dbg4 = 0;
  cycles = 0;
  rq_amax = 0;
  lut_addr = 0;
  x_addr = 0;
  add_mult_x = 0;
  add_mult_h = 0;
  add_shift = 0;
  a_addr = 0;
  a_stride = 0;
  w_addr = 0;
  w_stride = 0;
  c_addr = 0;
  c_stride = 0;
  s_addr = 0;
  p_addr = 0;
  k_len = 0;
  m_len = 0;
  n_rows = 0;
  g_addr = 0;
  g_geom = 0;
  g_chan = 0;
  g_conv = 0;
  g_start = 0;
  rng_beta_m = 0;
  rng_beta_sh = 0;
  rng_e = 0;
  rng_s_addr = 0;
  rng_b_addr = 0;
  rng_vmax_lo = 0;
  rng_vmax_hi = 0;
  rng_vmin_lo = 0;
  rng_vmin_hi = 0;
  dp_fk = 0;
  dp_gb = 0;
  dp_sh = 0;
  dp_m0 = 0;
  ln_zs = 0;
  ln_fm = 0;
  ln_invm = 0;
  ln_sh = 0;
  ln_ymax_lo = 0;
  ln_ymax_hi = 0;
}

abbrev pub idle : Emu
idle = record {
  regs = record blank {
    ctrl = 0x401;
    a_stride = 8;
    w_addr = 64;
    c_stride = 2;
    k_len = 4;
    m_len = 7;
    n_rows = 2;
  };
  mem = λ a. if a % 2 == 0 then a else 0;
  job = zero_job;
  lut_tab = λ i. pos 0;
  cr_ram = λ i. pos 0;
  lut_valid = false;
  ln_zq = λ i. pos 0;
  ln_g = λ i. pos 0;
  ln_b = λ i. pos 0;
  ln_valid = false;
  rng_s = λ i. pos 0;
  rng_b = λ i. pos 0;
  rng_valid = false;
  rng_rows = 0;
  rng_vmax = pos 0;
  rng_vmin = pos 0;
  ln_n = 0;
  ln_k = 0;
  a_snap = λ i. pos 0;
  jobs_done = 0;
  init = false;
}

abbrev or_else : Option Emu → Emu → Emu
or_else none e = e
or_else (some r) e = r

started : Emu
started = or_else (latch idle) idle

latch-idle : latch idle ≡ some started
unfolding started latch latch_job start_ok table_ok flags_ok job_flags job_operands latch_other
    other_ok gemm_ok operands_ok fits_ram
latch-idle = refl

latch-IsContract_example : (idle.job.busy ≡ false) × IsContract started.job
latch-IsContract_example = latch-IsContract idle started refl latch-idle

-- The job as it is latched, without the registers' history.
abbrev pub running : Emu
running = record idle {
  job = record zero_job {
    busy = true;
    onchip = true;
    a_stride = 8;
    w_addr = 64;
    c_stride = 2;
    k = 4;
    m = 7;
    n = 2;
  };
  a_snap = λ i. pos i;
}

pub running-IsGemm : IsGemm running.job
running-IsGemm = record {
  no_requant = refl;
  no_ln = refl;
  no_lerp = refl;
  in_range = (omega arith, omega arith);
}

-- Seven rows: the second poll finishes the job.
polls-gemm_example :
    (r : Emu) × (polls 0 2 running ≡ some r) × (r.job.m_done ≡ reached 10 7) × (r.job.busy ≡ false)
polls-gemm_example = polls-gemm 0 1 running running-IsGemm refl

gemm_row-ram_example : (gemm_row 3 running).cr_ram 7 ≡ row_sum running 3 1
gemm_row-ram_example = gemm_row-ram 3 running refl 7
