-- ===== src/Accel/Tests.antt =====
-- Runs of the driver over the model of the block, and instances of its theorems.
use risc_v_vi_t_accelerator.Base.{
  Bool, ◌+◌, ◌*◌, ◌-◌, ◌^◌, ◌≡◌, refl, arith, true, false, Option, none, some, pos, for_range,
}
use risc_v_vi_t_accelerator.Emulator.{Emu}
use risc_v_vi_t_accelerator.Emulator.Tests.{idle, running, running-IsGemm}
use risc_v_vi_t_accelerator.Emulator.Latch.{
  latch, gemm_ok, operands_ok, other_ok, latch_other, flags_ok, dpar_ok, start_ok, table_ok,
  latch_job,
}
use risc_v_vi_t_accelerator.Emulator.Step.{
  init_caps, emu_reg, gemm_rows, lerp_rows, advance, report, step, set_status,
}
use risc_v_vi_t_accelerator.Accel.Qgemm.{raw_ok, gemm_raw, gemm_raw_async}
use risc_v_vi_t_accelerator.Emulator.Decode.{job_flags, job_operands}
use risc_v_vi_t_accelerator.Emulator.Tile.{a_plain, a_snapshot, a_elem}
use risc_v_vi_t_accelerator.Emulator.Rows.{put_result, row_loop, gemm_row}
use risc_v_vi_t_accelerator.Emulator.Round.{apply_mult}
use risc_v_vi_t_accelerator.Accel.{
  Driver, Env, ◌>>=◌, ◌>>◌, gets, modify, set_reg, touch, write, write_all, write_ctrl, read,
  read_status, read_clock,
}
use risc_v_vi_t_accelerator.Accel.Wait.{
  maybe_defer, accel_init, wait_busy, finish, count_job, rng_ctrl, wait_simple,
}
use risc_v_vi_t_accelerator.Accel.Run.{set_defer, shared_regs, start_tile, run_tiles, accel_run}
use risc_v_vi_t_accelerator.Accel.Special.{lerp_sizes_ok, lerp_regs, lerp_async}
use risc_v_vi_t_accelerator.Accel.Logic.{Reaches, Goes-bind, Goes-pure, keeping-starting}
use risc_v_vi_t_accelerator.Accel.Waits.{IsCareful}
use risc_v_vi_t_accelerator.Accel.Settle.{finish-Goes}
use risc_v_vi_t_accelerator.Accel.KeptImages.{lerp_async-Goes}
use risc_v_vi_t_accelerator.Accel.Calls.{Call, call, ran, Calls, IsQuiet, Calls-IsQuiet}
use risc_v_vi_t_accelerator.Accel.Disabled.{Calls-disabled}
use risc_v_vi_t_accelerator.Accel.Untouched.{IsDisabled}
use risc_v_vi_t_accelerator.Accel.Ends.{wait_busy-ends}
use risc_v_vi_t_accelerator.Accel.Caps.{Features, caps_of}
use risc_v_vi_t_accelerator.Accel.Probe.{IsFound, accel_init-IsFound}

-- No producers, a clock that ticks once a reading.
abbrev env : Env
env = record {
  fail_at = 0;
  mcycle = λ n. n;
  rounds = 10;
  need = λ n d. some (tt, d);
  idle = λ d. some (false, d);
  lut_sink = 1000;
  stride_sink = 1004;
  tp_sink = 1008;
  norm_sink = 1012;
  local_amax = 1016;
  tp_par = 1020;
}

abbrev at_rest : Emu
at_rest = record idle { regs = record (idle.regs) { ctrl = 0 } }

abbrev unprobed : Driver
unprobed = record {
  probed = false;
  gather_ok = true;
  epi_ok = true;
  lut_ok = false;
  a16_ok = false;
  w16_ok = false;
  ostats_ok = false;
  onchip_ok = false;
  greuse_ok = false;
  osums_ok = false;
  grelu_ok = false;
  conv_relu = false;
  wsh_ok = false;
  lutint_ok = false;
  lerp_ok = true;
  conv_onchip = false;
  gemm_ctrl = 0;
  gemm_wsh = 0;
  cr_base = 0;
  rq_onchip = false;
  attcr_ok = true;
  tp_ok = true;
  ln_ok = false;
  rng_ok = false;
  smx_ok = false;
  rq_msums = 0;
  rng_cfg = record { s = 0; b = 0; es = pos 0; eb = pos 0; beta_m = pos 0; beta_sh = pos 0 };
  rng_armed = false;
  rng_on = false;
  rng_first = false;
  rng_valid = false;
  out_stride = 0;
  in_pitch = 0;
  ok = false;
  nrows = 0;
  kmax = 0;
  cycles = 0;
  jobs = 0;
  beats = 0;
  retries = 0;
  overlapped = 0;
  defer = false;
  pend = record { active = false; beats = 0; amax = 0 };
  ln_a_jobs = 0;
  clock = 0;
  arena = record { base = 4096; size = 65536; used = 0; high = 0; failed = false };
  emu = at_rest;
}

abbrev ready : Driver
ready = record unprobed { probed = true; ok = true; nrows = 128; kmax = 2048 }

abbrev is_some : Option (Unit {0} × Driver) → Bool
is_some none = false
is_some (some r) = true

abbrev or_ready : Option (Unit {0} × Driver) → Driver
or_ready none = ready
or_ready (some (_, d)) = d

-- Four values between the rows at 0 and at 8, halfway.
abbrev blend : Call
blend = Call.lerp_call 0 8 64 4 (pos 128)

blended : Driver
blended = or_ready (call env blend ready)

blend-runs : call env blend ready ≡ some (tt, blended)
unfolding blended call lerp_async accel_init finish gets modify ◌>>=◌ set_reg touch write write_all
    write_ctrl maybe_defer set_defer lerp_sizes_ok lerp_regs emu_reg init_caps latch
blend-runs = refl

careful : IsCareful env
unfolding Reaches
careful = record { need_keeps = λ n m. Goes-pure; idle_starts = λ m. keeping-starting Goes-pure }

ready-IsQuiet : IsQuiet ready
ready-IsQuiet = record { is_reset = refl; is_settled = λ ok inactive. (refl, refl) }

-- A producer that has rows blended by the block when it is asked for them, as interp_lerp_need does.
abbrev lerping : Env
lerping = record env { need = λ n. ran (lerp_async env 0 8 64 4 (pos 128)) >> ran (finish env) }

lerping-IsCareful : IsCareful lerping
unfolding Reaches
lerping-IsCareful = record {
  need_keeps = λ n m.
      Goes-bind (Goes-bind (lerp_async-Goes env careful 0 8 64 4 (pos 128)) (λ _. Goes-pure))
        (λ _. Goes-bind (finish-Goes env careful) (λ _. Goes-pure));
  idle_starts = λ m. keeping-starting Goes-pure;
}

-- Two rows of four activations at 0 against two rows of four weights at 64, left running.
abbrev left_running : Call
left_running = Call.gemm_raw_async_call (record {
  a = 0;
  w = 64;
  acc = 256;
  n = 2;
  k = 4;
  m = 2;
  a_stride = 8;
  w_stride = 4;
  stats = 0;
})

multiplied : Driver
multiplied = or_ready (call lerping left_running ready)

-- A run that returns is given by its state.
runs_to : (o : Option (Unit {0} × Driver)) → is_some o ≡ true → o ≡ some (tt, or_ready o)
runs_to none h = absurd (grind arith)
runs_to (some (u, d)) h = refl

returns : is_some (call lerping left_running ready) ≡ true
unfolding call ◌>>=◌ gets modify set_reg touch write write_all write_ctrl read read_status
    read_clock maybe_defer count_job rng_ctrl accel_init wait_busy wait_simple finish shared_regs
    set_defer start_tile run_tiles accel_run raw_ok gemm_raw gemm_raw_async lerp_sizes_ok lerp_regs
    lerp_async job_flags job_operands gemm_ok operands_ok other_ok latch_other flags_ok dpar_ok
    start_ok table_ok latch_job latch a_plain a_snapshot a_elem put_result row_loop gemm_row
    gemm_rows lerp_rows advance report step init_caps set_status emu_reg apply_mult for_range
returns = refl

multiplied-runs : call lerping left_running ready ≡ some (tt, multiplied)
unfolding multiplied
multiplied-runs = runs_to (call lerping left_running ready) returns

Calls-IsQuiet_example : IsQuiet multiplied
Calls-IsQuiet_example = Calls-IsQuiet lerping lerping-IsCareful ready multiplied ready-IsQuiet (
    Calls.then_call left_running ready multiplied multiplied multiplied-runs
      (Calls.done multiplied))

-- A block that has failed.
abbrev failed : Driver
failed = record ready { ok = false }

declined-runs : call env blend failed ≡ some (tt, failed)
unfolding call lerp_async accel_init gets ◌>>=◌
declined-runs = refl

Calls-disabled_example : IsDisabled failed × (failed.emu ≡ failed.emu)
Calls-disabled_example =
    Calls-disabled env failed failed
      (record { probed = refl; off = refl; collected = refl; no_range = refl })
      (Calls.then_call blend failed failed failed declined-runs (Calls.done failed))

-- The seven rows of the running product.
abbrev computing : Driver
computing = record ready { emu = record running { regs = record (running.regs) { ctrl = 0 } } }

-- A clock that wraps between the start of the wait and its second reading.
abbrev wrapping : Env
wrapping = record env { mcycle = λ n. 2 ^ 32 - 50 + 30 * n }

abbrev waiting : Driver
waiting = record computing { clock = 1 }

wait_busy-ends_example :
    (d1 : Driver) × (wait_busy wrapping 2 (2 ^ 32 - 50) waiting ≡ some (true, d1))
    × (d1.emu.job.busy ≡ false)
    × (d1.emu.job.m_done ≡ 7)
wait_busy-ends_example =
    wait_busy-ends wrapping (2 ^ 32 - 50) (λ d. refl) 1 waiting
      (record { is_gemm = running-IsGemm; is_busy = refl; none_starts = refl })
      (λ n lo hi. ground (arith, lo, hi)) (omega arith)

-- A block of 64 rows and 1024 columns, without the softmax and the range unit.
abbrev small : Features
small = record {
  smx = false;
  rng = false;
  ln = true;
  lut = true;
  a16 = false;
  w16 = true;
  ostats = false;
  onchip = true;
  greuse = false;
  osums = true;
  grelu = false;
}

abbrev small_block : Driver
small_block = record unprobed {
  emu = record at_rest {
    init = true;
    regs = record (at_rest.regs) { caps = caps_of small 64 1024 };
  };
}

small_caps : (init_caps small_block.emu).regs.caps ≡ caps_of small 64 1024
unfolding init_caps
small_caps = refl

accel_init-IsFound_example :
    (d1 : Driver) × (accel_init env small_block ≡ some (d1.ok, d1))
    × IsFound small 64 1024 d1
    × IsQuiet d1
accel_init-IsFound_example =
    accel_init-IsFound env small 64 1024 small_block (omega arith) (omega arith) small_caps
      (record { is_reset = refl; is_idle = (refl, refl) })
