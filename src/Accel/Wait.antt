-- ===== src/Accel/Wait.antt =====
-- Starting and settling jobs: accel_rng_begin to accel_maybe_defer, accel_wait_simple and the
-- capabilities, src/sw/project/dav2_accel.c.
use risc_v_vi_t_accelerator.Base.{
  ℕ, zero, suc, ◌+◌, ◌-◌, ◌*◌, ◌/◌, ◌%◌, ◌^◌, Bool, true, false, not, ◌&&◌, ◌==◌, ltb, leb,
  if◌then◌else◌, Option, none, some, [], ◌∷◌, u32, ℤ, pos, negsuc, bits16, bits32, signed32, ltb_ℤ,
}
use risc_v_vi_t_accelerator.Emulator.{bit, bits_at}
use risc_v_vi_t_accelerator.Accel.{
  Driver, Env, Action, RngCfg, Reg, pure, fault, ◌>>=◌, ◌>>◌, gets, modify, write_all, read,
  read_status, read_clock, load_int, store_int,
}

-- ACCEL_TIMEOUT_CYCLES
abbrev pub timeout : ℕ
timeout = 2_000_000_000

-- accel_rng_begin
unfoldable pub rng_begin : ℕ → Action (Unit {0})
rng_begin m = modify (λ d.
    let on = d.rng_armed && d.rng_ok && leb 1 m && leb m 2048 in
    record d { rng_on = on; rng_first = on; rng_valid = false; rng_armed = false })

-- accel_rng_end
unfoldable pub rng_end : ℕ → Action (Unit {0})
rng_end r = modify (λ d. record d { rng_valid = d.rng_on && not (r == 0); rng_on = false })

-- dav2_accel_init, with what it reads from CAPS.
unfoldable pub set_caps : ℕ → Driver → Driver
set_caps caps d =
    let nrows = caps % 2 ^ 8 in
    let kmax = bits_at caps 8 13 in
    record d {
      nrows = nrows;
      kmax = kmax;
      ln_ok = bit caps 23;
      rng_ok = bit caps 22;
      smx_ok = bit caps 21;
      lut_ok = bit caps 24;
      a16_ok = bit caps 25;
      w16_ok = bit caps 26;
      ostats_ok = bit caps 27;
      onchip_ok = bit caps 28;
      greuse_ok = bit caps 29;
      osums_ok = bit caps 30;
      grelu_ok = bit caps 31;
      ok = ltb 0 nrows && leb 4 kmax;
    }

-- accel_prefill_stats: slots that no row can produce, DAV2_STATS_EMPTY_MAX and _MIN.
unfoldable pub prefill_stats : ℕ → ℕ → Action (Unit {0})
prefill_stats sv zero = pure tt
prefill_stats sv (suc left) = do
  store_int sv (negsuc 0x7fffffff)
  store_int (sv + 4) (pos 0x7fffffff)
  prefill_stats (sv + 8) left

-- accel_maybe_defer
unfoldable pub maybe_defer : Bool → ℕ → ℕ → Action Bool
maybe_defer last beats amax d =
    if d.defer && last
    then some (
      true,
      record d {
        overlapped = u32 (d.overlapped + 1);
        pend = record { active = true; beats = beats; amax = amax };
      },
    )
    else some (false, d)

-- `if (a > *amax) *amax = a;`
unfoldable pub raise_amax : ℕ → ℤ → Action (Unit {0})
raise_amax amax a = do old ← load_int amax; if ltb_ℤ old a then store_int amax a else pure tt

-- accel_cycles += cycles; accel_jobs++; accel_beats += beats; accel_retries += retries;
unfoldable pub count_job : ℕ → ℕ → ℕ → Action (Unit {0})
count_job cycles beats retries = modify (λ d. record d {
  cycles = u32 (d.cycles + cycles);
  jobs = u32 (d.jobs + 1);
  beats = u32 (d.beats + beats);
  retries = u32 (d.retries + retries);
})

module _ (v : Env) where
  -- accel_rng_ctrl
  unfoldable pub rng_ctrl : Action ℕ
  rng_ctrl = do
    on ← gets (λ d. d.rng_on)
    first ← gets (λ d. d.rng_first)
    c ← gets (λ d. d.rng_cfg)
    if not on then pure 0 else if not first then pure 0x400000 else do
      modify (λ d. record d { rng_first = false })
      write_all v (
          (Reg.rng_s, c.s)
          ∷ (Reg.rng_b, c.b)
          ∷ (Reg.rng_e, bits16 c.eb * 2 ^ 16 + bits16 c.es)
          ∷ (Reg.rng_bm, bits32 c.beta_m)
          ∷ (Reg.rng_bsh, bits32 c.beta_sh)
          ∷ [])
      pure 0xc00000

  -- dav2_accel_init
  unfoldable pub accel_init : Action Bool
  accel_init = do
    probed ← gets (λ d. d.probed)
    if probed then pure tt else do
      modify (λ d. record d { probed = true })
      caps ← read v (λ r. r.caps)
      modify (set_caps caps)
    gets (λ d. d.ok)

  -- `while (REG32(GEMM_STATUS) & STATUS_BUSY) ...` from the reading t0 on, with `left` rounds to
  -- go: false when it timed out.
  unfoldable pub wait_busy : ℕ → ℕ → Action Bool
  wait_busy zero t0 = fault
  wait_busy (suc left) t0 = do
    status ← read_status v
    if not (bit status 0) then pure true else do
      made ← v.idle
      if made then wait_busy left t0 else do
        now ← read_clock v
        if ltb timeout (u32 (now + 2 ^ 32 - t0)) then pure false else wait_busy left t0

  -- accel_ok = 0; return 0;
  unfoldable pub disable : Action Bool
  disable = do modify (λ d. record d { ok = false }); pure false

  -- accel_wait_simple
  unfoldable pub wait_simple : Action Bool
  wait_simple = do
    t0 ← read_clock v
    ended ← wait_busy v.rounds t0
    if not ended
        then disable
        else do status ← read_status v; if bit status 2 then disable else pure true

  -- dav2_accel_busy
  unfoldable pub busy : Action Bool
  busy = do
    active ← gets (λ d. d.pend.active)
    if not active then pure false else do status ← read_status v; pure (bit status 0)

  -- dav2_accel_finish
  unfoldable pub finish : Action Bool
  finish = do
    active ← gets (λ d. d.pend.active)
    if not active then pure true else do
      modify (λ d. record d { pend = record (d.pend) { active = false } })
      ended ← wait_simple
      if not ended then pure false else do
        cycles ← read v (λ r. r.cycles)
        dbg4 ← read v (λ r. r.dbg4)
        p ← gets (λ d. d.pend)
        count_job cycles p.beats (dbg4 / 2 ^ 16)
        if p.amax == 0 then pure true else do
          a ← read v (λ r. r.rq_amax)
          raise_amax p.amax (signed32 a)
          modify (λ d. record d { pend = record (d.pend) { amax = 0 } })
          pure true

  -- dav2_accel_rng_next
  unfoldable pub rng_next : RngCfg → Action (Unit {0})
  rng_next c = modify (λ d. record d {
    rng_cfg = c;
    rng_armed =
        not (ltb_ℤ c.beta_sh (pos 0))
        && not (ltb_ℤ (pos 31) c.beta_sh)
        && not (ltb_ℤ c.es (negsuc 32767))
        && not (ltb_ℤ (pos 32767) c.es)
        && not (ltb_ℤ c.eb (negsuc 32767))
        && not (ltb_ℤ (pos 32767) c.eb)
        && (c.s % 4 == 0)
        && (c.b % 4 == 0);
  })

  -- dav2_accel_rng_get: the bounds as words, vmax before vmin.
  unfoldable pub rng_get : Action (Option (ℕ × ℕ))
  rng_get = do
    valid ← gets (λ d. d.rng_valid && not d.pend.active)
    if not valid then pure none else do
      modify (λ d. record d { rng_valid = false })
      xhi ← read v (λ r. r.rng_vmax_hi)
      xlo ← read v (λ r. r.rng_vmax_lo)
      nhi ← read v (λ r. r.rng_vmin_hi)
      nlo ← read v (λ r. r.rng_vmin_lo)
      pure (some (xhi * 2 ^ 32 + xlo, nhi * 2 ^ 32 + nlo))
