-- ===== src/Accel/Special.antt =====
-- The interpolation job and the two LayerNorm jobs: dav2_accel_lerp_async, dav2_accel_ln_a and
-- dav2_accel_ln_b of src/sw/project/dav2_accel.c.
use risc_v_vi_t_accelerator.Base.{
  ℕ, ◌+◌, ◌*◌, ◌/◌, ◌%◌, ◌^◌, Bool, true, false, not, ◌&&◌, ◌||◌, ◌==◌, ltb, if◌then◌else◌, Option,
  none, some, List, [], ◌∷◌, u32, ℤ, pos, bits32, signed32, ltb_ℤ,
}
use risc_v_vi_t_accelerator.Emulator.{aligned}
use risc_v_vi_t_accelerator.Accel.{
  Driver, Env, Action, Reg, pure, ◌>>=◌, ◌>>◌, gets, modify, write_all, write_ctrl, read, ored,
}
use risc_v_vi_t_accelerator.Accel.Wait.{maybe_defer, count_job, accel_init, wait_simple, finish}
use risc_v_vi_t_accelerator.Accel.Run.{set_defer}

-- The limits of dav2_accel_lerp_async.
unfoldable pub lerp_sizes_ok : ℕ → ℕ → ℕ → ℕ → ℕ → ℤ → Bool
lerp_sizes_ok kmax t row_stride out n w = not (
    ltb n 4
    || not (aligned n)
    || ltb kmax n
    || ltb_ℤ w (pos 0)
    || ltb_ℤ (pos 255) w
    || row_stride == 0
    || not (aligned row_stride)
    || not (aligned t && aligned out))

unfoldable pub lerp_regs : ℕ → ℕ → ℕ → ℕ → ℤ → List (Reg × ℕ)
lerp_regs t row_stride out n w =
    (Reg.a_addr, t)
    ∷ (Reg.a_stride, row_stride)
    ∷ (Reg.w_addr, t)
    ∷ (Reg.w_stride, 0)
    ∷ (Reg.c_addr, out)
    ∷ (Reg.c_stride, 0)
    ∷ (Reg.s_addr, 0)
    ∷ (Reg.k_len, n)
    ∷ (Reg.m_len, 1)
    ∷ (Reg.n_rows, 2)
    ∷ (Reg.add_mx, bits32 w)
    ∷ []

-- The arguments of dav2_accel_ln_a.
pub record LayerA : Type 0 where
  pub x : ℕ
  pub x_pitch : ℕ
  pub n : ℕ
  pub c : ℕ
  pub tokpar : ℕ
  pub g : ℕ
  pub b : ℕ
  pub zs : ℕ

unfoldable pub ln_a_ok : Driver → LayerA → Bool
ln_a_ok d j = not (
    ltb j.n 1
    || ltb d.nrows j.n
    || ltb j.c 2
    || j.c % 2 == 1
    || ltb d.kmax j.c
    || not (j.zs / 2 ^ 25 == 0)
    || ltb j.x_pitch (u32 (u32 j.c * 2))
    || not (aligned j.x && aligned j.tokpar && aligned j.g && aligned j.b && aligned j.x_pitch))

unfoldable pub ln_a_regs : LayerA → List (Reg × ℕ)
ln_a_regs j =
    (Reg.a_addr, j.x)
    ∷ (Reg.a_stride, j.x_pitch)
    ∷ (Reg.k_len, j.c)
    ∷ (Reg.n_rows, j.n)
    ∷ (Reg.m_len, j.n)
    ∷ (Reg.p_addr, j.tokpar)
    ∷ (Reg.w_addr, j.g)
    ∷ (Reg.x_addr, j.b)
    ∷ (Reg.ln_zs, j.zs)
    ∷ []

-- The arguments of dav2_accel_ln_b.
pub record LayerB : Type 0 where
  pub n : ℕ
  pub c : ℕ
  pub out : ℕ
  pub out_pitch : ℕ
  pub fm : ℤ
  pub invm : ℤ
  pub shift : ℤ
  pub rr : ℤ
  pub bsr : ℤ

unfoldable pub ln_b_ok : Driver → LayerB → Bool
ln_b_ok d j =
    d.ln_ok
    && (d.ln_a_jobs == d.jobs)
    && not (
        d.pend.active
        || ltb_ℤ j.shift (pos 1)
        || ltb_ℤ (pos 62) j.shift
        || ltb_ℤ j.rr (pos 0)
        || ltb_ℤ (pos 31) j.rr
        || ltb_ℤ j.bsr (pos 1)
        || ltb_ℤ (pos 30) j.bsr
        || ltb j.out_pitch (u32 (u32 j.c * 2))
        || not (aligned j.out && aligned j.out_pitch))

unfoldable pub ln_b_regs : LayerB → List (Reg × ℕ)
ln_b_regs j =
    (Reg.c_addr, j.out)
    ∷ (Reg.c_stride, j.out_pitch)
    ∷ (Reg.k_len, j.c)
    ∷ (Reg.n_rows, j.n)
    ∷ (Reg.ln_fm, bits32 j.fm)
    ∷ (Reg.ln_invm, bits32 j.invm)
    ∷ (Reg.ln_sh, ored (bits32 j.shift ∷ bits32 j.rr * 2 ^ 8 ∷ bits32 j.bsr * 2 ^ 16 ∷ []))
    ∷ []

-- ln_a_jobs = x; `~0ul` when phase B may not run.
unfoldable pub set_ln_a_jobs : ℕ → Action (Unit {0})
set_ln_a_jobs x = modify (λ d. record d { ln_a_jobs = x })

abbrev pub no_phase_a : ℕ
no_phase_a = 0xffffffff

module _ (v : Env) where
  -- dav2_accel_lerp_async
  unfoldable pub lerp_async : ℕ → ℕ → ℕ → ℕ → ℤ → Action ℕ
  lerp_async t row_stride out n w = do
    ok ← accel_init v
    fits ← gets (λ d. d.lerp_ok && lerp_sizes_ok d.kmax t row_stride out n w)
    if not (ok && fits) then pure 0 else do
      settled ← finish v
      if not settled then pure 0 else do
        write_all v (lerp_regs t row_stride out n w)
        write_ctrl v 0x80001
        set_defer true
        deferred ← maybe_defer true (n + n / 2) 0
        set_defer false
        if deferred then pure 2 else do ended ← wait_simple v; pure (if ended then 1 else 0)

  -- dav2_accel_ln_a: `some` the largest magnitude when the job was done.
  unfoldable pub ln_a : LayerA → Action (Option ℕ)
  ln_a j = do
    set_ln_a_jobs no_phase_a
    ok ← accel_init v
    fits ← gets (λ d. d.ln_ok && ln_a_ok d j)
    if not (ok && fits) then pure none else do
      settled ← finish v
      if not settled then pure none else do
        write_all v (ln_a_regs j)
        write_ctrl v 0x100001
        ended ← wait_simple v
        if not ended then pure none else do
          cycles ← read v (λ r. r.cycles)
          count_job cycles (3 * j.n + 2 * j.c + j.n * j.c / 2) 0
          hi ← read v (λ r. r.ln_ymax_hi)
          lo ← read v (λ r. r.ln_ymax_lo)
          jobs ← gets (λ d. d.jobs)
          set_ln_a_jobs jobs
          pure (some (hi * 2 ^ 32 + lo))

  -- dav2_accel_ln_b: `some` the largest output when the job was done.
  unfoldable pub ln_b : LayerB → Action (Option ℤ)
  ln_b j = do
    ok ← accel_init v
    fits ← gets (λ d. ln_b_ok d j)
    if not (ok && fits) then pure none else do
      set_ln_a_jobs no_phase_a
      write_all v (ln_b_regs j)
      write_ctrl v 0x300001
      ended ← wait_simple v
      if not ended then pure none else do
        cycles ← read v (λ r. r.cycles)
        count_job cycles (j.n * j.c / 2) 0
        amax ← read v (λ r. r.rq_amax)
        pure (some (signed32 amax))
