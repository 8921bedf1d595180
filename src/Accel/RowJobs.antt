-- ===== src/Accel/RowJobs.antt =====
-- The operations of src/sw/project/dav2_accel.c that are one requantisation of all rows: with a
-- table, with an output pitch, from the result RAM, the exponential, the normalisation, the
-- transposition and the int16 input.
use risc_v_vi_t_accelerator.Base.{
  ℕ, zero, suc, ◌+◌, ◌*◌, ◌/◌, ◌%◌, Bool, true, false, not, ◌&&◌, ◌||◌, ◌==◌, ltb, if◌then◌else◌,
  u32, ℤ, pos, negsuc, eqb_ℤ,
}
use risc_v_vi_t_accelerator.Emulator.{aligned}
use risc_v_vi_t_accelerator.Accel.{
  Driver, Env, Action, pure, ◌>>=◌, ◌>>◌, gets, modify, load_int, store_int,
}
use risc_v_vi_t_accelerator.Accel.Wait.{accel_init, finish}
use risc_v_vi_t_accelerator.Accel.Run.{set_defer}
use risc_v_vi_t_accelerator.Accel.Rows.{Epi, no_epi, Rows, rows_ok, set_out_stride, set_in_pitch}
use risc_v_vi_t_accelerator.Accel.Requant.{requant_rows, requant_chunks}

-- TP_MAX
abbrev pub tp_max : ℕ
tp_max = 256

-- The identity parameters {2^30, 30, 0} from address p on.
unfoldable pub fill_identity : ℕ → ℕ → Action (Unit {0})
fill_identity p zero = pure tt
fill_identity p (suc left) = do
  store_int p (pos 0x40000000)
  store_int (p + 4) (pos 30)
  store_int (p + 8) (pos 0)
  fill_identity (p + 12) left

-- accel_rq_onchip = on; accel_cr_base = base;
unfoldable pub set_onchip : Bool → ℕ → Action (Unit {0})
set_onchip on base = modify (λ d. record d { rq_onchip = on; cr_base = base })

-- accel_rq_msums = p;
unfoldable pub set_msums : ℕ → Action (Unit {0})
set_msums p = modify (λ d. record d { rq_msums = p })

-- An int32 job on all m rows.
abbrev all_rows : ℕ → ℕ → ℕ → ℕ → ℕ → ℕ → Epi → Rows
all_rows acc n m params out amax e = record {
  acc = acc;
  n = n;
  m = m;
  m0 = 0;
  mc = m;
  params = params;
  out = out;
  amax = amax;
  epi = e;
  a16 = false;
}

-- The limits on an output pitch of out_stride elements.
unfoldable pub stride_ok : ℕ → ℕ → ℕ → Bool
stride_ok kmax m out_stride = not (ltb (kmax / 2) m || out_stride % 2 == 1 || ltb out_stride m)

-- The result RAM holds n m words from cr_base on.
unfoldable pub cr_ok : ℕ → ℕ → ℕ → Driver → Bool
cr_ok cr_base n m d = d.onchip_ok && d.attcr_ok && not (ltb 131_072 (u32 (cr_base + u32 n * u32 m)))

module _ (v : Env) where
  -- A job with its output rows out_stride elements and its input rows in_pitch bytes apart, left
  -- running.
  unfoldable pub pitched : ℕ → ℕ → Rows → Action ℕ
  pitched in_pitch out_stride rows = do
    set_in_pitch in_pitch
    set_out_stride out_stride
    set_defer true
    r ← requant_rows v rows
    set_defer false
    set_out_stride 0
    set_in_pitch 0
    pure r

  -- dav2_accel_requant_lut_async
  unfoldable pub requant_lut_async : ℕ → ℕ → ℕ → ℕ → ℕ → ℕ → ℕ → Bool → Action ℕ
  requant_lut_async acc n m params out out_stride lut lut_load = do
    ok ← accel_init v
    d ← gets (λ d. d)
    let e : Epi = record no_epi {
      lut = lut;
      lut_load = lut_load;
      onchip = d.rq_onchip;
      msums = d.rq_msums;
    }
    if not (
          ok
          && d.lut_ok
          && rows_ok acc n m params out
          && stride_ok d.kmax m out_stride
          && aligned lut
          && (d.rq_msums == 0 || (d.smx_ok && not (ltb d.nrows n) && aligned d.rq_msums)))
        then pure 0
        else do
          set_out_stride out_stride
          set_defer true
          r ← requant_rows v (all_rows acc n m params out v.lut_sink e)
          set_defer false
          set_out_stride 0
          pure r

  -- dav2_accel_requant_stride_async
  unfoldable pub requant_stride_async : ℕ → ℕ → ℕ → ℕ → ℕ → ℕ → Action ℕ
  requant_stride_async acc n m params out out_stride = do
    ok ← accel_init v
    d ← gets (λ d. d)
    if not (ok && rows_ok acc n m params out && stride_ok d.kmax m out_stride) then pure 0 else do
      set_out_stride out_stride
      set_defer true
      r ←
          requant_rows v
            (all_rows acc n m params out v.stride_sink (record no_epi { onchip = d.rq_onchip }))
      set_defer false
      set_out_stride 0
      pure r

  -- dav2_accel_requant_lut_cr_async
  unfoldable pub requant_lut_cr_async : ℕ → ℕ → ℕ → ℕ → ℕ → ℕ → ℕ → Bool → Action ℕ
  requant_lut_cr_async cr_base n m params out out_stride lut lut_load = do
    ok ← accel_init v
    fits ← gets (cr_ok cr_base n m)
    if not (ok && fits) then pure 0 else do
      set_onchip true cr_base
      r ← requant_lut_async 0 n m params out out_stride lut lut_load
      set_onchip false 0
      pure r

  -- dav2_accel_requant_stride_cr_async
  unfoldable pub requant_stride_cr_async : ℕ → ℕ → ℕ → ℕ → ℕ → ℕ → Action ℕ
  requant_stride_cr_async cr_base n m params out out_stride = do
    ok ← accel_init v
    fits ← gets (cr_ok cr_base n m)
    if not (ok && fits) then pure 0 else do
      set_onchip true cr_base
      r ← requant_stride_async 0 n m params out out_stride
      set_onchip false 0
      pure r

  -- dav2_accel_exp_async
  unfoldable pub exp_async : ℕ → ℕ → ℕ → ℕ → ℕ → ℕ → ℕ → ℕ → Bool → ℕ → Action ℕ
  exp_async acc cr_base n m params out out_stride lut lut_load msums = do
    ok ← accel_init v
    smx_ok ← gets (λ d. d.smx_ok)
    if not (ok && smx_ok && not (msums == 0)) then pure 0 else do
      set_msums msums
      r ←
          if acc == 0
          then requant_lut_cr_async cr_base n m params out out_stride lut lut_load
          else requant_lut_async acc n m params out out_stride lut lut_load
      set_msums 0
      pure r

  -- The limits of an int16 input of n columns, an even number, and m rows.
  unfoldable pub int16_ok : Driver → ℕ → ℕ → ℕ → ℕ → ℕ → ℕ → Bool
  int16_ok d input in_pitch n m out out_stride =
      d.a16_ok
      && not (ltb n 2 || ltb m 2 || n % 2 == 1 || m % 2 == 1)
      && stride_ok d.kmax m out_stride
      && not (ltb in_pitch (u32 n * 2))
      && (aligned input && aligned out && aligned in_pitch)

  -- dav2_accel_transpose16_async
  unfoldable pub transpose16_async : ℕ → ℕ → ℕ → ℕ → ℕ → ℕ → Action ℕ
  transpose16_async input in_pitch n m out out_stride = do
    ok ← accel_init v
    d ← gets (λ d. d)
    if not (ok && d.tp_ok && not (ltb tp_max m) && int16_ok d input in_pitch n m out out_stride)
        then pure 0
        else do
          first ← load_int v.tp_par
          if eqb_ℤ first (pos 0) then fill_identity v.tp_par tp_max else pure tt
          pitched in_pitch out_stride
              (record (all_rows input n m v.tp_par out v.tp_sink no_epi) { a16 = true })

  -- dav2_accel_norm16_async
  unfoldable pub norm16_async : ℕ → ℕ → ℕ → ℕ → ℕ → ℕ → ℕ → Action ℕ
  norm16_async input in_pitch n m params out out_stride = do
    ok ← accel_init v
    d ← gets (λ d. d)
    if not (
          ok
          && d.smx_ok
          && not (ltb d.nrows n)
          && int16_ok d input in_pitch n m out out_stride
          && aligned params)
        then pure 0
        else pitched in_pitch out_stride
            (record (all_rows input n m params out v.norm_sink
              (record no_epi { nparam = true; sat16 = true })) { a16 = true })

  -- dav2_accel_requant16: whether it was done, and the largest output.
  unfoldable pub requant16 : ℕ → ℕ → ℕ → ℕ → ℕ → ℕ → Action (ℕ × ℤ)
  requant16 input n m params out ostats = do
    ok ← accel_init v
    d ← gets (λ d. d)
    if not (
          ok
          && d.a16_ok
          && not (n % 2 == 1 || m % 2 == 1 || ltb n 2 || ltb m 2)
          && not (not (ostats == 0) && (not d.ostats_ok || ltb (d.kmax / 2) m))
          && (aligned input && aligned params && aligned out))
        then pure (0, negsuc 0)
        else do
          store_int v.local_amax (pos 0)
          r ←
              requant_chunks v
                (record (all_rows input n m params out v.local_amax
                  (record no_epi { ostats = ostats })) { a16 = true })
                (d.kmax / 2 / 2 * 2) m 0
          if r == 0 then pure (0, negsuc 0) else do
            settled ← finish v
            amax ← load_int v.local_amax
            pure (if settled then (1, amax) else (0, negsuc 0))
