-- ===== src/Accel/Requant.antt =====
-- Requantisation: accel_requant_rows of src/sw/project/dav2_accel.c, and the operations on int32 sums
-- that call it.
use risc_v_vi_t_accelerator.Base.{
  ℕ, zero, suc, ◌+◌, ◌-◌, ◌*◌, ◌/◌, Bool, true, false, not, ◌&&◌, ◌==◌, ltb, leb, if◌then◌else◌, [],
  ◌∷◌, ℤ, pos, negsuc, signed32,
}
use risc_v_vi_t_accelerator.Accel.{
  Env, Action, pure, ◌>>=◌, ◌>>◌, gets, write_all, write_ctrl, read, load_int, store_int, flag,
  ored,
}
use risc_v_vi_t_accelerator.Accel.Wait.{
  maybe_defer, raise_amax, count_job, accel_init, wait_simple, finish,
}
use risc_v_vi_t_accelerator.Accel.Run.{set_defer}
use risc_v_vi_t_accelerator.Accel.Rows.{
  Epi, no_epi, Rows, given, rows_ctrl, rows_regs, rows_tile_regs, rows_beats, rows_ok,
  set_out_stride, epi_ok,
}

module _ (v : Env) where
  -- `for (n0 = 0; n0 < N; n0 += nc_max)` from n0 on; `load` while the table is still to be read.
  unfoldable pub rows_tiles : Rows → ℕ → ℕ → ℕ → Bool → ℕ → Action ℕ
  rows_tiles r orow ipitch zero load n0 = pure 1
  rows_tiles r orow ipitch (suc left) load n0 = do
    nrows ← gets (λ d. d.nrows)
    base ← gets (λ d. d.cr_base)
    let nc = if ltb nrows (r.n - n0) then nrows else r.n - n0
    let beats = rows_beats r load nc
    if not (ltb n0 r.n) then pure 1 else do
      write_all v (rows_tile_regs r orow ipitch base n0 nc)
      write_ctrl v (ored (rows_ctrl r ∷ flag load 0x40 ∷ []))
      deferred ← maybe_defer (leb r.n (n0 + nc)) beats r.amax
      if deferred then pure 2 else do
        ended ← wait_simple v
        if not ended then pure 0 else do
          cycles ← read v (λ r. r.cycles)
          count_job cycles beats 0
          a ← read v (λ r. r.rq_amax)
          raise_amax r.amax (signed32 a)
          rows_tiles r orow ipitch left false (n0 + nrows)

  -- accel_requant_rows
  unfoldable pub requant_rows : Rows → Action ℕ
  requant_rows r = do
    settled ← finish v
    if not settled then pure 0 else do
      out_stride ← gets (λ d. d.out_stride)
      in_pitch ← gets (λ d. d.in_pitch)
      let orow = if out_stride == 0 then r.m else out_stride
      let ipitch = if in_pitch == 0 then r.n * (if r.a16 then 2 else 4) else in_pitch
      write_all v (rows_regs r orow ipitch)
      rows_tiles r orow ipitch r.n (given r.epi.lut && r.epi.lut_load) 0

  -- `for (m0 = 0; m0 < M; m0 += mc_max)`: chunks of at most mc_max rows, from m0 on.
  unfoldable pub requant_chunks : Rows → ℕ → ℕ → ℕ → Action ℕ
  requant_chunks r mc_max zero m0 = pure 1
  requant_chunks r mc_max (suc left) m0 =
      let mc = if ltb mc_max (r.m - m0) then mc_max else r.m - m0 in
      if not (ltb m0 r.m) then pure 1 else do
        c ← requant_rows (record r { m0 = m0; mc = mc })
        if c == 0 then pure 0 else requant_chunks r mc_max left (m0 + mc_max)

  -- dav2_accel_requant: whether it was done, and the largest output, -1 when there is none.
  unfoldable pub requant : ℕ → ℕ → ℕ → ℕ → ℕ → Action (ℕ × ℤ)
  requant acc n m params out = do
    ok ← accel_init v
    kmax ← gets (λ d. d.kmax)
    if not (ok && rows_ok acc n m params out) then pure (0, negsuc 0) else do
      store_int v.local_amax (pos 0)
      r ←
          requant_chunks
            (record {
              acc = acc;
              n = n;
              m = m;
              m0 = 0;
              mc = 0;
              params = params;
              out = out;
              amax = v.local_amax;
              epi = no_epi;
              a16 = false;
            })
            (kmax / 2 / 2 * 2) m 0
      amax ← load_int v.local_amax
      pure (if r == 0 then (0, negsuc 0) else (1, amax))

  -- dav2_accel_requant_stride
  unfoldable pub requant_stride : ℕ → ℕ → ℕ → ℕ → ℕ → ℕ → Action (ℕ × ℤ)
  requant_stride acc n m params out out_stride = do
    set_out_stride out_stride
    r ← requant acc n m params out
    set_out_stride 0
    pure r

  -- dav2_accel_requant_rows_async
  unfoldable pub requant_rows_async : ℕ → ℕ → ℕ → ℕ → ℕ → ℕ → ℕ → ℕ → Epi → Action ℕ
  requant_rows_async acc n m m0 mc params out amax e = do
    ok ← accel_init v
    fits ← gets (λ d. epi_ok d n m m0 mc e)
    if not (ok && rows_ok acc n m params out && fits) then pure 0 else do
      set_defer true
      r ← requant_rows (record {
        acc = acc;
        n = n;
        m = m;
        m0 = m0;
        mc = mc;
        params = params;
        out = out;
        amax = amax;
        epi = e;
        a16 = false;
      })
      set_defer false
      pure r
