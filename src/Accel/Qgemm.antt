-- ===== src/Accel/Qgemm.antt =====
-- Products with int8 weights: dav2_accel_gemm_raw and dav2_accel_qgemm of
-- src/sw/project/dav2_accel.c, the operations that leave their last job running, and the product
-- into the result RAM.
use risc_v_vi_t_accelerator.Base.{
  ℕ, zero, suc, ◌+◌, ◌-◌, ◌*◌, ◌/◌, Bool, true, false, not, ◌&&◌, ◌||◌, ◌==◌, ltb, leb,
  if◌then◌else◌, u32,
}
use risc_v_vi_t_accelerator.Emulator.{aligned}
use risc_v_vi_t_accelerator.Accel.{
  Env, Action, pure, ◌>>=◌, ◌>>◌, gets, null_or, alloc, mark, release,
}
use risc_v_vi_t_accelerator.Accel.Wait.{rng_begin, rng_end, accel_init}
use risc_v_vi_t_accelerator.Accel.Run.{
  Product, Stats, no_stats, add_parts, set_gemm_ctrl, set_defer, accel_run,
}

-- The contract of dav2_accel_gemm_raw.
unfoldable pub raw_ok : Product → ℕ → Bool
raw_ok p kmax =
    not (ltb p.k 4 || not (aligned p.k) || ltb kmax p.k || ltb p.n 1 || ltb p.m 1)
    && (aligned p.a && aligned p.w && aligned p.acc && aligned p.a_stride && aligned p.w_stride)

module _ (v : Env) where
  -- dav2_accel_gemm_raw: a product on pointers with row strides.
  unfoldable pub gemm_raw : Product → Action ℕ
  gemm_raw p = do
    ok ← accel_init v
    kmax ← gets (λ d. d.kmax)
    if ok && raw_ok p kmax then accel_run v (record p { stats = 0 }) else pure 0

  -- dav2_accel_gemm_raw_async
  unfoldable pub gemm_raw_async : Product → Action ℕ
  gemm_raw_async p = do set_defer true; r ← gemm_raw p; set_defer false; pure r

  -- Chunks of at most kc columns of a long reduction, from k0 on.
  unfoldable pub qgemm_chunks : Product → ℕ → ℕ → ℕ → ℕ → Action ℕ
  qgemm_chunks p part kc_max zero k0 = pure 1
  qgemm_chunks p part kc_max (suc left) k0 =
      let kc = if ltb kc_max (p.k - k0) then kc_max else p.k - k0 in
      let chunk : Product = record {
        a = p.a + k0 * 2;
        a_stride = u32 p.k * 2;
        w = p.w + k0;
        w_stride = p.k;
        acc = if k0 == 0 then p.acc else part;
        n = p.n;
        k = kc;
        m = p.m;
        stats = 0;
      } in
      if not (ltb k0 p.k) then pure 1 else do
        r ← accel_run v chunk
        if r == 0 then pure 0 else do
          if k0 == 0 then pure tt else add_parts p.acc part (p.n * p.m)
          qgemm_chunks p part kc_max left (k0 + kc_max)

  -- dav2_accel_qgemm's split of a reduction longer than the block's tile.
  unfoldable pub qgemm_split : Product → Action (ℕ × Stats)
  qgemm_split p = do
    m ← mark
    kmax ← gets (λ d. d.kmax)
    part ← alloc (p.n * p.m * 4)
    null_or part (release m >> pure (0, no_stats)) (λ q. do
      saved ← gets (λ d. d.defer)
      set_defer false
      r ← qgemm_chunks p q (kmax / 4 * 4) p.k 0
      set_defer saved
      release m
      pure (r, no_stats))

  -- The rows' statistics in the arena, when they are asked for and there is room.
  unfoldable pub alloc_stats : Bool → ℕ → ℕ → Action Stats
  alloc_stats wanted tiles m = if not wanted then pure no_stats else do
    p ← alloc (tiles * m * 2 * 4)
    null_or p (pure no_stats) (λ q. pure (record { v = q; tiles = tiles }))

  -- dav2_accel_qgemm of a reduction that fits in the block's tile.
  unfoldable pub qgemm_whole : Product → Bool → Action (ℕ × Stats)
  qgemm_whole p wanted = do
    nrows ← gets (λ d. d.nrows)
    st ← alloc_stats wanted ((p.n + nrows - 1) / nrows) p.m
    r ← accel_run v (record p { stats = st.v })
    pure (r, if r == 0 then no_stats else st)

  -- dav2_accel_qgemm of n rows of k activations at a, with m rows of weights at w; `wanted` when
  -- the caller asks for statistics.
  unfoldable pub accel_qgemm : ℕ → ℕ → ℕ → ℕ → ℕ → ℕ → Bool → Action (ℕ × Stats)
  accel_qgemm a w acc n k m wanted = do
    ok ← accel_init v
    kmax ← gets (λ d. d.kmax)
    let p : Product = record {
      a = a;
      a_stride = 0;
      w = w;
      w_stride = 0;
      acc = acc;
      n = n;
      k = k;
      m = m;
      stats = 0;
    }
    if not ok
          || ltb k 4
          || not (aligned k)
          || ltb n 1
          || ltb m 1
          || not (aligned a && aligned w && aligned acc)
        then pure (0, no_stats)
        else if leb k kmax
        then qgemm_whole p wanted
        else qgemm_split p

  -- dav2_accel_qgemm_async
  unfoldable pub qgemm_async : ℕ → ℕ → ℕ → ℕ → ℕ → ℕ → Bool → Action (ℕ × Stats)
  qgemm_async a w acc n k m wanted = do
    rng_begin m
    set_defer true
    r ← accel_qgemm a w acc n k m wanted
    set_defer false
    rng_end r.0
    pure r

  -- dav2_accel_qgemm_onchip_async
  unfoldable pub qgemm_onchip_async : ℕ → ℕ → ℕ → ℕ → ℕ → Action (ℕ × Stats)
  qgemm_onchip_async a w n k m = do
    ok ← accel_init v
    onchip_ok ← gets (λ d. d.onchip_ok)
    kmax ← gets (λ d. d.kmax)
    nrows ← gets (λ d. d.nrows)
    if not (ok && onchip_ok)
        then pure (0, no_stats)
        else if ltb k 4
            || not (aligned k)
            || ltb kmax k
            || ltb n 1
            || ltb m 1
            || ltb nrows n
            || ltb 131_072 (n * m)
        then pure (0, no_stats)
        else if not (aligned a && aligned w)
        then pure (0, no_stats)
        else do
          stats ← alloc (m * 2 * 4)
          null_or stats (pure (0, no_stats)) (λ q. do
            rng_begin m
            set_defer true
            set_gemm_ctrl 0x400
            r ← accel_run v (record {
              a = a;
              a_stride = 0;
              w = w;
              w_stride = 0;
              acc = 0;
              n = n;
              k = k;
              m = m;
              stats = q;
            })
            set_gemm_ctrl 0
            rng_end r
            set_defer false
            pure (r, if r == 0 then no_stats else record { v = q; tiles = 1 }))
