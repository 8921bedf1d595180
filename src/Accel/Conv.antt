-- ===== src/Accel/Conv.antt =====
-- Convolutions with the gathered image: dav2_accel_conv of src/sw/project/dav2_accel.c and the
-- operations that call it.
use risc_v_vi_t_accelerator.Base.{
  ℕ, zero, suc, ◌+◌, ◌-◌, ◌*◌, ◌/◌, ◌^◌, Bool, true, false, not, ◌&&◌, ◌||◌, ◌==◌, ltb, leb,
  if◌then◌else◌, [], ◌∷◌,
}
use risc_v_vi_t_accelerator.Accel.{
  Env, Action, pure, fault, ◌>>=◌, ◌>>◌, gets, null_or, modify, write_all, write_ctrl, read, alloc,
  mark, release, ored,
}
use risc_v_vi_t_accelerator.Accel.Wait.{
  rng_begin, rng_end, prefill_stats, maybe_defer, count_job, rng_ctrl, accel_init, wait_simple,
  finish,
}
use risc_v_vi_t_accelerator.Accel.Run.{Stats, no_stats, set_defer, add_parts}
use risc_v_vi_t_accelerator.Accel.Image.{
  Image, pixels, positions, image_ok, Plan, make_plan, mode_ok, image_regs, chunk_regs, pixels_read,
  tile_regs, conv_beats, set_conv_relu, set_conv_onchip,
}

module _ (v : Env) where
  -- One tile's registers and start, after a producer of the image has made the rows it reads.
  unfoldable pub start_conv_tile : Plan → ℕ → ℕ → ℕ → ℕ → ℕ → ℕ → Action (Unit {0})
  start_conv_tile p p0 pc dst t n0 nt = do
    v.need (pixels_read p.image (n0 + nt - 1))
    write_all v (image_regs p)
    write_all v (chunk_regs p p0 pc)
    write_all v (tile_regs p dst t n0 nt)
    defer ← gets (λ d. d.defer)
    if not (p.stats == 0) && defer && p.single && leb (pixels p.image) (n0 + nt)
        then prefill_stats (p.stats + t * p.image.m * 2 * 4) p.image.m
        else pure tt
    rng ← rng_ctrl v
    write_ctrl v (ored (p.ctrl ∷ rng ∷ []))

  -- The tiles of one chunk from n0 on.
  unfoldable pub conv_tiles : Plan → ℕ → ℕ → ℕ → ℕ → ℕ → ℕ → Action ℕ
  conv_tiles p p0 pc dst zero t n0 = pure 1
  conv_tiles p p0 pc dst (suc left) t n0 = do
    nrows ← gets (λ d. d.nrows)
    let total = pixels p.image
    let nt = if ltb nrows (total - n0) then nrows else total - n0
    if not (ltb n0 total) then pure 1 else do
      start_conv_tile p p0 pc dst t n0 nt
      deferred ← maybe_defer (p.single && leb total (n0 + nt)) (conv_beats p pc nt) 0
      if deferred then pure 2 else do
        ended ← wait_simple v
        if not ended then pure 0 else do
          cycles ← read v (λ r. r.cycles)
          dbg4 ← read v (λ r. r.dbg4)
          count_job cycles (conv_beats p pc nt) (dbg4 / 2 ^ 16)
          conv_tiles p p0 pc dst left (t + 1) (n0 + nrows)

  -- The chunks of kernel positions from p0 on; the sums of the later ones are added.
  unfoldable pub conv_chunks : Plan → ℕ → ℕ → Action ℕ
  conv_chunks p zero p0 = pure 1
  conv_chunks p (suc left) p0 =
      let i = p.image in
      let pc = if ltb p.pc_max (i.k * i.k - p0) then p.pc_max else i.k * i.k - p0 in
      if not (ltb p0 (i.k * i.k)) then pure 1 else do
        write_all v (chunk_regs p p0 pc)
        r ← conv_tiles p p0 pc (if p0 == 0 then i.acc else p.part) (pixels i) 0 0
        if not (r == 1) then pure r else do
          if p0 == 0 then pure tt else add_parts i.acc p.part (pixels i * i.m)
          conv_chunks p left (p0 + p.pc_max)

  -- The jobs, and what is released: nothing while the statistics are in use.
  unfoldable pub run_plan : Plan → ℕ → Stats → Action (ℕ × Stats)
  run_plan p m st = do
    write_all v (image_regs p)
    r ← conv_chunks p (p.image.k * p.image.k) 0
    if r == 0 || (r == 1 && p.stats == 0) then release m else pure tt
    pure (r, if r == 0 then no_stats else st)

  -- A convolution in one chunk: its statistics, when they are asked for, are in the arena.
  unfoldable pub conv_single : Plan → Bool → Action (ℕ × Stats)
  conv_single p wanted = do
    m ← mark
    nrows ← gets (λ d. d.nrows)
    let tiles = (pixels p.image + nrows - 1) / nrows
    if not wanted then run_plan p m no_stats else do
      stats ← alloc (tiles * p.image.m * 2 * 4)
      null_or stats (if p.onchip then pure (0, no_stats) else run_plan p m no_stats)
          (λ q. run_plan (record p { stats = q }) m (record { v = q; tiles = tiles }))

  -- One in several chunks, whose partial sums are in the arena.
  unfoldable pub conv_split : Plan → Action (ℕ × Stats)
  conv_split p = do
    m ← mark
    part ← alloc (pixels p.image * p.image.m * 4)
    null_or part (release m >> pure (0, no_stats))
        (λ q. run_plan (record p { part = q }) m no_stats)

  -- dav2_accel_conv; `wanted` when the caller asks for statistics.
  unfoldable pub accel_conv : Image → Bool → Action (ℕ × Stats)
  accel_conv i wanted = do
    ok ← accel_init v
    d ← gets (λ d. d)
    if not (ok && d.gather_ok)
        then pure (0, no_stats)
        else if ltb (i.h + 2 * i.pad) i.k || ltb (i.w + 2 * i.pad) i.k || (i.stride == 0)
        then fault
        else if not (image_ok i) || ltb (positions d.kmax i) 1
        then pure (0, no_stats)
        else (do
          settled ← finish v
          d ← gets (λ d. d)
          let p = make_plan d i
          if not settled then pure (0, no_stats) else do
            if p.single then pure tt else modify (λ d. record d { rng_on = false })
            if mode_ok d p wanted
                then (if p.single then conv_single p wanted else conv_split p)
                else pure (0, no_stats))

  -- dav2_accel_conv_async
  unfoldable pub conv_async : Image → Bool → Bool → Action (ℕ × Stats)
  conv_async i wanted in_relu = do
    rng_begin i.m
    set_defer true
    set_conv_relu in_relu
    r ← accel_conv i wanted
    set_conv_relu false
    set_defer false
    rng_end r.0
    pure r

  -- dav2_accel_conv_onchip_async
  unfoldable pub conv_onchip_async : Image → Bool → Action (ℕ × Stats)
  conv_onchip_async i in_relu = do
    ok ← accel_init v
    onchip_ok ← gets (λ d. d.onchip_ok)
    if not (ok && onchip_ok) then pure (0, no_stats) else do
      rng_begin i.m
      set_defer true
      set_conv_onchip true
      set_conv_relu in_relu
      r ← accel_conv (record i { acc = 0 }) true
      rng_end r.0
      set_conv_relu false
      set_conv_onchip false
      set_defer false
      pure r
