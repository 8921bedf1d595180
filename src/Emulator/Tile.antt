-- ===== src/Emulator/Tile.antt =====
-- The A tile of a job: a_elem_mem and a_snapshot of src/sw/project/host/accel_emu.c.
use risc_v_vi_t_accelerator.Base.{
  ℕ, ◌+◌, ◌*◌, ◌/◌, ◌%◌, Bool, not, ◌&&◌, ◌||◌, ◌==◌, if◌then◌else◌, u32, ℤ, pos, ltb_ℤ, ◌-ℤ◌, ◌+ℤ◌,
  pos_part, signed32, for_range,
}
use risc_v_vi_t_accelerator.Emulator.{Memory, Ints, Job, Emu, load16, bits_at}

-- Row t of a matrix in memory.
unfoldable pub a_plain : Job → Memory → ℕ → ℕ → ℤ
a_plain j mem t kk =
    let stride = if j.a_stride == 0 then u32 (j.k * 2) else j.a_stride in
    load16 mem (u32 (j.a_addr + u32 (t * stride)) + 2 * kk)

-- The image row and column that a kernel position reads, which may lie outside the image.
unfoldable pub gather_y : Job → ℕ → ℕ → ℤ
gather_y j t kk =
    let ow = bits_at j.g_chan 16 16 in
    let c = bits_at j.g_chan 0 16 in
    let ks = bits_at j.g_conv 0 4 in
    let pix = u32 (bits_at j.g_start 16 16 * ow + bits_at j.g_start 0 16 + t) in
    let lin = bits_at j.g_conv 12 4 * ks + bits_at j.g_conv 16 4 + kk / c in
    signed32 (u32 (pix / ow * bits_at j.g_conv 4 4)) +ℤ pos (lin / ks) -ℤ pos (bits_at j.g_conv 8 4)

unfoldable pub gather_x : Job → ℕ → ℕ → ℤ
gather_x j t kk =
    let ow = bits_at j.g_chan 16 16 in
    let c = bits_at j.g_chan 0 16 in
    let ks = bits_at j.g_conv 0 4 in
    let pix = u32 (bits_at j.g_start 16 16 * ow + bits_at j.g_start 0 16 + t) in
    let lin = bits_at j.g_conv 12 4 * ks + bits_at j.g_conv 16 4 + kk / c in
    signed32 (u32 (pix % ow * bits_at j.g_conv 4 4)) +ℤ pos (lin % ks) -ℤ pos (bits_at j.g_conv 8 4)

-- `iy < 0 || iy >= h || ix < 0 || ix >= w`
abbrev pub outside : Job → ℤ → ℤ → Bool
outside j iy ix =
    ltb_ℤ iy (pos 0)
    || not (ltb_ℤ iy (pos (bits_at j.g_geom 16 16)))
    || ltb_ℤ ix (pos 0)
    || not (ltb_ℤ ix (pos (bits_at j.g_geom 0 16)))

-- Row t is output pixel g_start + t, and column kk = pos C + c is channel c of a kernel position.
unfoldable pub a_gather : Job → Memory → ℕ → ℕ → ℤ
a_gather j mem t kk =
    let w = bits_at j.g_geom 0 16 in
    let c = bits_at j.g_chan 0 16 in
    let iy = gather_y j t kk in
    let ix = gather_x j t kk in
    let v = load16 mem (j.g_addr + 2 * u32 (u32 (pos_part iy * w + pos_part ix) * c + kk % c)) in
    if outside j iy ix then pos 0 else if j.grelu && ltb_ℤ v (pos 0) then pos 0 else v

unfoldable pub a_elem_mem : Job → Memory → ℕ → ℕ → ℤ
a_elem_mem j mem t kk = if j.gather then a_gather j mem t kk else a_plain j mem t kk

unfoldable pub a_snapshot : Emu → Emu
a_snapshot e =
    let snap =
      for_range e.job.n 0
        (λ t. for_range e.job.k 0 (λ kk (snap : Ints) i.
          if t * e.job.k + kk == i then a_elem_mem e.job e.mem t kk else snap i))
        e.a_snap in
    record e { a_snap = snap }

unfoldable pub a_elem : Emu → ℕ → ℕ → ℤ
a_elem e t kk = e.a_snap (t * e.job.k + kk)
