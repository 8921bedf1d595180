-- ===== src/Emulator/Decode.antt =====
-- The job that a write of CTRL describes: the decoding in latch of src/sw/project/host/accel_emu.c.
use risc_v_vi_t_accelerator.Base.{ℕ, ◌%◌, ◌^◌, true, false, not, ◌&&◌, if◌then◌else◌}
use risc_v_vi_t_accelerator.Emulator.{Regs, Job, bit, bits_at}

-- The job after memset(&job, 0, sizeof job).
abbrev pub zero_job : Job
zero_job = record {
  busy = false;
  requant = false;
  gather = false;
  add = false;
  relu = false;
  lut = false;
  lut_load = false;
  a16 = false;
  w16 = false;
  ostats = false;
  onchip = false;
  osums = false;
  grelu = false;
  lutint = false;
  lerp = false;
  ln = false;
  lnb = false;
  rng = false;
  rngl = false;
  dpar = false;
  msums = false;
  nparam = false;
  sat16 = false;
  wsh = 0;
  dp_fk = 0;
  dp_gb = 0;
  dp_sh = 0;
  dp_m0 = 0;
  rng_beta_m = 0;
  rng_beta_sh = 0;
  ln_zs = 0;
  ln_fm = 0;
  ln_invm = 0;
  ln_sh = 0;
  lut_addr = 0;
  x_addr = 0;
  add_mx = 0;
  add_mh = 0;
  add_shift = 0;
  a_addr = 0;
  a_stride = 0;
  w_addr = 0;
  w_stride = 0;
  c_addr = 0;
  c_stride = 0;
  s_addr = 0;
  p_addr = 0;
  k = 0;
  m = 0;
  n = 0;
  g_addr = 0;
  g_geom = 0;
  g_chan = 0;
  g_conv = 0;
  g_start = 0;
  m_done = 0;
  writes = 0;
}

-- The flags that are decoded from CTRL before the first checks, with LUT_ADDR.
unfoldable pub job_flags : ℕ → Regs → Job
job_flags ctrl r =
    let requant = bit ctrl 1 in
    let ln = bit ctrl 20 && not requant in
    let gather = bit ctrl 2 && not requant && not ln in
    let lut = bit ctrl 5 && requant in
    let w16 = bit ctrl 8 && not requant in
    let ostats = bit ctrl 9 && requant in
    record zero_job {
      busy = true;
      requant = requant;
      ln = ln;
      lnb = bit ctrl 21 && ln;
      gather = gather;
      add = bit ctrl 3 && requant;
      relu = bit ctrl 4 && requant;
      lut = lut;
      lut_load = bit ctrl 6 && requant;
      lut_addr = r.lut_addr;
      a16 = bit ctrl 7 && requant;
      w16 = w16;
      ostats = ostats;
      onchip = bit ctrl 10;
      osums = bit ctrl 12 && ostats;
      grelu = bit ctrl 13 && gather;
      lerp = bit ctrl 19 && not requant && not gather && not ln;
      wsh = if w16 then bits_at ctrl 14 4 else 0;
      lutint = bit ctrl 18 && lut;
    }

-- The operand registers and the flags that are decoded with them.
unfoldable pub job_operands : ℕ → Regs → Job → Job
job_operands ctrl r j =
    let rng = bit ctrl 22 && not j.requant && not j.ln && not j.lerp in
    let dpar = bit ctrl 24 && j.requant in
    record j {
      x_addr = r.x_addr;
      add_mx = r.add_mult_x;
      add_mh = r.add_mult_h;
      add_shift = r.add_shift;
      a_addr = r.a_addr;
      a_stride = r.a_stride;
      w_addr = r.w_addr;
      w_stride = r.w_stride;
      c_addr = r.c_addr;
      c_stride = r.c_stride;
      s_addr = r.s_addr;
      p_addr = r.p_addr;
      k = r.k_len;
      m = r.m_len;
      n = r.n_rows;
      g_addr = r.g_addr;
      g_geom = r.g_geom;
      g_chan = r.g_chan;
      g_conv = r.g_conv;
      g_start = r.g_start;
      rng = rng;
      rngl = bit ctrl 23 && rng;
      dpar = dpar;
      msums = bit ctrl 25 && j.requant;
      nparam = bit ctrl 26 && j.requant && not dpar;
      sat16 = bit ctrl 27 && j.requant;
      rng_beta_m = r.rng_beta_m;
      rng_beta_sh = r.rng_beta_sh;
      dp_fk = r.dp_fk;
      dp_gb = r.dp_gb;
      dp_sh = r.dp_sh;
      dp_m0 = r.dp_m0 % 2 ^ 11;
      ln_zs = r.ln_zs;
      ln_fm = r.ln_fm;
      ln_invm = r.ln_invm;
      ln_sh = r.ln_sh;
    }
