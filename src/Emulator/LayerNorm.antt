-- ===== src/Emulator/LayerNorm.antt =====
-- The two phases of a LayerNorm job: ln_phase_a and ln_phase_b of src/sw/project/host/accel_emu.c.
use risc_v_vi_t_accelerator.Base.{
  ℕ, ◌+◌, ◌-◌, ◌*◌, ◌/◌, ◌^◌, true, false, ◌==◌, ltb, if◌then◌else◌, u32, ℤ, pos, ltb_ℤ, ◌+ℤ◌, ◌*ℤ◌,
  ◌>>ℤ◌, pos_part, mag, signed32, bits16, bits32, i32, for_range,
}
use risc_v_vi_t_accelerator.Emulator.{Emu, Ints, load32, store16, bits_at}
use risc_v_vi_t_accelerator.Emulator.Round.{apply_mult}
use risc_v_vi_t_accelerator.Emulator.Tile.{a_elem}
use risc_v_vi_t_accelerator.Emulator.Requant.{clamp}

-- The normalised value of row t at channel c.
unfoldable pub ln_value : Emu → ℕ → ℕ → ℤ
ln_value e t c =
    let par = λ (i : ℕ). load32 e.mem (e.job.p_addr + 4 * i) in
    clamp (pos 8191) (
      i32 (apply_mult (a_elem e t c) (par (3 * t)) (pos_part (par (3 * t + 1)))) +ℤ par (3 * t + 2))

-- The smallest and the largest normalised value of a channel.
unfoldable pub ln_extremes : Emu → ℕ → ℤ × ℤ
ln_extremes e c =
    for_range (e.job.n - 1) 1
      (λ t (s : ℤ × ℤ).
        let z = e.ln_zq (t * e.job.k + c) in
        (if ltb_ℤ z s.0 then z else s.0, if ltb_ℤ s.1 z then z else s.1))
      (e.ln_zq c, e.ln_zq c)

-- |y| of a normalised value at channel c.
unfoldable pub ln_reach : Emu → ℕ → ℤ → ℕ
ln_reach e c z = mag ((z *ℤ (e.ln_g c *ℤ pos (bits_at e.job.ln_zs 0 25)) >>ℤ 31) +ℤ e.ln_b c)

abbrev max_of : ℕ → ℕ → ℕ
max_of a b = if ltb a b then b else a

unfoldable pub ln_phase_a : Emu → Emu
ln_phase_a e =
    let j = e.job in
    let e1 = record e {
      ln_g = λ c. if ltb c j.k then load32 e.mem (j.w_addr + 4 * c) else e.ln_g c;
      ln_b = λ c. if ltb c j.k then load32 e.mem (j.x_addr + 4 * c) else e.ln_b c;
      ln_zq =
          for_range j.n 0
            (λ t.
              for_range j.k 0
                (λ c (zq : Ints) i. if t * j.k + c == i then ln_value e t c else zq i))
            e.ln_zq;
    } in
    let ymax =
      for_range j.k 0
        (λ c y.
          let ext = ln_extremes e1 c in
          max_of (max_of y (ln_reach e1 c ext.0)) (ln_reach e1 c ext.1))
        0 in
    record e1 {
      regs = record (e1.regs) { ln_ymax_lo = u32 ymax; ln_ymax_hi = u32 (ymax / 2 ^ 32) };
      ln_n = j.n;
      ln_k = j.k;
      ln_valid = true;
    }

-- The multiplier and the bias of channel c in phase B.
unfoldable pub ln_gain : Emu → ℕ → ℤ
ln_gain e c =
    i32 (signed32 (u32 (bits32 (e.ln_g c) * 2 ^ 12)) *ℤ signed32 e.job.ln_fm >>ℤ 32)
    >>ℤ bits_at e.job.ln_sh 8 5

unfoldable pub ln_bias : Emu → ℕ → ℤ
ln_bias e c =
    let bsr = bits_at e.job.ln_sh 16 5 in
    i32 (i32 (e.ln_b c *ℤ signed32 e.job.ln_invm >>ℤ 32) +ℤ pos (2 ^ (bsr - 1)) >>ℤ bsr)

unfoldable pub ln_output : Emu → ℕ → ℕ → ℤ
ln_output e t c = clamp (pos 8191) (
    i32 (apply_mult (e.ln_zq (t * e.job.k + c)) (ln_gain e c) (bits_at e.job.ln_sh 0 6))
    +ℤ ln_bias e c)

unfoldable pub ln_phase_b : Emu → Emu
ln_phase_b e =
    let j = e.job in
    let out =
      for_range j.k 0
        (λ c. for_range j.n 0 (λ t (s : (ℕ → ℕ) × ℕ).
          let r = ln_output e t c in
          (
            store16 (u32 (j.c_addr + u32 (t * j.c_stride)) + 2 * c) (bits16 r) s.0,
            max_of s.1 (mag r),
          )))
        (e.mem, 0) in
    record e { mem = out.0; regs = record (e.regs) { rq_amax = out.1 }; ln_valid = false }
