-- ===== src/Emulator/Rows.antt =====
-- One weight row of a GEMM job: gemm_row of src/sw/project/host/accel_emu.c.
use risc_v_vi_t_accelerator.Base.{
  ℕ, ◌+◌, ◌*◌, ◌==◌, ◌%◌, if◌then◌else◌, u32, ℤ, pos, ltb_ℤ, ◌+ℤ◌, ◌*ℤ◌, ◌>>ℤ◌, signed32, bits32,
  for_range, ◌||◌,
}
use risc_v_vi_t_accelerator.Emulator.{Emu, load8, load16, store32, emu_mulh}
use risc_v_vi_t_accelerator.Emulator.Tile.{a_elem}

-- The weight at column kk of row m, in either precision.
unfoldable pub weight : Emu → ℕ → ℕ → ℤ
weight e m kk =
    let j = e.job in
    let stride = if j.w_stride == 0 then (if j.w16 then u32 (2 * j.k) else j.k) else j.w_stride in
    let row = u32 (j.w_addr + u32 (m * stride)) in
    if j.w16 then load16 e.mem (row + 2 * kk) >>ℤ j.wsh else load8 e.mem (row + kk)

unfoldable pub row_sum : Emu → ℕ → ℕ → ℤ
row_sum e m t = for_range e.job.k 0 (λ kk s. s +ℤ a_elem e t kk *ℤ weight e m kk) (pos 0)

-- `cr[t] = s`, in the result RAM or in memory.
unfoldable pub put_result : ℕ → ℕ → ℤ → Emu → Emu
put_result m t s e =
    let j = e.job in
    if j.onchip
    then record e {
      cr_ram = λ i. if j.c_addr + u32 (m * j.c_stride) + t == i then s else e.cr_ram i;
    }
    else record e { mem = store32 (u32 (j.c_addr + u32 (m * j.c_stride)) + 4 * t) (bits32 s) e.mem }

-- The loop over the tile's rows; the state is (emulator, mx, mn).
unfoldable pub row_loop : ℕ → Emu → Emu × ℤ × ℤ
row_loop m e =
    for_range e.job.n 0
      (λ t (s : Emu × ℤ × ℤ).
        let v = row_sum s.0 m t in
        (
          put_result m t v s.0,
          if (t == 0) || ltb_ℤ s.1 v then v else s.1,
          if (t == 0) || ltb_ℤ v s.2 then v else s.2,
        ))
      (e, pos 0, pos 0)

-- The range unit: the row's extremes through the table.
unfoldable pub range_update : ℕ → ℤ → ℤ → Emu → Emu
range_update m mx mn e =
    let j = e.job in
    let bv = emu_mulh (e.rng_b m) (signed32 j.rng_beta_m) >>ℤ (j.rng_beta_sh % 32) in
    let hv = emu_mulh mx (e.rng_s m) +ℤ bv in
    let lv = emu_mulh mn (e.rng_s m) +ℤ bv in
    record e {
      rng_vmax = if ltb_ℤ e.rng_vmax hv then hv else e.rng_vmax;
      rng_vmin = if ltb_ℤ lv e.rng_vmin then lv else e.rng_vmin;
    }

unfoldable pub row_stats : ℕ → ℤ → ℤ → Emu → Emu
row_stats m mx mn e =
    let sv = u32 (e.job.s_addr + u32 (m * 8)) in
    record e {
      mem = store32 (sv + 4) (bits32 mn) (store32 sv (bits32 mx) e.mem);
      job = record (e.job) { writes = u32 (e.job.writes + 2) };
    }

unfoldable pub gemm_row : ℕ → Emu → Emu
gemm_row m e =
    let (e1, mx, mn) = row_loop m e in
    let e2 = record e1 { job = record (e1.job) { writes = u32 (e1.job.writes + e1.job.n) } } in
    let e3 = if e2.job.rng then range_update m mx mn e2 else e2 in
    if e3.job.s_addr == 0 then e3 else row_stats m mx mn e3
