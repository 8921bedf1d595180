-- ===== src/Emulator/Requant.antt =====
-- The requantisation job: requant_all of src/sw/project/host/accel_emu.c.
use risc_v_vi_t_accelerator.Base.{
  ℕ, ◌+◌, ◌-◌, ◌*◌, ◌/◌, ◌%◌, ◌^◌, true, not, ◌&&◌, ◌==◌, ltb, if◌then◌else◌, Option, some, guard,
  ◌>>◌, u32, ℤ, pos, ltb_ℤ, neg_ℤ, ◌-ℤ◌, ◌+ℤ◌, ◌*ℤ◌, ◌>>ℤ◌, pos_part, mag, signed32, bits16, bits32,
  i32, for_range,
}
use risc_v_vi_t_accelerator.Emulator.{
  Emu, Ints, Job, Memory, load16, load32, store16, store32, bit, bits_at, emu_mulh,
}
use risc_v_vi_t_accelerator.Emulator.Round.{apply_mult}

-- `if (r > lim) r = lim; if (r < -lim) r = -lim;`
unfoldable pub clamp : ℤ → ℤ → ℤ
clamp lim r =
    let below = if ltb_ℤ lim r then lim else r in
    if ltb_ℤ below (neg_ℤ lim) then neg_ℤ lim else below

-- CTRL.lut_load: the table that a job leaves in the block.
unfoldable pub load_table : Emu → Emu
load_table e =
    let j = e.job in
    let words = if j.lutint then 512 else 16384 in
    if j.lut_load
    then record e {
      lut_tab = λ i. if ltb i words then load16 e.mem (j.lut_addr + 2 * i) else e.lut_tab i;
      lut_valid = true;
    }
    else e

-- The parameters of row m: multiplier, shift and offset, from memory or from the range table.
unfoldable pub job_params : Emu → ℕ → ℤ × ℤ × ℤ
job_params e i =
    let j = e.job in
    let k = bits_at j.dp_sh 16 5 in
    let s = e.rng_s (j.dp_m0 + i) in
    let b = e.rng_b (j.dp_m0 + i) in
    if j.dpar
    then (
      emu_mulh s (signed32 j.dp_fk) >>ℤ bits_at j.dp_sh 8 5,
      pos (bits_at j.dp_sh 0 6),
      if bit j.dp_sh 24
          then pos 0
          else i32 (emu_mulh b (signed32 j.dp_gb) +ℤ pos (2 ^ (k - 1)) >>ℤ k),
    )
    else (
      load32 e.mem (j.p_addr + 12 * i),
      load32 e.mem (j.p_addr + 12 * i + 4),
      load32 e.mem (j.p_addr + 12 * i + 8),
    )

-- The accumulator of column n in row m.
unfoldable pub read_acc : Emu → ℕ → ℕ → ℤ
read_acc e m n =
    let j = e.job in
    let row = u32 (j.a_addr + u32 (m * j.a_stride)) in
    if j.onchip
    then e.cr_ram (u32 (row + n))
    else if j.a16
    then load16 e.mem (row + 2 * n)
    else load32 e.mem (row + 4 * n)

-- The table: its entry, or with CTRL.lutint the interpolation between two entries.
unfoldable pub through_table : Job → Ints → ℤ → ℤ
through_table j tab r =
    let u = u32 (bits32 (r +ℤ pos 8192)) in
    let lo = tab (2 * (u / 2 ^ 6)) in
    let hi = tab (2 * (u / 2 ^ 6) + 1) in
    if j.lut && j.lutint
    then lo +ℤ ((hi -ℤ lo) *ℤ pos (u % 2 ^ 6) >>ℤ 6)
    else if j.lut
    then tab (pos_part (r +ℤ pos 8192))
    else r

-- One output value, from its accumulator, its parameters and the residual x.
unfoldable pub requant_value : Job → Ints → ℤ × ℤ × ℤ → ℤ → ℤ → ℤ
requant_value j tab (mult, sh, offset) acc x =
    let scaled = i32 (apply_mult acc mult (pos_part sh)) +ℤ offset in
    let r1 = clamp (if j.sat16 then pos 32767 else pos 8191) scaled in
    let sum =
      i32 (apply_mult x (pos j.add_mx) (bits_at j.add_shift 0 6))
      +ℤ i32 (apply_mult r1 (pos j.add_mh) (bits_at j.add_shift 8 6)) in
    let r2 = if j.add then clamp (pos 8191) sum else r1 in
    let r3 = if j.relu && ltb_ℤ r2 (pos 0) then pos 0 else r2 in through_table j tab r3

abbrev pub out_row : Job → ℕ → ℕ
out_row j n = u32 (j.c_addr + u32 (n * j.c_stride))

-- One element of the loops: the value is stored and counted in the largest magnitude.
unfoldable pub requant_elem : ℕ → ℕ → Emu × ℤ → Emu × ℤ
requant_elem n m (e, amax) =
    let j = e.job in
    let x = load16 e.mem (u32 (j.x_addr + u32 (n * j.c_stride)) + 2 * m) in
    let r =
      requant_value j e.lut_tab (job_params e (if j.nparam then n else m)) (read_acc e m n) x in
    (
      record e { mem = store16 (out_row j n + 2 * m) (bits16 r) e.mem },
      if ltb_ℤ amax (pos (mag r)) then pos (mag r) else amax,
    )

-- CTRL.msums: each column's sum over the job's rows.
unfoldable pub add_sums : ℕ → Emu → Emu
add_sums n e =
    let j = e.job in
    record e {
      mem =
          for_range j.m 0
            (λ m mem.
              let before = if n == 0 then pos 0 else load32 mem (j.s_addr + 4 * m) in
              store32 (j.s_addr + 4 * m) (bits32 (before +ℤ load16 mem (out_row j n + 2 * m))) mem)
            e.mem;
    }

-- The largest and the smallest value of an output row.
unfoldable pub row_extremes : Job → Memory → ℕ → ℤ × ℤ
row_extremes j mem n =
    let first = load16 mem (out_row j n) in
    for_range (j.m - 1) 1
      (λ m (s : ℤ × ℤ).
        let v = load16 mem (out_row j n + 2 * m) in
        (if ltb_ℤ s.0 v then v else s.0, if ltb_ℤ v s.1 then v else s.1))
      (first, first)

-- CTRL.ostats and CTRL.osums: the row's extremes, and its sum and 40-bit sum of squares.
unfoldable pub put_stats : ℕ → Emu → Emu
put_stats n e =
    let j = e.job in
    let (mx, mn) = row_extremes j e.mem n in
    let sv = j.s_addr + 4 * (if j.osums then 4 * n else n) in
    let mem1 = store32 sv (bits16 mx * 2 ^ 16 + bits16 mn) e.mem in
    let total = for_range j.m 0 (λ m s. s +ℤ load16 mem1 (out_row j n + 2 * m)) (pos 0) in
    let squares =
      for_range j.m 0
        (λ m s.
          s + pos_part (load16 mem1 (out_row j n + 2 * m) *ℤ load16 mem1 (out_row j n + 2 * m)))
        0
      % 2 ^ 40 in
    let mem2 =
      store32 (sv + 12) (squares / 2 ^ 32)
        (store32 (sv + 8) (u32 squares) (store32 (sv + 4) (bits32 total) mem1)) in
    record e { mem = if j.osums then mem2 else mem1 }

unfoldable pub requant_row : ℕ → Emu × ℤ → Emu × ℤ
requant_row n (e, amax) =
    let (e1, amax1) = for_range e.job.m 0 (requant_elem n) (e, amax) in
    (if e.job.msums then add_sums n e1 else if e.job.ostats then put_stats n e1 else e1, amax1)

unfoldable pub requant_all : Emu → Option Emu
requant_all e =
    let e1 = load_table e in
    let (e2, amax) = for_range e1.job.n 0 requant_row (e1, pos 0) in
    guard (not (e1.job.lut && not e1.lut_valid))
    >> some (record e2 { regs = record (e2.regs) { rq_amax = bits32 amax } })
