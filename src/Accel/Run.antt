-- ===== src/Accel/Run.antt =====
-- A product, one job for each tile of rows: accel_run of src/sw/project/dav2_accel.c.
use risc_v_vi_t_accelerator.Base.{
  ℕ, zero, suc, ◌+◌, ◌-◌, ◌*◌, ◌/◌, ◌^◌, Bool, not, ◌&&◌, ◌==◌, ltb, leb, if◌then◌else◌, List, [],
  ◌∷◌, u32, ◌+ℤ◌,
}
use risc_v_vi_t_accelerator.Emulator.{bit}
use risc_v_vi_t_accelerator.Accel.{
  Env, Action, Reg, pure, ◌>>=◌, ◌>>◌, gets, modify, write_all, write_ctrl, read, load_int,
  store_int, ored,
}
use risc_v_vi_t_accelerator.Accel.Wait.{
  prefill_stats, maybe_defer, count_job, rng_ctrl, wait_simple, finish,
}

-- The arguments of accel_run, `a` for av and `stats` 0 for none.
pub record Product : Type 0 where
  pub a : ℕ
  pub a_stride : ℕ
  pub w : ℕ
  pub w_stride : ℕ
  pub acc : ℕ
  pub n : ℕ
  pub k : ℕ
  pub m : ℕ
  pub stats : ℕ

-- dav2_accel_stats_t: where the statistics are, and for how many tiles.
pub record Stats : Type 0 where
  pub v : ℕ
  pub tiles : ℕ

abbrev pub no_stats : Stats
no_stats = record { v = 0; tiles = 0 }

-- `stats + (size_t)tile * M * 2`
abbrev tile_stats : Product → ℕ → ℕ
tile_stats p tile = p.stats + tile * p.m * 2 * 4

-- The registers that every tile shares.
unfoldable pub shared_regs : Product → Bool → List (Reg × ℕ)
shared_regs p onchip =
    (Reg.w_addr, p.w)
    ∷ (Reg.a_stride, p.a_stride)
    ∷ (Reg.w_stride, p.w_stride)
    ∷ (Reg.c_stride, if onchip then p.n else u32 p.n * 4)
    ∷ (Reg.k_len, p.k)
    ∷ (Reg.m_len, p.m)
    ∷ []

-- A tile's words: its weights (halfwords with CTRL.w16), its activations and its results.
unfoldable pub tile_beats : Product → ℕ → ℕ → ℕ
tile_beats p div nt = p.m * (p.k / div) + nt * (p.k / 2) + nt * p.m

-- `for (i = 0; i < total; i++) acc[i] += part[i];`
unfoldable pub add_parts : ℕ → ℕ → ℕ → Action (Unit {0})
add_parts acc part zero = pure tt
add_parts acc part (suc left) = do
  x ← load_int acc
  y ← load_int part
  store_int acc (x +ℤ y)
  add_parts (acc + 4) (part + 4) left

-- accel_gemm_ctrl = bits;
unfoldable pub set_gemm_ctrl : ℕ → Action (Unit {0})
set_gemm_ctrl bits = modify (λ d. record d { gemm_ctrl = bits })

-- accel_defer = on;
unfoldable pub set_defer : Bool → Action (Unit {0})
set_defer on = modify (λ d. record d { defer = on })

module _ (v : Env) where
  -- The registers of the tile of nt rows from n0 on, and its start.
  unfoldable pub start_tile : Product → ℕ → ℕ → ℕ → Action (Unit {0})
  start_tile p tile n0 nt = do
    ctrl ← gets (λ d. d.gemm_ctrl)
    base ← gets (λ d. d.cr_base)
    defer ← gets (λ d. d.defer)
    let onchip = bit ctrl 10
    let a_row = if p.a_stride == 0 then p.k else p.a_stride / 2
    write_all v (shared_regs p onchip)
    write_all v (
        (Reg.a_addr, p.a + n0 * a_row * 2)
        ∷ (Reg.c_addr, if onchip then base + n0 else p.acc + n0 * 4)
        ∷ (Reg.n_rows, nt)
        ∷ (Reg.s_addr, if p.stats == 0 then 0 else tile_stats p tile)
        ∷ [])
    if not (p.stats == 0) && defer && leb p.n (n0 + nt)
        then prefill_stats (tile_stats p tile) p.m
        else pure tt
    rng ← rng_ctrl v
    write_ctrl v (ored (1 ∷ ctrl ∷ rng ∷ []))

  -- `for (n0 = 0; n0 < N; n0 += nrows)` from the tile `tile` at n0 on; a tile has at least one row,
  -- so N rounds are enough.
  unfoldable pub run_tiles : Product → ℕ → ℕ → ℕ → Action ℕ
  run_tiles p zero tile n0 = pure 1
  run_tiles p (suc left) tile n0 = do
    nrows ← gets (λ d. d.nrows)
    ctrl ← gets (λ d. d.gemm_ctrl)
    let nt = if ltb nrows (p.n - n0) then nrows else p.n - n0
    if not (ltb n0 p.n) then pure 1 else do
      v.need (n0 + nt)
      start_tile p tile n0 nt
      deferred ← maybe_defer (leb p.n (n0 + nt)) (tile_beats p (if bit ctrl 8 then 2 else 4) nt) 0
      if deferred then pure 2 else do
        ended ← wait_simple v
        if not ended then pure 0 else do
          cycles ← read v (λ r. r.cycles)
          dbg4 ← read v (λ r. r.dbg4)
          count_job cycles (tile_beats p 4 nt) (dbg4 / 2 ^ 16)
          run_tiles p left (tile + 1) (n0 + nrows)

  -- accel_run: 0 when the block failed, 2 when the last tile's job was left running.
  unfoldable pub accel_run : Product → Action ℕ
  accel_run p = do
    settled ← finish v
    if not settled then pure 0 else do
      ctrl ← gets (λ d. d.gemm_ctrl)
      write_all v (shared_regs p (bit ctrl 10))
      run_tiles p p.n 0 0
