-- ===== src/Accel/Gemm16.antt =====
-- Products with int16 weights: dav2_accel_gemm16_async of src/sw/project/dav2_accel.c, its variants
-- with a shift and into the result RAM, and the tests for the features.
use risc_v_vi_t_accelerator.Base.{
  ℕ, ◌+◌, ◌*◌, ◌%◌, ◌^◌, Bool, true, false, not, ◌&&◌, ◌||◌, ◌==◌, ltb, if◌then◌else◌, [], ◌∷◌, u32,
  ℤ, pos, pos_part, ltb_ℤ,
}
use risc_v_vi_t_accelerator.Emulator.{aligned}
use risc_v_vi_t_accelerator.Accel.{Driver, Env, Action, pure, ◌>>=◌, ◌>>◌, gets, modify, ored}
use risc_v_vi_t_accelerator.Accel.Wait.{accel_init}
use risc_v_vi_t_accelerator.Accel.Run.{Product, set_defer, set_gemm_ctrl, accel_run}

-- CTRL_W16 | CTRL_WSH(wsh)
abbrev w16_ctrl : ℕ → ℕ
w16_ctrl wsh = ored (0x100 ∷ wsh % 16 * 2 ^ 14 ∷ [])

-- The limits of an int16-weight product.
unfoldable pub w16_sizes_ok : Driver → Product → Bool
w16_sizes_ok d p =
    not (ltb p.k 2 || p.k % 2 == 1 || ltb d.kmax p.k || ltb p.n 1 || ltb p.m 1)
    && (aligned p.a && aligned p.w && aligned p.stats && aligned p.a_stride && aligned p.w_stride)
    && not (not (p.stats == 0) && ltb d.nrows p.n)

-- `wsh < 0 || wsh > 15` does not hold.
abbrev pub wsh_in_range : ℤ → Bool
wsh_in_range wsh = not (ltb_ℤ wsh (pos 0) || ltb_ℤ (pos 15) wsh)

-- The row stride that 0 stands for: `w_stride ? w_stride : (uint32_t)K * 2u`.
abbrev with_stride : Product → Product
with_stride p = record p { w_stride = if p.w_stride == 0 then u32 (u32 p.k * 2) else p.w_stride }

module _ (v : Env) where
  -- A capability that is there when the block is: dav2_accel_w16_ok, _wsh_ok, _lerp_ok, _ln_ok, ...
  unfoldable pub feature_ok : (Driver → Bool) → Action Bool
  feature_ok f = do ok ← accel_init v; has ← gets f; pure (ok && has)

  -- dav2_accel_w16_ok
  unfoldable pub w16_ok : Action Bool
  w16_ok = feature_ok (λ d. d.w16_ok)

  -- dav2_accel_wsh_ok
  unfoldable pub wsh_ok : Action Bool
  wsh_ok = feature_ok (λ d. d.w16_ok && d.wsh_ok)

  -- dav2_accel_gemm16_async
  unfoldable pub gemm16_async : Product → Action ℕ
  gemm16_async p = do
    ok ← accel_init v
    d ← gets (λ d. d)
    if not (ok && d.w16_ok && w16_sizes_ok d p && aligned p.acc) then pure 0 else do
      set_defer true
      set_gemm_ctrl (w16_ctrl d.gemm_wsh)
      r ← accel_run v (with_stride p)
      set_gemm_ctrl 0
      set_defer false
      pure r

  -- dav2_accel_gemm16_shift_async
  unfoldable pub gemm16_shift_async : Product → ℤ → Action ℕ
  gemm16_shift_async p wsh = if not (wsh_in_range wsh) then pure 0 else do
    shifts ← if pos_part wsh == 0 then pure true else wsh_ok
    if not shifts then pure 0 else do
      modify (λ d. record d { gemm_wsh = pos_part wsh })
      r ← gemm16_async p
      modify (λ d. record d { gemm_wsh = 0 })
      pure r

  -- dav2_accel_gemm16_cr_async, the product's acc unused
  unfoldable pub gemm16_cr_async : Product → ℤ → ℕ → Action ℕ
  gemm16_cr_async p wsh cr_base = do
    ok ← accel_init v
    d ← gets (λ d. d)
    if not (
          ok
          && d.onchip_ok
          && d.attcr_ok
          && d.w16_ok
          && w16_sizes_ok d p
          && not (ltb 131_072 (u32 (cr_base + u32 p.n * u32 p.m)))
          && wsh_in_range wsh
          && (pos_part wsh == 0 || d.wsh_ok))
        then pure 0
        else do
          set_defer true
          set_gemm_ctrl (ored (w16_ctrl (pos_part wsh) ∷ 0x400 ∷ []))
          modify (λ d. record d { cr_base = cr_base })
          r ← accel_run v (with_stride (record p { acc = 0 }))
          modify (λ d. record d { cr_base = 0 })
          set_gemm_ctrl 0
          set_defer false
          pure r
