-- ===== src/Accel/Calls.antt =====
-- Sequences of calls of the driver, in any order and with any arguments, after the block has been
-- probed: src/sw/project/dav2_accel.h.
use risc_v_vi_t_accelerator.Base.{ℕ, ◌≡◌, inl, inr, refl, Bool, true, false, some, ℤ}
use risc_v_vi_t_accelerator.Emulator.Idle.{IsIdle}
use risc_v_vi_t_accelerator.Accel.{Driver, Env, Action, RngCfg, pure, ◌>>=◌}
use risc_v_vi_t_accelerator.Accel.Wait.{accel_init, busy, finish, rng_next, rng_get}
use risc_v_vi_t_accelerator.Accel.Run.{Product}
use risc_v_vi_t_accelerator.Accel.Qgemm.{
  gemm_raw, gemm_raw_async, accel_qgemm, qgemm_async, qgemm_onchip_async,
}
use risc_v_vi_t_accelerator.Accel.Gemm16.{gemm16_shift_async, gemm16_cr_async}
use risc_v_vi_t_accelerator.Accel.Rows.{Epi}
use risc_v_vi_t_accelerator.Accel.Requant.{requant, requant_stride, requant_rows_async}
use risc_v_vi_t_accelerator.Accel.RowJobs.{
  requant_lut_async, requant_stride_async, requant_lut_cr_async, requant_stride_cr_async, exp_async,
  transpose16_async, norm16_async, requant16,
}
use risc_v_vi_t_accelerator.Accel.Special.{LayerA, LayerB, lerp_async, ln_a, ln_b}
use risc_v_vi_t_accelerator.Accel.Image.{Image}
use risc_v_vi_t_accelerator.Accel.Conv.{accel_conv, conv_async, conv_onchip_async}
use risc_v_vi_t_accelerator.Accel.Logic.{
  Modes, modes, At, IsSettled, Aim, Reaches, Goes, Goes-bind, Goes-pure,
}
use risc_v_vi_t_accelerator.Accel.Waits.{IsCareful}
use risc_v_vi_t_accelerator.Accel.Settle.{
  accel_init-Goes, busy-Goes, finish-Goes, rng_next-Goes, rng_get-Goes,
}
use risc_v_vi_t_accelerator.Accel.KeptProducts.{
  quiet, gemm_raw-Goes, gemm_raw_async-Goes, accel_qgemm-Goes, qgemm_async-Goes,
  qgemm_onchip_async-Goes, gemm16_shift_async-Goes, gemm16_cr_async-Goes,
}
use risc_v_vi_t_accelerator.Accel.KeptRows.{
  requant-Goes, requant_stride-Goes, requant_rows_async-Goes, requant_lut_async-Goes,
  requant_stride_async-Goes, requant_lut_cr_async-Goes, requant_stride_cr_async-Goes,
  exp_async-Goes, transpose16_async-Goes, norm16_async-Goes, requant16-Goes,
}
use risc_v_vi_t_accelerator.Accel.KeptImages.{
  accel_conv-Goes, conv_async-Goes, conv_onchip_async-Goes, lerp_async-Goes, ln_a-Goes, ln_b-Goes,
}

-- The operations that the header declares, but for the report and the self-tests; a product with
-- int16 weights and no shift is the one with the shift 0.
pub data Call : Type 0 where
  init_call busy_call finish_call rng_get_call : Call
  rng_next_call : RngCfg → Call
  gemm_raw_call gemm_raw_async_call : Product → Call
  qgemm_call qgemm_async_call : (a w acc n k m : ℕ) (wanted : Bool) → Call
  qgemm_onchip_call : (a w n k m : ℕ) → Call
  gemm16_shift_call : Product → ℤ → Call
  gemm16_cr_call : Product → ℤ → (base : ℕ) → Call
  requant_call : (acc n m params out : ℕ) → Call
  requant_stride_call requant_stride_async_call : (acc n m params out stride : ℕ) → Call
  requant_rows_call : (acc n m m0 mc params out amax : ℕ) → Epi → Call
  requant_lut_call : (acc n m params out stride lut : ℕ) (load : Bool) → Call
  requant_lut_cr_call : (base n m params out stride lut : ℕ) (load : Bool) → Call
  requant_stride_cr_call : (base n m params out stride : ℕ) → Call
  exp_call : (acc base n m params out stride lut : ℕ) (load : Bool) (sums : ℕ) → Call
  transpose16_call : (input pitch n m out stride : ℕ) → Call
  norm16_call : (input pitch n m params out stride : ℕ) → Call
  requant16_call : (input n m params out ostats : ℕ) → Call
  conv_call : Image → (wanted : Bool) → Call
  conv_async_call : Image → (wanted relu : Bool) → Call
  conv_onchip_call : Image → (relu : Bool) → Call
  lerp_call : (t stride out n : ℕ) (w : ℤ) → Call
  ln_a_call : LayerA → Call
  ln_b_call : LayerB → Call

-- An operation without its result.
abbrev pub ran : {A : Type 0} → Action A → Action (Unit {0})
ran act = act >>= λ _. pure tt

module _ (v : Env) where
  unfoldable pub call : Call → Action (Unit {0})
  call Call.init_call = ran (accel_init v)
  call Call.busy_call = ran (busy v)
  call Call.finish_call = ran (finish v)
  call Call.rng_get_call = ran (rng_get v)
  call (Call.rng_next_call c) = rng_next v c
  call (Call.gemm_raw_call p) = ran (gemm_raw v p)
  call (Call.gemm_raw_async_call p) = ran (gemm_raw_async v p)
  call (Call.qgemm_call a w acc n k m wanted) = ran (accel_qgemm v a w acc n k m wanted)
  call (Call.qgemm_async_call a w acc n k m wanted) = ran (qgemm_async v a w acc n k m wanted)
  call (Call.qgemm_onchip_call a w n k m) = ran (qgemm_onchip_async v a w n k m)
  call (Call.gemm16_shift_call p wsh) = ran (gemm16_shift_async v p wsh)
  call (Call.gemm16_cr_call p wsh base) = ran (gemm16_cr_async v p wsh base)
  call (Call.requant_call acc n m params out) = ran (requant v acc n m params out)
  call (Call.requant_stride_call acc n m params out stride) =
      ran (requant_stride v acc n m params out stride)
  call (Call.requant_stride_async_call acc n m params out stride) =
      ran (requant_stride_async v acc n m params out stride)
  call (Call.requant_rows_call acc n m m0 mc params out amax e) =
      ran (requant_rows_async v acc n m m0 mc params out amax e)
  call (Call.requant_lut_call acc n m params out stride lut load) =
      ran (requant_lut_async v acc n m params out stride lut load)
  call (Call.requant_lut_cr_call base n m params out stride lut load) =
      ran (requant_lut_cr_async v base n m params out stride lut load)
  call (Call.requant_stride_cr_call base n m params out stride) =
      ran (requant_stride_cr_async v base n m params out stride)
  call (Call.exp_call acc base n m params out stride lut load sums) =
      ran (exp_async v acc base n m params out stride lut load sums)
  call (Call.transpose16_call input pitch n m out stride) =
      ran (transpose16_async v input pitch n m out stride)
  call (Call.norm16_call input pitch n m params out stride) =
      ran (norm16_async v input pitch n m params out stride)
  call (Call.requant16_call input n m params out ostats) =
      ran (requant16 v input n m params out ostats)
  call (Call.conv_call i wanted) = ran (accel_conv v i wanted)
  call (Call.conv_async_call i wanted relu) = ran (conv_async v i wanted relu)
  call (Call.conv_onchip_call i relu) = ran (conv_onchip_async v i relu)
  call (Call.lerp_call t stride out n w) = ran (lerp_async v t stride out n w)
  call (Call.ln_a_call j) = ran (ln_a v j)
  call (Call.ln_b_call j) = ran (ln_b v j)

  -- The states that a sequence of calls can reach.
  pub data Calls : Driver → Driver → Type 0 where
    done : (d : Driver) → Calls d d
    then_call : (c : Call) (d d1 d2 : Driver) → call c d ≡ some (tt, d1) → Calls d1 d2 → Calls d d2

-- Between calls no mode is left set, and a job that runs is the pending one, unless the block has
-- been disabled.
pub record IsQuiet (d : Driver) : Type 0 where
  pub is_reset : modes d ≡ quiet
  pub is_settled : d.ok ≡ true → d.pend.active ≡ false → IsIdle d.emu

module _ (v : Env) (careful : IsCareful v) where
  as_quiet : (x : Modes) → At quiet x → x ≡ quiet
  as_quiet x (probed, inl e) = e
  as_quiet x (probed, inr e) = e

  ran-Goes :
      {A : Type 0} {m : Modes} {act : Action A}
      → Goes Aim.keeping m m act
      → Goes Aim.keeping m m (ran act)
  ran-Goes p = Goes-bind p (λ _. Goes-pure)

  call-Goes : (c : Call) → Goes Aim.keeping quiet quiet (call v c)
  unfolding call
  call-Goes Call.init_call = ran-Goes (accel_init-Goes v)
  call-Goes Call.busy_call = ran-Goes (busy-Goes v)
  call-Goes Call.finish_call = ran-Goes (finish-Goes v careful)
  call-Goes Call.rng_get_call = ran-Goes (rng_get-Goes v)
  call-Goes (Call.rng_next_call c) = rng_next-Goes v c
  call-Goes (Call.gemm_raw_call p) = ran-Goes (gemm_raw-Goes v careful p)
  call-Goes (Call.gemm_raw_async_call p) = ran-Goes (gemm_raw_async-Goes v careful p)
  call-Goes (Call.qgemm_call a w acc n k m wanted) =
      ran-Goes (accel_qgemm-Goes v careful a w acc n k m wanted)
  call-Goes (Call.qgemm_async_call a w acc n k m wanted) =
      ran-Goes (qgemm_async-Goes v careful a w acc n k m wanted)
  call-Goes (Call.qgemm_onchip_call a w n k m) =
      ran-Goes (qgemm_onchip_async-Goes v careful a w n k m)
  call-Goes (Call.gemm16_shift_call p wsh) = ran-Goes (gemm16_shift_async-Goes v careful p wsh)
  call-Goes (Call.gemm16_cr_call p wsh base) = ran-Goes (gemm16_cr_async-Goes v careful p wsh base)
  call-Goes (Call.requant_call acc n m params out) =
      ran-Goes (requant-Goes v careful acc n m params out)
  call-Goes (Call.requant_stride_call acc n m params out stride) =
      ran-Goes (requant_stride-Goes v careful acc n m params out stride)
  call-Goes (Call.requant_stride_async_call acc n m params out stride) =
      ran-Goes (requant_stride_async-Goes v careful false 0 acc n m params out stride)
  call-Goes (Call.requant_rows_call acc n m m0 mc params out amax e) =
      ran-Goes (requant_rows_async-Goes v careful acc n m m0 mc params out amax e)
  call-Goes (Call.requant_lut_call acc n m params out stride lut load) =
      ran-Goes (requant_lut_async-Goes v careful false 0 0 acc n m params out stride lut load)
  call-Goes (Call.requant_lut_cr_call base n m params out stride lut load) =
      ran-Goes (requant_lut_cr_async-Goes v careful 0 base n m params out stride lut load)
  call-Goes (Call.requant_stride_cr_call base n m params out stride) =
      ran-Goes (requant_stride_cr_async-Goes v careful base n m params out stride)
  call-Goes (Call.exp_call acc base n m params out stride lut load sums) =
      ran-Goes (exp_async-Goes v careful acc base n m params out stride lut load sums)
  call-Goes (Call.transpose16_call input pitch n m out stride) =
      ran-Goes (transpose16_async-Goes v careful input pitch n m out stride)
  call-Goes (Call.norm16_call input pitch n m params out stride) =
      ran-Goes (norm16_async-Goes v careful input pitch n m params out stride)
  call-Goes (Call.requant16_call input n m params out ostats) =
      ran-Goes (requant16-Goes v careful input n m params out ostats)
  call-Goes (Call.conv_call i wanted) = ran-Goes (accel_conv-Goes v careful i wanted)
  call-Goes (Call.conv_async_call i wanted relu) =
      ran-Goes (conv_async-Goes v careful i wanted relu)
  call-Goes (Call.conv_onchip_call i relu) = ran-Goes (conv_onchip_async-Goes v careful i relu)
  call-Goes (Call.lerp_call t stride out n w) =
      ran-Goes (lerp_async-Goes v careful t stride out n w)
  call-Goes (Call.ln_a_call j) = ran-Goes (ln_a-Goes v careful j)
  call-Goes (Call.ln_b_call j) = ran-Goes (ln_b-Goes v careful j)

  -- Whatever calls are made after the block has been probed, in whatever order and with whatever
  -- results, as long as each returns: the modes that calls set for the functions they use are reset,
  -- and unless the block has been disabled a job that runs, or is about to, is the pending one. So at
  -- most one job is outstanding. Assumed of the producers that the calls run: they leave the modes
  -- alone, but that when asked for rows they may clear accel_defer (as an interpolation that they run
  -- does), and when asked for rows they leave no job running that is not the pending one.
  pub Calls-IsQuiet : (d d' : Driver) → IsQuiet d → Calls v d d' → IsQuiet d'
  unfolding Reaches IsSettled
  Calls-IsQuiet d d' q (Calls.done _) = q
  Calls-IsQuiet d d' q (Calls.then_call c _ d1 _ run rest) =
      let (reset, settled) = (call-Goes c).runs d tt d1 run (refl, inl q.is_reset) in
      Calls-IsQuiet d1 d'
        (record { is_reset = as_quiet (modes d1) reset; is_settled = settled q.is_settled }) rest
