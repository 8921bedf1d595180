-- ===== src/Accel/Disabled.antt =====
-- What the operations of the driver do once the block has been disabled.
use risc_v_vi_t_accelerator.Base.{
  ℕ, ◌≡◌, refl, sym, ap, ◌∙◌, arith, Bool, true, false, not, ◌&&◌, some, if◌then◌else◌, negsuc,
}
use risc_v_vi_t_accelerator.Accel.{Driver, Env, Action, pure, after, ◌>>=◌, ◌>>◌, gets, modify}
use risc_v_vi_t_accelerator.Accel.Wait.{accel_init, busy, finish, rng_next, rng_get}
use risc_v_vi_t_accelerator.Accel.Run.{no_stats}
use risc_v_vi_t_accelerator.Accel.Qgemm.{
  gemm_raw, gemm_raw_async, accel_qgemm, qgemm_async, qgemm_onchip_async,
}
use risc_v_vi_t_accelerator.Accel.Gemm16.{
  feature_ok, wsh_ok, gemm16_async, gemm16_shift_async, gemm16_cr_async,
}
use risc_v_vi_t_accelerator.Accel.Requant.{requant, requant_stride, requant_rows_async}
use risc_v_vi_t_accelerator.Accel.RowJobs.{
  requant_lut_async, requant_stride_async, requant_lut_cr_async, requant_stride_cr_async, exp_async,
  transpose16_async, norm16_async, requant16,
}
use risc_v_vi_t_accelerator.Accel.Special.{lerp_async, ln_a, ln_b}
use risc_v_vi_t_accelerator.Accel.Image.{Image}
use risc_v_vi_t_accelerator.Accel.Conv.{accel_conv, conv_async, conv_onchip_async}
use risc_v_vi_t_accelerator.Accel.Calls.{Call, ran, Calls, call}
use risc_v_vi_t_accelerator.Accel.Untouched.{
  IsDisabled, Leaves, Leaves-modify, as_before, set_defer-Leaves, set_out_stride-Leaves,
  set_conv_relu-Leaves, set_ln_a_jobs-Leaves, rng_begin-Leaves, rng_end-Leaves, Leaves-pure,
  Leaves-bind, Leaves-gets, Leaves-if, Leaves-when,
}

init-value :
    (b : Bool) (x : Action (Unit {0})) (d : Driver)
    → b ≡ true
    → d.ok ≡ false
    → ((if b then pure tt else x) >> gets (λ d. d.ok)) d ≡ some (false, d)
unfolding ◌>>=◌ gets
init-value true x d h off = ap (λ (o : Bool). some (o, d)) off
init-value false x d h off = absurd (grind arith)

module _ (v : Env) where
  -- An operation that finds no block gives this result at once, and changes nothing.
  Gives : {A : Type 0} → A → Action A → Type 0
  Gives a act = (d : Driver) → IsDisabled d → act d ≡ some (a, d)

  Gives-then :
      {A B : Type 0} (a : A) (act : Action A) (f : A → Action B)
      → Gives a act
      → Leaves (f a)
      → Leaves (act >>= f)
  unfolding Gives ◌>>=◌
  Gives-then a act f p q = record {
    runs = λ d b d' run i. q.runs d b d' (sym (ap (after f) (p d i)) ∙ run) i;
  }

  init-Gives : Gives false (accel_init v)
  unfolding Gives accel_init gets ◌>>=◌
  init-Gives d i = init-value d.probed _ d i.probed i.off

  -- dav2_accel_init says that there is no block.
  init-Leaves : {A : Type 0} (k : Bool → Action A) → Leaves (k false) → Leaves (accel_init v >>= k)
  init-Leaves k p = Gives-then false (accel_init v) k init-Gives p

  qgemm-Gives :
      (a w acc n k m : ℕ) (wanted : Bool) → Gives (0, no_stats) (accel_qgemm v a w acc n k m wanted)
  unfolding Gives accel_qgemm accel_init ◌>>=◌ gets
  qgemm-Gives a w acc n k m wanted d i = ap (after _) (init-value d.probed _ d i.probed i.off)

  conv-Gives : (image : Image) (wanted : Bool) → Gives (0, no_stats) (accel_conv v image wanted)
  unfolding Gives accel_conv accel_init ◌>>=◌ gets
  conv-Gives image wanted d i = ap (after _) (init-value d.probed _ d i.probed i.off)

  finish-Leaves : Leaves (finish v)
  unfolding finish
  finish-Leaves =
      Leaves-gets _ (λ d i. Leaves-when (not d.pend.active) _ _ (ap not i.collected) Leaves-pure)

  -- Operations that ask for the block first.
  declines :
      {A : Type 0} (k : Bool → Action A) → Leaves (k false) → Leaves (ran (accel_init v >>= k))
  declines k p = Leaves-bind (init-Leaves _ p) (λ _. Leaves-pure)

  once : {A B : Type 0} (f : Driver → A) (b : B) → Leaves (gets f >>= λ _. pure b)
  once f b = Leaves-gets _ (λ _ _. Leaves-pure)

  set_wsh-Leaves : (x : ℕ) → Leaves (modify (λ d. record d { gemm_wsh = x }))
  set_wsh-Leaves x = Leaves-modify _ (λ d i. as_before d _ i refl refl refl i.no_range) (λ d. refl)

  call-Leaves : (c : Call) → Leaves (call v c)
  unfolding call finish busy rng_get rng_next gemm_raw gemm_raw_async qgemm_async accel_qgemm
      accel_conv qgemm_onchip_async gemm16_shift_async gemm16_async wsh_ok feature_ok
      gemm16_cr_async requant requant_stride requant_rows_async requant_lut_async
      requant_stride_async requant_lut_cr_async requant_stride_cr_async exp_async transpose16_async
      norm16_async requant16 conv_async conv_onchip_async lerp_async ln_a ln_b
  call-Leaves Call.init_call = init-Leaves _ Leaves-pure
  call-Leaves Call.busy_call =
      Leaves-bind
        (Leaves-gets _
          (λ d i. Leaves-when (not d.pend.active) _ _ (ap not i.collected) Leaves-pure))
        (λ _. Leaves-pure)
  call-Leaves Call.finish_call = Leaves-bind finish-Leaves (λ _. Leaves-pure)
  call-Leaves Call.rng_get_call =
      Leaves-bind
        (Leaves-gets _ (λ d i.
          Leaves-when _ _ _ (ap (λ (b : Bool). not (b && not d.pend.active)) i.no_range)
            Leaves-pure))
        (λ _. Leaves-pure)
  call-Leaves (Call.rng_next_call c) =
      Leaves-modify _ (λ d i. as_before d _ i refl refl refl i.no_range) (λ d. refl)
  call-Leaves (Call.gemm_raw_call p) = declines _ (once _ 0)
  call-Leaves (Call.gemm_raw_async_call p) =
      Leaves-bind
        (Leaves-bind (set_defer-Leaves true) (λ _.
          Leaves-bind (init-Leaves _ (once _ 0))
            (λ _. Leaves-bind (set_defer-Leaves false) (λ _. Leaves-pure))))
        (λ _. Leaves-pure)
  call-Leaves (Call.qgemm_call a w acc n k m wanted) = declines _ (once _ (0, no_stats))
  call-Leaves (Call.qgemm_async_call a w acc n k m wanted) =
      Leaves-bind
        (Leaves-bind (rng_begin-Leaves m) (λ _. Leaves-bind (set_defer-Leaves true) (λ _.
          Gives-then (0, no_stats) _ _ (qgemm-Gives a w acc n k m wanted)
            (Leaves-bind (set_defer-Leaves false)
              (λ _. Leaves-bind rng_end-Leaves (λ _. Leaves-pure))))))
        (λ _. Leaves-pure)
  call-Leaves (Call.qgemm_onchip_call a w n k m) =
      declines _ (Leaves-gets _ (λ _ _. Leaves-gets _ (λ _ _. once _ (0, no_stats))))
  call-Leaves (Call.gemm16_shift_call p wsh) =
      Leaves-bind
        (Leaves-if _ Leaves-pure (
          Leaves-bind (Leaves-if _ Leaves-pure (init-Leaves _ (once _ false))) (λ shifts.
            Leaves-if _ Leaves-pure (
              Leaves-bind (set_wsh-Leaves _) (λ _.
                Leaves-bind (init-Leaves _ (once _ 0))
                  (λ _. Leaves-bind (set_wsh-Leaves 0) (λ _. Leaves-pure)))))))
        (λ _. Leaves-pure)
  call-Leaves (Call.gemm16_cr_call p wsh base) = declines _ (once _ 0)
  call-Leaves (Call.requant_call acc n m params out) = declines _ (once _ (0, negsuc 0))
  call-Leaves (Call.requant_stride_call acc n m params out stride) =
      Leaves-bind
        (Leaves-bind (set_out_stride-Leaves stride) (λ _.
          Leaves-bind (init-Leaves _ (once _ (0, negsuc 0)))
            (λ _. Leaves-bind (set_out_stride-Leaves 0) (λ _. Leaves-pure))))
        (λ _. Leaves-pure)
  call-Leaves (Call.requant_stride_async_call acc n m params out stride) = declines _ (once _ 0)
  call-Leaves (Call.requant_rows_call acc n m m0 mc params out amax e) = declines _ (once _ 0)
  call-Leaves (Call.requant_lut_call acc n m params out stride lut load) = declines _ (once _ 0)
  call-Leaves (Call.requant_lut_cr_call base n m params out stride lut load) = declines _ (once _ 0)
  call-Leaves (Call.requant_stride_cr_call base n m params out stride) = declines _ (once _ 0)
  call-Leaves (Call.exp_call acc base n m params out stride lut load sums) = declines _ (once _ 0)
  call-Leaves (Call.transpose16_call input pitch n m out stride) = declines _ (once _ 0)
  call-Leaves (Call.norm16_call input pitch n m params out stride) = declines _ (once _ 0)
  call-Leaves (Call.requant16_call input n m params out ostats) = declines _ (once _ (0, negsuc 0))
  call-Leaves (Call.conv_call i wanted) = declines _ (once _ (0, no_stats))
  call-Leaves (Call.conv_async_call i wanted relu) =
      Leaves-bind
        (Leaves-bind (rng_begin-Leaves i.m) (λ _. Leaves-bind (set_defer-Leaves true) (λ _.
          Leaves-bind (set_conv_relu-Leaves relu) (λ _.
            Gives-then (0, no_stats) _ _ (conv-Gives i wanted)
              (Leaves-bind (set_conv_relu-Leaves false) (λ _.
                Leaves-bind (set_defer-Leaves false)
                  (λ _. Leaves-bind rng_end-Leaves (λ _. Leaves-pure))))))))
        (λ _. Leaves-pure)
  call-Leaves (Call.conv_onchip_call i relu) = declines _ (once _ (0, no_stats))
  call-Leaves (Call.lerp_call t stride out n w) = declines _ (once _ 0)
  call-Leaves (Call.ln_a_call j) =
      Leaves-bind
        (Leaves-bind (set_ln_a_jobs-Leaves _)
          (λ _. init-Leaves _ (Leaves-gets _ (λ _ _. Leaves-pure))))
        (λ _. Leaves-pure)
  call-Leaves (Call.ln_b_call j) = declines _ (Leaves-gets _ (λ _ _. Leaves-pure))

  -- Once the block has been disabled, with no job pending and no range waiting to be read, no call of
  -- the driver touches it any more, whatever calls are made: its registers, its memory and its job
  -- stay as they are, and it stays disabled. (With a range waiting, dav2_accel_rng_get still reads
  -- the block.)
  pub Calls-disabled :
      (d d' : Driver) → IsDisabled d → Calls v d d' → IsDisabled d' × (d'.emu ≡ d.emu)
  Calls-disabled d d' i (Calls.done _) = (i, refl)
  Calls-disabled d d' i (Calls.then_call c _ d1 _ run rest) =
      let (i1, same) = (call-Leaves c).runs d tt d1 run i in
      let (i2, same2) = Calls-disabled d1 d' i1 rest in (i2, same2 ∙ same)
