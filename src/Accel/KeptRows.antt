-- ===== src/Accel/KeptRows.antt =====
-- The requantisations keep the promise and the modes.
use risc_v_vi_t_accelerator.Base.{inr, ℕ, zero, suc, ◌+◌, refl, Bool, true, false, not, ◌==◌, ltb}
use risc_v_vi_t_accelerator.Accel.{Env}
use risc_v_vi_t_accelerator.Accel.Rows.{Epi, Rows, set_out_stride, set_in_pitch}
use risc_v_vi_t_accelerator.Accel.Requant.{
  rows_tiles, requant_rows, requant_chunks, requant, requant_stride, requant_rows_async,
}
use risc_v_vi_t_accelerator.Accel.RowJobs.{
  tp_max, fill_identity, set_onchip, set_msums, pitched, requant_lut_async, requant_stride_async,
  requant_lut_cr_async, requant_stride_cr_async, exp_async, transpose16_async, norm16_async,
  requant16,
}
use risc_v_vi_t_accelerator.Accel.Logic.{
  Modes, IsSettled, Aim, Goes, Goes-bind, Goes-gets, Goes-pure, Goes-if, Goes-modify,
  settling-keeping,
}
use risc_v_vi_t_accelerator.Accel.Steps.{
  write_all-Goes, write_ctrl-Goes, read-Goes, load_int-Goes, store_int-Goes,
}
use risc_v_vi_t_accelerator.Accel.Waits.{
  IsCareful, count_job-Goes, raise_amax-Goes, defer-Goes, wait_simple-Goes,
}
use risc_v_vi_t_accelerator.Accel.Settle.{accel_init-Goes, finish-Goes}
use risc_v_vi_t_accelerator.Accel.KeptProducts.{quiet, set_defer-Goes}

module _ {m : Modes} where
  set_out_stride-Goes :
      (x : ℕ) → Goes Aim.keeping m (record m { out_stride = x }) (set_out_stride x)
  unfolding set_out_stride IsSettled
  set_out_stride-Goes x =
      Goes-modify (λ m. record m { out_stride = x }) _ (refl, inr refl) (λ d. refl) (λ d s. s)

  set_in_pitch-Goes : (x : ℕ) → Goes Aim.keeping m (record m { in_pitch = x }) (set_in_pitch x)
  unfolding set_in_pitch IsSettled
  set_in_pitch-Goes x =
      Goes-modify (λ m. record m { in_pitch = x }) _ (refl, inr refl) (λ d. refl) (λ d s. s)

  set_onchip-Goes :
      (on : Bool) (x : ℕ)
      → Goes Aim.keeping m (record m { rq_onchip = on; cr_base = x }) (set_onchip on x)
  unfolding set_onchip IsSettled
  set_onchip-Goes on x =
      Goes-modify (λ m. record m { rq_onchip = on; cr_base = x }) _ (refl, inr refl) (λ d. refl)
        (λ d s. s)

  set_msums-Goes : (x : ℕ) → Goes Aim.keeping m (record m { rq_msums = x }) (set_msums x)
  unfolding set_msums IsSettled
  set_msums-Goes x =
      Goes-modify (λ m. record m { rq_msums = x }) _ (refl, inr refl) (λ d. refl) (λ d s. s)

  fill_identity-Goes : (n p : ℕ) → Goes Aim.keeping m m (fill_identity p n)
  unfolding fill_identity
  fill_identity-Goes zero p = Goes-pure
  fill_identity-Goes (suc left) p = Goes-bind (store_int-Goes _ _) (λ _.
      Goes-bind (store_int-Goes _ _)
        (λ _. Goes-bind (store_int-Goes _ _) (λ _. fill_identity-Goes left (p + 12))))

module _ (v : Env) (careful : IsCareful v) where
  rows_tiles-Goes :
      {m : Modes} (r : Rows) (orow ipitch left : ℕ) (load : Bool) (n0 : ℕ)
      → Goes Aim.keeping m m (rows_tiles v r orow ipitch left load n0)
  unfolding rows_tiles
  rows_tiles-Goes r orow ipitch zero load n0 = Goes-pure
  rows_tiles-Goes r orow ipitch (suc left) load n0 = Goes-gets _ (λ d _. Goes-gets _ (λ _ _.
      Goes-if (not (ltb n0 r.n)) Goes-pure (
        settling-keeping (
          Goes-bind (write_all-Goes v _) (λ _. Goes-bind (write_ctrl-Goes v _) (λ _.
            defer-Goes _ _ _ _ _ (
              Goes-bind (wait_simple-Goes v careful) (λ ended. Goes-if (not ended) Goes-pure (
                Goes-bind (read-Goes v _) (λ _. Goes-bind (count_job-Goes _ _ _) (λ _.
                  Goes-bind (read-Goes v _) (λ a.
                    Goes-bind (raise_amax-Goes _ _)
                      (λ _. rows_tiles-Goes r orow ipitch left false (n0 + d.nrows))))))))))))))

  requant_rows-Goes : {m : Modes} (r : Rows) → Goes Aim.keeping m m (requant_rows v r)
  unfolding requant_rows
  requant_rows-Goes r = Goes-bind (finish-Goes v careful) (λ settled.
      Goes-if (not settled) Goes-pure (
        Goes-gets _ (λ _ _.
          Goes-gets _
            (λ _ _. Goes-bind (write_all-Goes v _) (λ _. rows_tiles-Goes r _ _ r.n _ 0)))))

  requant_chunks-Goes :
      {m : Modes} (r : Rows) (mc left m0 : ℕ) → Goes Aim.keeping m m (requant_chunks v r mc left m0)
  unfolding requant_chunks
  requant_chunks-Goes r mc zero m0 = Goes-pure
  requant_chunks-Goes r mc (suc left) m0 = Goes-if (not (ltb m0 r.m)) Goes-pure (
      Goes-bind (requant_rows-Goes _)
        (λ c. Goes-if (c == 0) Goes-pure (requant_chunks-Goes r mc left (m0 + mc))))

  pub requant-Goes :
      {m : Modes} (acc n rows params out : ℕ)
      → Goes Aim.keeping m m (requant v acc n rows params out)
  unfolding requant
  requant-Goes acc n rows params out = Goes-bind (accel_init-Goes v) (λ ok. Goes-gets _ (λ d _.
      Goes-if _ Goes-pure (
        Goes-bind (store_int-Goes _ _) (λ _.
          Goes-bind (requant_chunks-Goes _ _ rows 0)
            (λ r. Goes-bind (load_int-Goes _) (λ a. Goes-pure))))))

  pub requant_stride-Goes :
      (acc n rows params out stride : ℕ)
      → Goes Aim.keeping quiet quiet (requant_stride v acc n rows params out stride)
  unfolding requant_stride
  requant_stride-Goes acc n rows params out stride = Goes-bind (set_out_stride-Goes stride) (λ _.
      Goes-bind (requant-Goes acc n rows params out)
        (λ r. Goes-bind (set_out_stride-Goes 0) (λ _. Goes-pure)))

  pub requant_rows_async-Goes :
      (acc n rows m0 mc params out amax : ℕ) (e : Epi)
      → Goes Aim.keeping quiet quiet (requant_rows_async v acc n rows m0 mc params out amax e)
  unfolding requant_rows_async
  requant_rows_async-Goes acc n rows m0 mc params out amax e = Goes-bind (accel_init-Goes v) (λ ok.
      Goes-gets _ (λ d _. Goes-if _ Goes-pure (
        Goes-bind (set_defer-Goes true) (λ _.
          Goes-bind (requant_rows-Goes _)
            (λ r. Goes-bind (set_defer-Goes false) (λ _. Goes-pure))))))

  -- The modes that the callers of the requantisations choose.
  abbrev choosing : Bool → ℕ → ℕ → Modes
  choosing on base sums = record quiet { rq_onchip = on; cr_base = base; rq_msums = sums }

  pitched-Goes : (x y : ℕ) (r : Rows) → Goes Aim.keeping quiet quiet (pitched v x y r)
  unfolding pitched
  pitched-Goes x y r = Goes-bind (set_in_pitch-Goes x) (λ _. Goes-bind (set_out_stride-Goes y) (λ _.
      Goes-bind (set_defer-Goes true) (λ _. Goes-bind (requant_rows-Goes r) (λ _.
        Goes-bind (set_defer-Goes false) (λ _.
          Goes-bind (set_out_stride-Goes 0)
            (λ _. Goes-bind (set_in_pitch-Goes 0) (λ _. Goes-pure)))))))

  pub requant_lut_async-Goes :
      (on : Bool) (base sums acc n rows params out stride lut : ℕ) (load : Bool)
      → Goes Aim.keeping
          (choosing on base sums)
          (choosing on base sums)
          (requant_lut_async v acc n rows params out stride lut load)
  unfolding requant_lut_async
  requant_lut_async-Goes on base sums acc n rows params out stride lut load =
      Goes-bind (accel_init-Goes v) (λ ok. Goes-gets _ (λ d _. Goes-if _ Goes-pure (
        Goes-bind (set_out_stride-Goes stride) (λ _. Goes-bind (set_defer-Goes true) (λ _.
          Goes-bind (requant_rows-Goes _) (λ r.
            Goes-bind (set_defer-Goes false)
              (λ _. Goes-bind (set_out_stride-Goes 0) (λ _. Goes-pure))))))))

  pub requant_stride_async-Goes :
      (on : Bool) (base acc n rows params out stride : ℕ)
      → Goes Aim.keeping
          (choosing on base 0)
          (choosing on base 0)
          (requant_stride_async v acc n rows params out stride)
  unfolding requant_stride_async
  requant_stride_async-Goes on base acc n rows params out stride =
      Goes-bind (accel_init-Goes v) (λ ok. Goes-gets _ (λ d _. Goes-if _ Goes-pure (
        Goes-bind (set_out_stride-Goes stride) (λ _. Goes-bind (set_defer-Goes true) (λ _.
          Goes-bind (requant_rows-Goes _) (λ r.
            Goes-bind (set_defer-Goes false)
              (λ _. Goes-bind (set_out_stride-Goes 0) (λ _. Goes-pure))))))))

  pub requant_lut_cr_async-Goes :
      (sums base n rows params out stride lut : ℕ) (load : Bool)
      → Goes Aim.keeping
          (choosing false 0 sums)
          (choosing false 0 sums)
          (requant_lut_cr_async v base n rows params out stride lut load)
  unfolding requant_lut_cr_async
  requant_lut_cr_async-Goes sums base n rows params out stride lut load =
      Goes-bind (accel_init-Goes v) (λ ok. Goes-gets _ (λ d _. Goes-if _ Goes-pure (
        Goes-bind (set_onchip-Goes true base) (λ _.
          Goes-bind (requant_lut_async-Goes true base sums 0 n rows params out stride lut load)
            (λ r. Goes-bind (set_onchip-Goes false 0) (λ _. Goes-pure))))))

  pub requant_stride_cr_async-Goes :
      (base n rows params out stride : ℕ)
      → Goes Aim.keeping quiet quiet (requant_stride_cr_async v base n rows params out stride)
  unfolding requant_stride_cr_async
  requant_stride_cr_async-Goes base n rows params out stride = Goes-bind (accel_init-Goes v) (λ ok.
      Goes-gets _ (λ d _. Goes-if _ Goes-pure (
        Goes-bind (set_onchip-Goes true base) (λ _.
          Goes-bind (requant_stride_async-Goes true base 0 n rows params out stride)
            (λ r. Goes-bind (set_onchip-Goes false 0) (λ _. Goes-pure))))))

  pub exp_async-Goes :
      (acc base n rows params out stride lut : ℕ) (load : Bool) (sums : ℕ)
      → Goes Aim.keeping quiet quiet (exp_async v acc base n rows params out stride lut load sums)
  unfolding exp_async
  exp_async-Goes acc base n rows params out stride lut load sums =
      Goes-bind (accel_init-Goes v) (λ ok. Goes-gets _ (λ d _. Goes-if _ Goes-pure (
        Goes-bind (set_msums-Goes sums) (λ _.
          Goes-bind
            (Goes-if (acc == 0)
              (requant_lut_cr_async-Goes sums base n rows params out stride lut load)
              (requant_lut_async-Goes false 0 sums acc n rows params out stride lut load))
            (λ r. Goes-bind (set_msums-Goes 0) (λ _. Goes-pure))))))

  pub transpose16_async-Goes :
      (input pitch n rows out stride : ℕ)
      → Goes Aim.keeping quiet quiet (transpose16_async v input pitch n rows out stride)
  unfolding transpose16_async
  transpose16_async-Goes input pitch n rows out stride = Goes-bind (accel_init-Goes v) (λ ok.
      Goes-gets _ (λ d _. Goes-if _ Goes-pure (
        Goes-bind (load_int-Goes _) (λ first.
          Goes-bind (Goes-if _ (fill_identity-Goes tp_max _) Goes-pure)
            (λ _. pitched-Goes pitch stride _)))))

  pub norm16_async-Goes :
      (input pitch n rows params out stride : ℕ)
      → Goes Aim.keeping quiet quiet (norm16_async v input pitch n rows params out stride)
  unfolding norm16_async
  norm16_async-Goes input pitch n rows params out stride =
      Goes-bind (accel_init-Goes v)
        (λ ok. Goes-gets _ (λ d _. Goes-if _ Goes-pure (pitched-Goes pitch stride _)))

  pub requant16-Goes :
      (input n rows params out ostats : ℕ)
      → Goes Aim.keeping quiet quiet (requant16 v input n rows params out ostats)
  unfolding requant16
  requant16-Goes input n rows params out ostats = Goes-bind (accel_init-Goes v) (λ ok.
      Goes-gets _ (λ d _. Goes-if _ Goes-pure (
        Goes-bind (store_int-Goes _ _) (λ _. Goes-bind (requant_chunks-Goes _ _ rows 0) (λ r.
          Goes-if (r == 0) Goes-pure (
            Goes-bind (finish-Goes v careful)
              (λ s. Goes-bind (load_int-Goes _) (λ a. Goes-pure))))))))
