-- ===== src/Accel/KeptImages.antt =====
-- The convolutions, the interpolation and the LayerNorm jobs keep the promise and the modes.
use risc_v_vi_t_accelerator.Base.{
  ℕ, zero, suc, ◌+◌, ◌*◌, refl, Bool, true, false, not, ◌&&◌, ◌||◌, ◌==◌, ltb, if◌then◌else◌, ℤ, ap,
  Bool-cases, inl, inr, some-injective, arith,
}
use mathlib.Core.Path.{subst}
use risc_v_vi_t_accelerator.Accel.{Driver, Env, Action, pure, ◌>>=◌, ◌>>◌, modify}
use risc_v_vi_t_accelerator.Accel.Run.{Stats, set_defer}
use risc_v_vi_t_accelerator.Accel.Wait.{maybe_defer}
use risc_v_vi_t_accelerator.Accel.Image.{
  Image, pixels, positions, image_ok, Plan, make_plan, mode_ok, set_conv_relu, set_conv_onchip,
}
use risc_v_vi_t_accelerator.Accel.Conv.{
  start_conv_tile, conv_tiles, conv_chunks, run_plan, conv_single, conv_split, accel_conv,
  conv_async, conv_onchip_async,
}
use risc_v_vi_t_accelerator.Accel.Special.{LayerA, LayerB, set_ln_a_jobs, lerp_async, ln_a, ln_b}
use risc_v_vi_t_accelerator.Accel.Logic.{
  Modes, modes, At, At-change, Goes-lower, drop, IsSettled, Aim, Reaches, Goes, Goes-bind,
  Goes-gets, Goes-pure, Goes-if, Goes-null, Goes-fault, Goes-modify, settling-keeping,
  keeping-starting,
}
use risc_v_vi_t_accelerator.Accel.Steps.{
  write_all-Goes, write_ctrl-Goes, read-Goes, mark-Goes, release-Goes, alloc-Goes,
}
use risc_v_vi_t_accelerator.Accel.Waits.{
  IsCareful, rng_begin-Goes, rng_end-Goes, count_job-Goes, prefill_stats-Goes, defer-Goes,
  wait_simple-Goes,
}
use risc_v_vi_t_accelerator.Accel.Settle.{rng_ctrl-Goes, accel_init-Goes, finish-Goes}
use risc_v_vi_t_accelerator.Accel.KeptProducts.{quiet, set_defer-Goes, add_parts-Goes}

module _ {m : Modes} where
  set_conv_relu-Goes :
      (b : Bool) → Goes Aim.keeping m (record m { conv_relu = b }) (set_conv_relu b)
  unfolding set_conv_relu IsSettled
  set_conv_relu-Goes b =
      Goes-modify (λ m. record m { conv_relu = b }) _ (refl, inr refl) (λ d. refl) (λ d s. s)

  set_conv_onchip-Goes :
      (b : Bool) → Goes Aim.keeping m (record m { conv_onchip = b }) (set_conv_onchip b)
  unfolding set_conv_onchip IsSettled
  set_conv_onchip-Goes b =
      Goes-modify (λ m. record m { conv_onchip = b }) _ (refl, inr refl) (λ d. refl) (λ d s. s)

  set_ln_a_jobs-Goes : (x : ℕ) → Goes Aim.keeping m m (set_ln_a_jobs x)
  unfolding set_ln_a_jobs IsSettled
  set_ln_a_jobs-Goes x = Goes-modify (λ m. m) _ (refl, inr refl) (λ d. refl) (λ d s. s)

  rng_off-Goes : Goes Aim.keeping m m (modify (λ d. record d { rng_on = false }))
  unfolding IsSettled
  rng_off-Goes = Goes-modify (λ m. m) _ (refl, inr refl) (λ d. refl) (λ d s. s)

-- As a job is left running, accel_defer is cleared again.
defer_off-Goes :
    {A : Type 0} (m : Modes) (last : Bool) (beats amax : ℕ) (a : A) (k : Action A)
    → Goes Aim.settling (record m { defer = false }) (record m { defer = false }) k
    → Goes Aim.settling
        (record m { defer = true })
        (record m { defer = false })
        (maybe_defer last beats amax >>= λ b. set_defer false >> (if b then pure a else k))
unfolding maybe_defer set_defer modify ◌>>=◌ Reaches IsSettled
defer_off-Goes {A = A} m last beats amax a k p = record {
  runs = λ d x d' run at_m.
      let off = At-change drop (record m { defer = true }) (modes d) (refl, inl refl) at_m in
      elim (Bool-cases (d.defer && last)) [
        | inl deferred ↦
            let same = ap (λ (o : A × Driver). o.1) (some-injective _ _ (rw deferred at run)) in
            subst (λ (y : Driver). At (drop m) (modes y) × IsSettled y) same
              (off, λ ok inactive. absurd (grind arith))
        | inr waits ↦ p.runs _ x d' (rw waits at run) off
      ];
}

module _ (v : Env) (careful : IsCareful v) where
  start_conv_tile-Goes :
      {m : Modes} (p : Plan) (p0 pc dst t n0 nt : ℕ)
      → Goes Aim.starting m m (start_conv_tile v p p0 pc dst t n0 nt)
  unfolding start_conv_tile
  start_conv_tile-Goes {m = m} p p0 pc dst t n0 nt = Goes-bind (careful.need_keeps _ m) (λ _.
      Goes-bind (write_all-Goes v _) (λ _. Goes-bind (write_all-Goes v _) (λ _.
        Goes-bind (write_all-Goes v _) (λ _. Goes-gets _ (λ d _.
          Goes-bind (Goes-if _ (prefill_stats-Goes p.image.m _) Goes-pure)
            (λ _. Goes-bind (rng_ctrl-Goes v) (λ _. write_ctrl-Goes v _)))))))

  conv_tiles-Goes :
      {m : Modes} (p : Plan) (p0 pc dst left t n0 : ℕ)
      → Goes Aim.keeping m m (conv_tiles v p p0 pc dst left t n0)
  unfolding conv_tiles
  conv_tiles-Goes p p0 pc dst zero t n0 = Goes-pure
  conv_tiles-Goes p p0 pc dst (suc left) t n0 = Goes-gets _ (λ d _.
      Goes-if (not (ltb n0 (pixels p.image))) Goes-pure (
        settling-keeping (
          Goes-bind (start_conv_tile-Goes p p0 pc dst t n0 _) (λ _. defer-Goes _ _ _ _ _ (
            Goes-bind (wait_simple-Goes v careful) (λ ended. Goes-if (not ended) Goes-pure (
              Goes-bind (read-Goes v _) (λ _. Goes-bind (read-Goes v _) (λ _.
                Goes-bind (count_job-Goes _ _ _)
                  (λ _. conv_tiles-Goes p p0 pc dst left (t + 1) (n0 + d.nrows)))))))))))

  conv_chunks-Goes :
      {m : Modes} (p : Plan) (left p0 : ℕ) → Goes Aim.keeping m m (conv_chunks v p left p0)
  unfolding conv_chunks
  conv_chunks-Goes p zero p0 = Goes-pure
  conv_chunks-Goes p (suc left) p0 =
      let i = p.image in
      Goes-if (not (ltb p0 (i.k * i.k))) Goes-pure (
        Goes-bind (write_all-Goes v _) (λ _.
          Goes-bind (conv_tiles-Goes p p0 _ _ (pixels i) 0 0) (λ r.
            Goes-if (not (r == 1)) Goes-pure (
              Goes-bind (Goes-if (p0 == 0) Goes-pure (add_parts-Goes (pixels i * i.m) _ _))
                (λ _. conv_chunks-Goes p left (p0 + p.pc_max))))))

  run_plan-Goes :
      {m : Modes} (p : Plan) (mk : ℕ) (st : Stats) → Goes Aim.keeping m m (run_plan v p mk st)
  unfolding run_plan
  run_plan-Goes p mk st = Goes-bind (write_all-Goes v _) (λ _.
      Goes-bind (conv_chunks-Goes p _ 0)
        (λ r. Goes-bind (Goes-if _ (release-Goes mk) Goes-pure) (λ _. Goes-pure)))

  conv_single-Goes :
      {m : Modes} (p : Plan) (wanted : Bool) → Goes Aim.keeping m m (conv_single v p wanted)
  unfolding conv_single
  conv_single-Goes p wanted = Goes-bind mark-Goes (λ mk. Goes-gets _ (λ d _.
      Goes-if (not wanted) (run_plan-Goes p mk _) (
        Goes-bind (alloc-Goes _) (λ stats.
          Goes-null stats (Goes-if p.onchip Goes-pure (run_plan-Goes p mk _))
            (λ q. run_plan-Goes _ mk _)))))

  conv_split-Goes : {m : Modes} (p : Plan) → Goes Aim.keeping m m (conv_split v p)
  unfolding conv_split
  conv_split-Goes p = Goes-bind mark-Goes (λ mk. Goes-bind (alloc-Goes _) (λ part.
      Goes-null part (Goes-bind (release-Goes mk) (λ _. Goes-pure)) (λ q. run_plan-Goes _ mk _)))

  pub accel_conv-Goes :
      {m : Modes} (i : Image) (wanted : Bool) → Goes Aim.keeping m m (accel_conv v i wanted)
  unfolding accel_conv
  accel_conv-Goes i wanted = Goes-bind (accel_init-Goes v) (λ ok. Goes-gets _ (λ d _.
      Goes-if (not (ok && d.gather_ok)) Goes-pure (
        Goes-if (ltb (i.h + 2 * i.pad) i.k || ltb (i.w + 2 * i.pad) i.k || (i.stride == 0))
          Goes-fault
          (Goes-if (not (image_ok i) || ltb (positions d.kmax i) 1) Goes-pure (
            Goes-bind (finish-Goes v careful) (λ settled. Goes-gets _ (λ d2 _.
              let p = make_plan d2 i in
              Goes-if (not settled) Goes-pure (
                Goes-bind (Goes-if p.single Goes-pure rng_off-Goes) (λ _.
                  Goes-if (mode_ok d2 p wanted)
                    (Goes-if p.single (conv_single-Goes p wanted) (conv_split-Goes p))
                    Goes-pure)))))))))

  pub conv_async-Goes :
      (i : Image) (wanted relu : Bool) → Goes Aim.keeping quiet quiet (conv_async v i wanted relu)
  unfolding conv_async
  conv_async-Goes i wanted relu = Goes-bind (rng_begin-Goes i.m) (λ _.
      Goes-bind (set_defer-Goes true) (λ _. Goes-bind (set_conv_relu-Goes relu) (λ _.
        Goes-bind (accel_conv-Goes i wanted) (λ r. Goes-bind (set_conv_relu-Goes false) (λ _.
          Goes-bind (set_defer-Goes false) (λ _. Goes-bind (rng_end-Goes r.0) (λ _. Goes-pure)))))))

  pub conv_onchip_async-Goes :
      (i : Image) (relu : Bool) → Goes Aim.keeping quiet quiet (conv_onchip_async v i relu)
  unfolding conv_onchip_async
  conv_onchip_async-Goes i relu = Goes-bind (accel_init-Goes v) (λ ok. Goes-gets _ (λ d _.
      Goes-if _ Goes-pure (
        Goes-bind (rng_begin-Goes i.m) (λ _. Goes-bind (set_defer-Goes true) (λ _.
          Goes-bind (set_conv_onchip-Goes true) (λ _. Goes-bind (set_conv_relu-Goes relu) (λ _.
            Goes-bind (accel_conv-Goes _ true) (λ r. Goes-bind (rng_end-Goes r.0) (λ _.
              Goes-bind (set_conv_relu-Goes false) (λ _.
                Goes-bind (set_conv_onchip-Goes false)
                  (λ _. Goes-bind (set_defer-Goes false) (λ _. Goes-pure))))))))))))

  pub lerp_async-Goes :
      {m : Modes} (t stride out n : ℕ) (w : ℤ)
      → Goes Aim.keeping m m (lerp_async v t stride out n w)
  unfolding lerp_async
  lerp_async-Goes {m = m} t stride out n w = Goes-bind (accel_init-Goes v) (λ ok.
      Goes-gets _ (λ d _. Goes-if _ Goes-pure (
        Goes-bind (finish-Goes v careful) (λ settled. Goes-if (not settled) Goes-pure (
          settling-keeping (
            Goes-lower (
              Goes-bind (write_all-Goes v _) (λ _. Goes-bind (write_ctrl-Goes v _) (λ _.
                Goes-bind (set_defer-Goes true) (λ _.
                  defer_off-Goes m _ _ _ _ _
                    (Goes-bind (wait_simple-Goes v careful) (λ ended. Goes-pure))))))))))))

  pub ln_a-Goes : (j : LayerA) → Goes Aim.keeping quiet quiet (ln_a v j)
  unfolding ln_a
  ln_a-Goes j = Goes-bind (set_ln_a_jobs-Goes _) (λ _. Goes-bind (accel_init-Goes v) (λ ok.
      Goes-gets _ (λ d _. Goes-if _ Goes-pure (
        Goes-bind (finish-Goes v careful) (λ settled. Goes-if (not settled) Goes-pure (
          settling-keeping (
            Goes-bind (keeping-starting (write_all-Goes v _)) (λ _.
              Goes-bind (write_ctrl-Goes v _) (λ _. Goes-bind (wait_simple-Goes v careful) (λ ended.
                Goes-if (not ended) Goes-pure (
                  Goes-bind (read-Goes v _) (λ _. Goes-bind (count_job-Goes _ _ _) (λ _.
                    Goes-bind (read-Goes v _) (λ _. Goes-bind (read-Goes v _) (λ _.
                      Goes-gets _
                        (λ d1 _. Goes-bind (set_ln_a_jobs-Goes _) (λ _. Goes-pure)))))))))))))))))

  pub ln_b-Goes : (j : LayerB) → Goes Aim.keeping quiet quiet (ln_b v j)
  unfolding ln_b
  ln_b-Goes j = Goes-bind (accel_init-Goes v) (λ ok. Goes-gets _ (λ d _. Goes-if _ Goes-pure (
      settling-keeping (
        Goes-bind (keeping-starting (set_ln_a_jobs-Goes _)) (λ _.
          Goes-bind (write_all-Goes v _) (λ _. Goes-bind (write_ctrl-Goes v _) (λ _.
            Goes-bind (wait_simple-Goes v careful) (λ ended. Goes-if (not ended) Goes-pure (
              Goes-bind (read-Goes v _) (λ _.
                Goes-bind (count_job-Goes _ _ _)
                  (λ _. Goes-bind (read-Goes v _) (λ _. Goes-pure))))))))))))
