-- ===== src/Accel/KeptProducts.antt =====
-- The products keep the promise and the modes.
use risc_v_vi_t_accelerator.Base.{
  inl, inr, ℕ, zero, suc, ◌+◌, ◌*◌, refl, ap, Bool, true, false, not, ◌&&◌, ◌||◌, ◌==◌, ltb, leb, ℤ,
  pos_part,
}
use mathlib.Core.Path.{subst}
use risc_v_vi_t_accelerator.Emulator.{aligned}
use risc_v_vi_t_accelerator.Accel.{Driver, Env, modify}
use risc_v_vi_t_accelerator.Accel.Run.{
  Product, add_parts, set_gemm_ctrl, set_defer, start_tile, run_tiles, accel_run,
}
use risc_v_vi_t_accelerator.Accel.Qgemm.{
  raw_ok, gemm_raw, gemm_raw_async, qgemm_chunks, qgemm_split, alloc_stats, qgemm_whole,
  accel_qgemm, qgemm_async, qgemm_onchip_async,
}
use risc_v_vi_t_accelerator.Accel.Gemm16.{
  feature_ok, wsh_ok, gemm16_async, gemm16_shift_async, gemm16_cr_async, wsh_in_range,
}
use risc_v_vi_t_accelerator.Accel.Logic.{
  Modes, modes, At, Goes-lower, IsSettled, Aim, Goes, Goes-bind, Goes-gets, Goes-pure, Goes-if,
  Goes-null, Goes-modify, settling-keeping,
}
use risc_v_vi_t_accelerator.Accel.Steps.{
  write_all-Goes, write_ctrl-Goes, read-Goes, load_int-Goes, store_int-Goes, mark-Goes,
  release-Goes, alloc-Goes,
}
use risc_v_vi_t_accelerator.Accel.Waits.{
  IsCareful, rng_begin-Goes, rng_end-Goes, count_job-Goes, prefill_stats-Goes, defer-Goes,
  wait_simple-Goes,
}
use risc_v_vi_t_accelerator.Accel.Settle.{rng_ctrl-Goes, accel_init-Goes, finish-Goes}

-- The modes between operations.
abbrev pub quiet : Modes
quiet = record {
  probed = true;
  defer = false;
  gemm_ctrl = 0;
  gemm_wsh = 0;
  cr_base = 0;
  rq_onchip = false;
  rq_msums = 0;
  out_stride = 0;
  in_pitch = 0;
  conv_relu = false;
  conv_onchip = false;
}

module _ {m : Modes} where
  pub set_defer-Goes : (b : Bool) → Goes Aim.keeping m (record m { defer = b }) (set_defer b)
  unfolding set_defer IsSettled
  set_defer-Goes b =
      Goes-modify (λ m. record m { defer = b }) _ (refl, inl refl) (λ d. refl) (λ d s. s)

  pub set_gemm_ctrl-Goes :
      (x : ℕ) → Goes Aim.keeping m (record m { gemm_ctrl = x }) (set_gemm_ctrl x)
  unfolding set_gemm_ctrl IsSettled
  set_gemm_ctrl-Goes x =
      Goes-modify (λ m. record m { gemm_ctrl = x }) _ (refl, inr refl) (λ d. refl) (λ d s. s)

  pub add_parts-Goes : (n acc part : ℕ) → Goes Aim.keeping m m (add_parts acc part n)
  unfolding add_parts
  add_parts-Goes zero acc part = Goes-pure
  add_parts-Goes (suc left) acc part = Goes-bind (load_int-Goes _) (λ _.
      Goes-bind (load_int-Goes _)
        (λ _. Goes-bind (store_int-Goes _ _) (λ _. add_parts-Goes left (acc + 4) (part + 4))))

module _ (v : Env) (careful : IsCareful v) where
  start_tile-Goes :
      {m : Modes} (p : Product) (t n0 nt : ℕ) → Goes Aim.starting m m (start_tile v p t n0 nt)
  unfolding start_tile
  start_tile-Goes p t n0 nt = Goes-gets _ (λ _ _. Goes-gets _ (λ _ _. Goes-gets _ (λ _ _.
      Goes-bind (write_all-Goes v _) (λ _. Goes-bind (write_all-Goes v _) (λ _.
        Goes-bind (Goes-if _ (prefill_stats-Goes p.m _) Goes-pure)
          (λ _. Goes-bind (rng_ctrl-Goes v) (λ _. write_ctrl-Goes v _)))))))

  run_tiles-Goes :
      {m : Modes} (p : Product) (left t n0 : ℕ) → Goes Aim.keeping m m (run_tiles v p left t n0)
  unfolding run_tiles
  run_tiles-Goes p zero t n0 = Goes-pure
  run_tiles-Goes {m = m} p (suc left) t n0 = Goes-gets _ (λ d _. Goes-gets _ (λ _ _.
      Goes-if (not (ltb n0 p.n)) Goes-pure (
        settling-keeping (
          Goes-bind (careful.need_keeps _ m) (λ _. Goes-bind (start_tile-Goes p t n0 _) (λ _.
            defer-Goes _ _ _ _ _ (
              Goes-bind (wait_simple-Goes v careful) (λ ended. Goes-if (not ended) Goes-pure (
                Goes-bind (read-Goes v _) (λ _. Goes-bind (read-Goes v _) (λ _.
                  Goes-bind (count_job-Goes _ _ _)
                    (λ _. run_tiles-Goes p left (t + 1) (n0 + d.nrows)))))))))))))

  pub accel_run-Goes : {m : Modes} (p : Product) → Goes Aim.keeping m m (accel_run v p)
  unfolding accel_run
  accel_run-Goes p = Goes-bind (finish-Goes v careful) (λ settled.
      Goes-if (not settled) Goes-pure
        (Goes-gets _ (λ _ _. Goes-bind (write_all-Goes v _) (λ _. run_tiles-Goes p p.n 0 0))))

  pub gemm_raw-Goes : {m : Modes} (p : Product) → Goes Aim.keeping m m (gemm_raw v p)
  unfolding gemm_raw
  gemm_raw-Goes p =
      Goes-bind (accel_init-Goes v)
        (λ ok. Goes-gets _ (λ d _. Goes-if (ok && raw_ok p d.kmax) (accel_run-Goes _) Goes-pure))

  pub gemm_raw_async-Goes : (p : Product) → Goes Aim.keeping quiet quiet (gemm_raw_async v p)
  unfolding gemm_raw_async
  gemm_raw_async-Goes p =
      Goes-bind (set_defer-Goes true)
        (λ _. Goes-bind (gemm_raw-Goes p) (λ r. Goes-bind (set_defer-Goes false) (λ _. Goes-pure)))

  qgemm_chunks-Goes :
      {m : Modes} (p : Product) (part kc left k0 : ℕ)
      → Goes Aim.keeping m m (qgemm_chunks v p part kc left k0)
  unfolding qgemm_chunks
  qgemm_chunks-Goes p part kc zero k0 = Goes-pure
  qgemm_chunks-Goes p part kc (suc left) k0 = Goes-if (not (ltb k0 p.k)) Goes-pure (
      Goes-bind (accel_run-Goes _) (λ r. Goes-if (r == 0) Goes-pure (
        Goes-bind (Goes-if (k0 == 0) Goes-pure (add_parts-Goes (p.n * p.m) _ _))
          (λ _. qgemm_chunks-Goes p part kc left (k0 + kc)))))

  qgemm_split-Goes : {m : Modes} (p : Product) → Goes Aim.keeping m m (qgemm_split v p)
  unfolding qgemm_split
  qgemm_split-Goes {m = m} p = Goes-bind mark-Goes (λ mk. Goes-gets _ (λ d _.
      Goes-bind (alloc-Goes _) (λ part.
        Goes-null part (Goes-bind (release-Goes mk) (λ _. Goes-pure)) (λ q. Goes-gets _ (λ d1 at_m.
          Goes-bind (set_defer-Goes false) (λ _. Goes-bind (qgemm_chunks-Goes p q _ p.k 0) (λ r.
            Goes-bind (restore d1 at_m) (λ _. Goes-bind (release-Goes mk) (λ _. Goes-pure)))))))))
    where
      restore :
          (d1 : Driver)
          → At m (modes d1)
          → Goes Aim.keeping (record m { defer = false }) m (set_defer d1.defer)
      restore d1 (probed, inl same) =
          subst
            (λ (x : Modes). Goes Aim.keeping (record m { defer = false }) x (set_defer d1.defer))
            (ap (λ (x : Modes). record m { defer = x.defer }) same) (set_defer-Goes d1.defer)
      restore d1 (probed, inr same) = Goes-lower (
          subst
            (λ (x : Modes). Goes Aim.keeping (record m { defer = false }) x (set_defer d1.defer))
            (ap (λ (x : Modes). record m { defer = x.defer }) same) (set_defer-Goes d1.defer))

  alloc_stats-Goes : {m : Modes} (b : Bool) (t n : ℕ) → Goes Aim.keeping m m (alloc_stats v b t n)
  unfolding alloc_stats
  alloc_stats-Goes b t n =
      Goes-if (not b) Goes-pure
        (Goes-bind (alloc-Goes _) (λ p. Goes-null p Goes-pure (λ q. Goes-pure)))

  pub accel_qgemm-Goes :
      {m : Modes} (a w acc n k rows : ℕ) (wanted : Bool)
      → Goes Aim.keeping m m (accel_qgemm v a w acc n k rows wanted)
  unfolding accel_qgemm qgemm_whole
  accel_qgemm-Goes a w acc n k rows wanted = Goes-bind (accel_init-Goes v) (λ ok.
      Goes-gets _ (λ d _.
        Goes-if
          (not ok
            || ltb k 4
            || not (aligned k)
            || ltb n 1
            || ltb rows 1
            || not (aligned a && aligned w && aligned acc))
          Goes-pure
          (Goes-if (leb k d.kmax)
            (Goes-gets _ (λ d1 _.
              Goes-bind (alloc_stats-Goes wanted _ rows)
                (λ st. Goes-bind (accel_run-Goes _) (λ r. Goes-pure))))
            (qgemm_split-Goes _))))

  pub qgemm_async-Goes :
      (a w acc n k rows : ℕ) (wanted : Bool)
      → Goes Aim.keeping quiet quiet (qgemm_async v a w acc n k rows wanted)
  unfolding qgemm_async
  qgemm_async-Goes a w acc n k rows wanted = Goes-bind (rng_begin-Goes rows) (λ _.
      Goes-bind (set_defer-Goes true) (λ _.
        Goes-bind (accel_qgemm-Goes a w acc n k rows wanted) (λ r.
          Goes-bind (set_defer-Goes false) (λ _. Goes-bind (rng_end-Goes r.0) (λ _. Goes-pure)))))

  pub qgemm_onchip_async-Goes :
      (a w n k rows : ℕ) → Goes Aim.keeping quiet quiet (qgemm_onchip_async v a w n k rows)
  unfolding qgemm_onchip_async
  qgemm_onchip_async-Goes a w n k rows = Goes-bind (accel_init-Goes v) (λ ok. Goes-gets _ (λ d1 _.
      Goes-gets _ (λ d2 _. Goes-gets _ (λ d3 _. Goes-if (not (ok && d1.onchip_ok)) Goes-pure (
        Goes-if _ Goes-pure (
          Goes-if (not (aligned a && aligned w)) Goes-pure (
            Goes-bind (alloc-Goes _) (λ stats. Goes-null stats Goes-pure (λ q.
              Goes-bind (rng_begin-Goes rows) (λ _. Goes-bind (set_defer-Goes true) (λ _.
                Goes-bind (set_gemm_ctrl-Goes 0x400) (λ _. Goes-bind (accel_run-Goes _) (λ r.
                  Goes-bind (set_gemm_ctrl-Goes 0) (λ _.
                    Goes-bind (rng_end-Goes r)
                      (λ _. Goes-bind (set_defer-Goes false) (λ _. Goes-pure))))))))))))))))

  -- The modes while CTRL.wsh is chosen.
  abbrev shifting : ℕ → Modes
  shifting x = record quiet { gemm_wsh = x }

  gemm16_async-Goes :
      (x : ℕ) (p : Product) → Goes Aim.keeping (shifting x) (shifting x) (gemm16_async v p)
  unfolding gemm16_async
  gemm16_async-Goes x p = Goes-bind (accel_init-Goes v) (λ ok. Goes-gets _ (λ d _.
      Goes-if _ Goes-pure (
        Goes-bind (set_defer-Goes true) (λ _. Goes-bind (set_gemm_ctrl-Goes _) (λ _.
          Goes-bind (accel_run-Goes _) (λ r.
            Goes-bind (set_gemm_ctrl-Goes 0)
              (λ _. Goes-bind (set_defer-Goes false) (λ _. Goes-pure))))))))

  set_wsh-Goes :
      {m : Modes} (x : ℕ)
      → Goes Aim.keeping m (record m { gemm_wsh = x }) (modify (λ d. record d { gemm_wsh = x }))
  unfolding IsSettled
  set_wsh-Goes x =
      Goes-modify (λ m. record m { gemm_wsh = x }) _ (refl, inr refl) (λ d. refl) (λ d s. s)

  pub gemm16_shift_async-Goes :
      (p : Product) (wsh : ℤ) → Goes Aim.keeping quiet quiet (gemm16_shift_async v p wsh)
  unfolding gemm16_shift_async wsh_ok feature_ok
  gemm16_shift_async-Goes p wsh = Goes-if (not (wsh_in_range wsh)) Goes-pure (
      Goes-bind
        (Goes-if (pos_part wsh == 0) Goes-pure
          (Goes-bind (accel_init-Goes v) (λ ok. Goes-gets _ (λ d _. Goes-pure))))
        (λ shifts. Goes-if (not shifts) Goes-pure (
          Goes-bind (set_wsh-Goes _) (λ _.
            Goes-bind (gemm16_async-Goes _ p) (λ r. Goes-bind (set_wsh-Goes 0) (λ _. Goes-pure))))))

  set_base-Goes :
      {m : Modes} (x : ℕ)
      → Goes Aim.keeping m (record m { cr_base = x }) (modify (λ d. record d { cr_base = x }))
  unfolding IsSettled
  set_base-Goes x =
      Goes-modify (λ m. record m { cr_base = x }) _ (refl, inr refl) (λ d. refl) (λ d s. s)

  pub gemm16_cr_async-Goes :
      (p : Product) (wsh : ℤ) (base : ℕ)
      → Goes Aim.keeping quiet quiet (gemm16_cr_async v p wsh base)
  unfolding gemm16_cr_async
  gemm16_cr_async-Goes p wsh base = Goes-bind (accel_init-Goes v) (λ ok. Goes-gets _ (λ d _.
      Goes-if _ Goes-pure (
        Goes-bind (set_defer-Goes true) (λ _. Goes-bind (set_gemm_ctrl-Goes _) (λ _.
          Goes-bind (set_base-Goes base) (λ _. Goes-bind (accel_run-Goes _) (λ r.
            Goes-bind (set_base-Goes 0) (λ _.
              Goes-bind (set_gemm_ctrl-Goes 0)
                (λ _. Goes-bind (set_defer-Goes false) (λ _. Goes-pure))))))))))
