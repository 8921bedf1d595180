-- ===== src/Accel/Settle.antt =====
-- The operations that collect a job keep the promise: dav2_accel_finish and the accessors.
use risc_v_vi_t_accelerator.Base.{inr, refl, not}
use risc_v_vi_t_accelerator.Accel.{Env, RngCfg}
use risc_v_vi_t_accelerator.Accel.Wait.{rng_ctrl, accel_init, busy, finish, rng_next, rng_get}
use risc_v_vi_t_accelerator.Accel.Logic.{
  Modes, modes, At-probed, IsSettled, Aim, Goes, Goes-bind, Goes-gets, Goes-read, Goes-pure,
  Goes-if, Goes-when, Goes-modify, Goes-assign, settling-keeping,
}
use risc_v_vi_t_accelerator.Accel.Steps.{write_all-Goes, read-Goes, read_status-Goes}
use risc_v_vi_t_accelerator.Accel.Waits.{
  IsCareful, raise_amax-Goes, count_job-Goes, wait_simple-Goes,
}

module _ (v : Env) {m : Modes} where
  pub rng_ctrl-Goes : Goes Aim.keeping m m (rng_ctrl v)
  unfolding rng_ctrl IsSettled
  rng_ctrl-Goes = Goes-gets _ (λ d _. Goes-gets _ (λ d' _. Goes-gets _ (λ c _.
      Goes-if (not d.rng_on) Goes-pure (
        Goes-if (not d'.rng_first) Goes-pure (
          Goes-bind (Goes-modify (λ m. m) _ (refl, inr refl) (λ d. refl) (λ d s. s))
            (λ _. Goes-bind (write_all-Goes v _) (λ _. Goes-pure)))))))

  pub busy-Goes : Goes Aim.keeping m m (busy v)
  unfolding busy
  busy-Goes =
      Goes-gets _ (λ _ _. Goes-if _ Goes-pure (Goes-bind (read_status-Goes v) (λ _. Goes-pure)))

  -- Once probed, dav2_accel_init only reads accel_ok.
  pub accel_init-Goes : Goes Aim.keeping m m (accel_init v)
  unfolding accel_init
  accel_init-Goes = Goes-gets _ (λ d at_m.
      Goes-bind (Goes-when _ _ _ (At-probed m (modes d) at_m) Goes-pure) (λ _. Goes-read _))

  pub rng_get-Goes : Goes Aim.keeping m m (rng_get v)
  unfolding rng_get IsSettled
  rng_get-Goes = Goes-gets _ (λ _ _. Goes-if _ Goes-pure (
      Goes-bind (Goes-modify (λ m. m) _ (refl, inr refl) (λ d. refl) (λ d s. s)) (λ _.
        Goes-bind (read-Goes v _) (λ _.
          Goes-bind (read-Goes v _)
            (λ _. Goes-bind (read-Goes v _) (λ _. Goes-bind (read-Goes v _) (λ _. Goes-pure)))))))

  pub rng_next-Goes : (c : RngCfg) → Goes Aim.keeping m m (rng_next v c)
  unfolding rng_next IsSettled
  rng_next-Goes c = Goes-modify (λ m. m) _ (refl, inr refl) (λ d. refl) (λ d s. s)

  module _ (careful : IsCareful v) where
    -- dav2_accel_finish: the pending job is collected, or there was none.
    pub finish-Goes : Goes Aim.keeping m m (finish v)
    unfolding finish IsSettled
    finish-Goes = Goes-gets _ (λ d _. Goes-if _ Goes-pure (
        settling-keeping (
          Goes-bind (Goes-assign _ (λ d. refl)) (λ _.
            Goes-bind (wait_simple-Goes v careful) (λ ended. Goes-if _ Goes-pure (
              Goes-bind (read-Goes v _) (λ _. Goes-bind (read-Goes v _) (λ _. Goes-gets _ (λ _ _.
                Goes-bind (count_job-Goes _ _ _) (λ _. Goes-if _ Goes-pure (
                  Goes-bind (read-Goes v _) (λ a. Goes-bind (raise_amax-Goes _ _) (λ _.
                    Goes-bind (Goes-modify (λ m. m) _ (refl, inr refl) (λ d. refl) (λ d s. s))
                      (λ _. Goes-pure))))))))))))))
