-- ===== src/Accel/Waits.antt =====
-- Settling a job keeps the promise: the waits, dav2_accel_finish and accel_maybe_defer.
use risc_v_vi_t_accelerator.Base.{
  ℕ, zero, suc, ◌+◌, ◌≡◌, refl, ap, arith, Bool, true, false, not, ◌&&◌, Bool-cases, inl, inr, some,
  if◌then◌else◌, if-both, some-injective, ℤ,
}
use mathlib.Core.Path.{subst}
use risc_v_vi_t_accelerator.Emulator.{bit}
use risc_v_vi_t_accelerator.Accel.{Driver, Env, Action, pure, fault, ◌>>=◌, modify, read_status}
use risc_v_vi_t_accelerator.Accel.Wait.{
  rng_begin, rng_end, prefill_stats, maybe_defer, raise_amax, count_job, wait_busy, disable,
  wait_simple,
}
use risc_v_vi_t_accelerator.Accel.Logic.{
  Modes, modes, At, IsSettled, Aim, Reaches, Goes, Goes-bind, Goes-pure, Goes-if, Goes-modify,
  after-some, settling-keeping, keeping-starting,
}
use risc_v_vi_t_accelerator.Accel.Steps.{
  read_status-Goes, read_clock-Goes, read_status-settles, load_int-Goes, store_int-Goes,
}

-- What the producers may do once the block has been probed: leave the modes alone, but that they may
-- clear accel_defer (as interp_lerp_need does), and between jobs leave no job that is not pending.
pub record IsCareful (v : Env) : Type 0 where
  pub need_keeps : (n : ℕ) (m : Modes) → Goes Aim.keeping m m (v.need n)
  pub idle_starts : (m : Modes) → Goes Aim.starting m m v.idle

module _ {m : Modes} where
  pub rng_begin-Goes : (n : ℕ) → Goes Aim.keeping m m (rng_begin n)
  unfolding rng_begin IsSettled
  rng_begin-Goes n = Goes-modify (λ m. m) _ (refl, inr refl) (λ d. refl) (λ d s. s)

  pub rng_end-Goes : (n : ℕ) → Goes Aim.keeping m m (rng_end n)
  unfolding rng_end IsSettled
  rng_end-Goes n = Goes-modify (λ m. m) _ (refl, inr refl) (λ d. refl) (λ d s. s)

  pub count_job-Goes : (c b r : ℕ) → Goes Aim.keeping m m (count_job c b r)
  unfolding count_job IsSettled
  count_job-Goes c b r = Goes-modify (λ m. m) _ (refl, inr refl) (λ d. refl) (λ d s. s)

  pub prefill_stats-Goes : (n sv : ℕ) → Goes Aim.keeping m m (prefill_stats sv n)
  unfolding prefill_stats
  prefill_stats-Goes zero sv = Goes-pure
  prefill_stats-Goes (suc left) sv =
      Goes-bind (store_int-Goes _ _)
        (λ _. Goes-bind (store_int-Goes _ _) (λ _. prefill_stats-Goes left (sv + 8)))

  pub raise_amax-Goes : (p : ℕ) (a : ℤ) → Goes Aim.keeping m m (raise_amax p a)
  unfolding raise_amax
  raise_amax-Goes p a =
      Goes-bind (load_int-Goes p) (λ old. Goes-if _ (store_int-Goes p a) Goes-pure)

  -- A job that was just started is pending, or is waited for.
  pub defer-Goes {ℓ} :
      {A : Type ℓ} (last : Bool) (beats amax : ℕ) (a : A) (k : Action A)
      → Goes Aim.settling m m k
      → Goes Aim.settling m m (maybe_defer last beats amax >>= λ b. if b then pure a else k)
  unfolding maybe_defer ◌>>=◌ Reaches IsSettled
  defer-Goes {A = A} last beats amax a k p = record {
    runs = λ d x d' run at_m. elim (Bool-cases (d.defer && last)) [
      | inl deferred ↦
          let same = ap (λ (o : A × Driver). o.1) (some-injective _ _ (rw deferred at run)) in
          subst (λ (x : Driver). At m (modes x) × IsSettled x) same
            (at_m, λ ok inactive. absurd (grind arith))
      | inr waits ↦ p.runs d x d' (rw waits at run) at_m
    ];
  }

-- An operation whose result says whether the driver is settled.
record Waits (m : Modes) (act : Action Bool) : Type 0 where
  runs :
      (d : Driver) (b : Bool) (d' : Driver)
      → act d ≡ some (b, d')
      → At m (modes d)
      → At m (modes d') × (b ≡ true → IsSettled d')

Waits-bind :
    {A : Type 0} {m : Modes} {g : Aim} {act : Action A} (f : A → Action Bool)
    → Goes g m m act
    → ((a : A) → Waits m (f a))
    → Waits m (act >>= f)
unfolding ◌>>=◌
Waits-bind {act = act} f p q = record {
  runs = λ d b d' run at_m.
      let (a, d1, first, rest) = after-some f (act d) (b, d') run in
      (q a).runs d1 b d' rest (p.runs d a d1 first at_m).0;
}

Waits-if :
    {m : Modes} (c : Bool) (x y : Action Bool)
    → Waits m x
    → Waits m y
    → Waits m (if c then x else y)
Waits-if {m = m} c x y p q = if-both (Waits m) c p q

Waits-false : {m : Modes} → Waits m (pure false)
Waits-false {m = m} = record {
  runs = λ d b d' run at_m.
      let value = ap (λ (o : Bool × Driver). o.0) (some-injective _ _ run) in
      let same = ap (λ (o : Bool × Driver). o.1) (some-injective _ _ run) in
      (subst (λ (x : Driver). At m (modes x)) same at_m, λ h. absurd (grind arith));
}

-- The aim that is left once it is known how the wait ended.
Waits-settling :
    {A : Type 0} {m : Modes} {act : Action Bool} (k : Action A) (f : Action A)
    → Waits m act
    → Goes Aim.keeping m m k
    → Goes Aim.settling m m f
    → Goes Aim.settling m m (act >>= λ b. if not b then f else k)
unfolding ◌>>=◌ Reaches
Waits-settling {act = act} k f p keeps fails = record {
  runs = λ d a d' run at_m.
      let (b, d1, first, rest) = after-some (λ b. if not b then f else k) (act d) (a, d') run in
      let (at_m1, settled) = p.runs d b d1 first at_m in
      elim (Bool-cases b) [
        | inl ended ↦
            let (at_m2, s) = keeps.runs d1 a d' (rw ended at rest) at_m1 in
            (at_m2, s (settled ended))
        | inr timed_out ↦ fails.runs d1 a d' (rw timed_out at rest) at_m1
      ];
}

module _ (v : Env) (careful : IsCareful v) where
  -- A wait that ends because the job ended has settled.
  wait_busy-Waits : {m : Modes} (left t0 : ℕ) → Waits m (wait_busy v left t0)
  unfolding wait_busy ◌>>=◌ fault
  wait_busy-Waits zero t0 = record { runs = λ d b d' run. absurd (grind arith) }
  wait_busy-Waits {m = m} (suc left) t0 =
      let next = wait_busy-Waits left t0 in
      let later = Waits-bind _ (careful.idle_starts m) (λ made.
        Waits-if made _ _ next
          (Waits-bind _ (read_clock-Goes v) (λ now. Waits-if _ _ _ Waits-false next))) in
      record {
        runs = λ d b d' run at_m.
            let (status, d1, polled, rest) = after-some _ (read_status v d) (b, d') run in
            let (at_m1, _) = (read_status-Goes v).runs d status d1 polled at_m in
            elim (Bool-cases (bit status 0)) [
              | inl running ↦ later.runs d1 b d' (rw running at rest) at_m1
              | inr quiet ↦
                  let same =
                    ap (λ (o : Bool × Driver). o.1) (some-injective _ _ (rw quiet at rest)) in
                  (
                    subst (λ (x : Driver). At m (modes x)) same at_m1,
                    λ _. subst IsSettled same (read_status-settles v d status d1 polled quiet),
                  )
            ];
      }

  disable-Goes : {m : Modes} → Goes Aim.settling m m (disable v)
  unfolding disable Reaches IsSettled modify ◌>>=◌
  disable-Goes {m = m} = record {
    runs = λ d b d' run at_m.
        let same = ap (λ (o : Bool × Driver). o.1) (some-injective _ _ run) in
        subst (λ (x : Driver). At m (modes x) × IsSettled x) same
          (at_m, λ ok. absurd (grind arith));
  }

  -- accel_wait_simple settles: the job has ended, or the block is not used any more.
  pub wait_simple-Goes : {m : Modes} → Goes Aim.settling m m (wait_simple v)
  unfolding wait_simple
  wait_simple-Goes = Goes-bind (keeping-starting (read_clock-Goes v)) (λ t0.
      Waits-settling _ _ (wait_busy-Waits v.rounds t0)
        (Goes-bind (read_status-Goes v)
          (λ status. Goes-if _ (settling-keeping disable-Goes) Goes-pure))
        disable-Goes)
