-- ===== src/Accel/Ends.antt =====
-- A wait for a product ends: wait_busy of src/sw/project/dav2_accel.c over the model of the block.
use risc_v_vi_t_accelerator.Base.{
  ℕ, zero, suc, ◌+◌, ◌-◌, ◌*◌, ◌^◌, ◌≤◌, ◌<◌, ◌≡◌, refl, sym, ap, ◌∙◌, arith, Bool, true, false,
  not, Bool-cases, inl, inr, Option, some, ltb, ◌==◌, if◌then◌else◌, u32, ◌>>=◌ as ◌>>=ₒ◌,
}
use mathlib.Core.Path.{subst}
use risc_v_vi_t_accelerator.Emulator.{Emu, Job, bit}
use risc_v_vi_t_accelerator.Emulator.Step.{Access, step, set_status, emu_reg}
use risc_v_vi_t_accelerator.Emulator.Progress.{IsGemm, reached, step-gemm}
use risc_v_vi_t_accelerator.Emulator.Idle.{emu_reg-ctrl, emu_reg-poll, set_status-busy}
use risc_v_vi_t_accelerator.Accel.{
  Driver, Env, Action, pure, after, ◌>>=◌, gets, with_emu, touch, read_status, read_clock,
}
use risc_v_vi_t_accelerator.Accel.Wait.{timeout, wait_busy}

-- A product that runs, with no other start pending.
pub record IsRunning (e : Emu) : Type 0 where
  pub is_gemm : IsGemm e.job
  pub is_busy : e.job.busy ≡ true
  pub none_starts : bit e.regs.ctrl 0 ≡ false

-- The job after a poll of it.
record IsPolled (j k : Job) : Type 0 where
  is_gemm : IsGemm k
  m_done : k.m_done ≡ reached (j.m_done + 5) j.m
  m : k.m ≡ j.m
  busy : k.busy ≡ (if reached (j.m_done + 5) j.m == j.m then false else true)

poll-IsPolled :
    (f : ℕ) (e : Emu)
    → IsGemm e.job
    → e.job.busy ≡ true
    → (r : Emu) × (step f e ≡ some r) × IsPolled e.job r.job
poll-IsPolled f e g busy =
    let (r, w, run, job) = step-gemm f e g busy in
    let size = ap (λ (j : Job). j.m) job in
    let done = ap (λ (j : Job). j.m_done) job in
    (
      r,
      run,
      record {
        is_gemm = record {
          no_requant = ap (λ (j : Job). j.requant) job ∙ g.no_requant;
          no_ln = ap (λ (j : Job). j.ln) job ∙ g.no_ln;
          no_lerp = ap (λ (j : Job). j.lerp) job ∙ g.no_lerp;
          in_range = (ground (arith, g.in_range), omega (arith, g.in_range));
        };
        m_done = done;
        m = size;
        busy = ap (λ (j : Job). j.busy) job;
      },
    )

-- One read of STATUS: up to five more rows.
read-IsPolled :
    (f : ℕ) (e : Emu)
    → IsRunning e
    → (r : Emu) × (emu_reg f Access.status_reg e ≡ some r)
      × IsPolled e.job r.job
      × (bit r.regs.status 0 ≡ r.job.busy)
read-IsPolled f e g =
    let (e1, same, read) = emu_reg-poll f e g.none_starts in
    let (r, run, polled) =
      poll-IsPolled f e1 (subst IsGemm (sym same) g.is_gemm)
        (ap (λ (j : Job). j.busy) same ∙ g.is_busy) in
    let (job, status) = set_status-busy r in
    (
      set_status r,
      read ∙ ap (λ (o : Option Emu). o >>=ₒ λ e2. some (set_status e2)) run,
      subst (λ (k : Job). IsPolled e.job k) (sym job)
          (subst (λ (j : Job). IsPolled j r.job) same polled),
      status ∙ ap (λ (j : Job). j.busy) (sym job),
    )

module _ (v : Env) where
  -- What a read of STATUS gives while a product runs.
  read_status-IsPolled :
      (d : Driver)
      → IsRunning d.emu
      → (s : ℕ) × (d1 : Driver) × (read_status v d ≡ some (s, d1))
        × IsPolled d.emu.job d1.emu.job
        × (bit s 0 ≡ d1.emu.job.busy)
        × (d1.emu.regs.ctrl ≡ 0)
        × (d1.clock ≡ d.clock)
  unfolding read_status touch gets ◌>>=◌
  read_status-IsPolled d g =
      let (r, read, polled, status) = read-IsPolled v.fail_at d.emu g in
      (
        r.regs.status,
        record d { emu = r },
        ap (λ (o : Option Emu). after (λ _. gets (λ d. d.emu.regs.status)) (with_emu d o)) read,
        polled,
        status,
        emu_reg-ctrl v.fail_at d.emu r read,
        refl,
      )

  -- What follows a read of STATUS, in two steps.
  after_idle : ℕ → ℕ → Bool → Action Bool
  after_idle t0 left made =
      if made
      then wait_busy v left t0
      else (read_clock v >>= λ now.
          if ltb timeout (u32 (now + 2 ^ 32 - t0)) then pure false else wait_busy v left t0)

  after_read : ℕ → ℕ → ℕ → Action Bool
  after_read t0 left status =
      if not (bit status 0) then pure true else (v.idle >>= after_idle t0 left)

  next_round :
      (t0 left s : ℕ) (d : Driver)
      → ((d : Driver) → v.idle d ≡ some (false, d))
      → ltb timeout (u32 (u32 (v.mcycle d.clock) + 2 ^ 32 - t0)) ≡ false
      → bit s 0 ≡ true
      → after_read t0 left s d ≡ wait_busy v left t0 (record d { clock = d.clock + 1 })
  unfolding after_read after_idle read_clock ◌>>=◌
  next_round t0 left s d alone early busy =
      ap (λ (b : Bool). (if not b then pure true else (v.idle >>= after_idle t0 left)) d) busy
      ∙ ap (after (after_idle t0 left)) (alone d)
      ∙ ap
          (λ (b : Bool).
            (if b then pure false else wait_busy v left t0) (record d { clock = d.clock + 1 }))
          early

  last_round :
      (t0 left s : ℕ) (d d1 : Driver)
      → read_status v d ≡ some (s, d1)
      → bit s 0 ≡ false
      → wait_busy v (suc left) t0 d ≡ some (true, d1)
  unfolding wait_busy after_read after_idle ◌>>=◌
  last_round t0 left s d d1 read ended =
      ap (after (after_read t0 left)) read
      ∙ ap (λ (b : Bool). (if not b then pure true else (v.idle >>= after_idle t0 left)) d1) ended

  -- A wait, begun at the clock reading t0, for a running product of m rows ends: with no producer to
  -- run, no other start pending, at most 5 (left + 1) rows still to be done, and each of the next
  -- left + 1 readings of the clock within the limit after t0 (modulo 2^32), left + 1 rounds are
  -- enough, the wait says that the job ended, and the product is then idle with all m rows done.
  pub wait_busy-ends :
      (t0 : ℕ)
      → ((d : Driver) → v.idle d ≡ some (false, d))
      → (left : ℕ) (d : Driver) → IsRunning d.emu
      → ((n : ℕ)
          → d.clock ≤ n
          → n < d.clock + suc left
          → ltb timeout (u32 (u32 (v.mcycle n) + 2 ^ 32 - t0)) ≡ false)
      → d.emu.job.m ≤ d.emu.job.m_done + 5 * suc left
      → (d1 : Driver) × (wait_busy v (suc left) t0 d ≡ some (true, d1))
        × (d1.emu.job.busy ≡ false)
        × (d1.emu.job.m_done ≡ d.emu.job.m)
  unfolding wait_busy after_read after_idle ◌>>=◌
  wait_busy-ends t0 alone zero d g early enough =
      let (s, d1, read, polled, status, ctrl, clock) = read_status-IsPolled d g in
      let ended : d1.emu.job.busy ≡ false = ground (arith, polled.busy, enough) in
      (
        d1,
        last_round t0 zero s d d1 read (status ∙ ended),
        ended,
        ground (arith, polled.m_done, polled.busy, ended),
      )
  wait_busy-ends t0 alone (suc rest) d g early enough =
      let (s, d1, read, polled, status, ctrl, clock) = read_status-IsPolled d g in
      elim (Bool-cases d1.emu.job.busy) [
        | inr ended ↦ (
          d1,
          last_round t0 (suc rest) s d d1 read (status ∙ ended),
          ended,
          ground (arith, polled.m_done, polled.busy, ended),
        )
        | inl more ↦
            let d2 : Driver = record d1 { clock = d1.clock + 1 } in
            let running : IsRunning d2.emu = record {
              is_gemm = polled.is_gemm;
              is_busy = more;
              none_starts = ap (λ c. bit c 0) ctrl;
            } in
            let size = polled.m in
            let (d3, run, idle, count) =
              wait_busy-ends t0 alone rest d2 running
                (λ n lo h. early n (omega (arith, clock)) (omega (arith, clock)))
                (ground (arith, polled.m_done, polled.busy, more, enough)) in
            (
              d3,
              ap (after (after_read t0 (suc rest))) read
                  ∙ next_round t0 (suc rest) s d1 alone
                      (early d1.clock (omega (arith, clock)) (omega (arith, clock))) (status ∙ more)
                  ∙ run,
              idle,
              count ∙ size,
            )
      ]
