-- ===== src/Emulator/Idle.antt =====
-- After an access no start is pending, and after STATUS reads as not busy no job runs.
use risc_v_vi_t_accelerator.Base.{
  ℕ, zero, suc, ◌*◌, ◌/◌, ◌≡◌, refl, sym, ap, ◌∙◌, arith, Bool, false, not, Bool-cases, inl, inr,
  Option, none, some, ◌>>◌, ◌>>=◌, if◌then◌else◌, ℤ, pos, for_range, for_range_inv, if-both,
  bind-some, some-injective,
}
use mathlib.Core.Path.{subst}
use risc_v_vi_t_accelerator.Emulator.{Emu, Job, bit}
use risc_v_vi_t_accelerator.Emulator.Tile.{a_snapshot}
use risc_v_vi_t_accelerator.Emulator.Rows.{put_result, row_loop, range_update, row_stats, gemm_row}
use risc_v_vi_t_accelerator.Emulator.Requant.{
  load_table, requant_elem, add_sums, put_stats, requant_row, requant_all,
}
use risc_v_vi_t_accelerator.Emulator.LayerNorm.{ln_phase_a, ln_phase_b}
use risc_v_vi_t_accelerator.Emulator.Latch.{load_range, latch_ln, latch_other, latch_job, latch}
use risc_v_vi_t_accelerator.Emulator.Decode.{job_flags, job_operands}
use risc_v_vi_t_accelerator.Emulator.Step.{
  gemm_rows, lerp_rows, advance, report, step, Access, init_caps, set_status, emu_reg,
}

-- CTRL holds c.
abbrev pub Holds : ℕ → Emu → Type 0
Holds c e = e.regs.ctrl ≡ c

-- Every state that a run may give has CTRL c.
abbrev Gives : ℕ → Option Emu → Type 0
Gives c o = (r : Emu) → o ≡ some r → Holds c r

Gives-some : (c : ℕ) (e : Emu) → Holds c e → Gives c (some e)
Gives-some c e h r eq = subst (Holds c) (some-injective e r eq) h

Gives-then : (c : ℕ) (g : Option (Unit {0})) (o : Option Emu) → Gives c o → Gives c (g >> o)
Gives-then c (some _) o h = h
Gives-then c none o h = λ r eq. absurd (grind arith)

Gives-bind :
    (c : ℕ) (o : Option Emu) (f : Emu → Option Emu)
    → Gives c o
    → ((e : Emu) → Holds c e → Gives c (f e))
    → Gives c (o >>= f)
Gives-bind c o f h k r eq = let (e, run, rest) = bind-some o f r eq in k e (h e run) r rest

row_loop-Holds : (c m : ℕ) (e : Emu) → Holds c e → Holds c (row_loop m e).0
unfolding row_loop put_result
row_loop-Holds c m e h =
    for_range_inv (λ t (s : Emu × ℤ × ℤ). Holds c s.0) _ e.job.n 0 e.job.n (e, pos 0, pos 0)
      (omega arith) (λ t s lo hi hs. if-both (Holds c) s.0.job.onchip hs hs) h

gemm_row-Holds : (c m : ℕ) (e : Emu) → Holds c e → Holds c (gemm_row m e)
unfolding gemm_row range_update row_stats
gemm_row-Holds c m e h =
    let row = row_loop-Holds c m e h in
    let rng = (row_loop m e).0.job.rng in
    let ranged = if-both (Holds c) rng row row in if-both (Holds c) _ ranged ranged

gemm_rows-Holds : (c left : ℕ) (e : Emu) → Holds c e → Holds c (gemm_rows left e)
unfolding gemm_rows
gemm_rows-Holds c zero e h = h
gemm_rows-Holds c (suc left) e h =
    if-both (Holds c) _ (gemm_rows-Holds c left _ (gemm_row-Holds c e.job.m_done _ h)) h

requant_row-Holds : (c n : ℕ) (s : Emu × ℤ) → Holds c s.0 → Holds c (requant_row n s).0
unfolding requant_row requant_elem add_sums put_stats
requant_row-Holds c n (e, amax) h =
    let row : Holds c (for_range e.job.m 0 (requant_elem n) (e, amax)).0 =
      for_range_inv (λ t (s : Emu × ℤ). Holds c s.0) (requant_elem n) e.job.m 0 e.job.m (e, amax)
        (omega arith) (λ t s lo hi hs. hs) h in
    if-both (Holds c) e.job.msums row (if-both (Holds c) e.job.ostats row row)

requant_all-Gives : (c : ℕ) (e : Emu) → Holds c e → Gives c (requant_all e)
unfolding requant_all load_table
requant_all-Gives c e h =
    let e1 = load_table e in
    let loaded : Holds c e1 = if-both (Holds c) e.job.lut_load h h in
    Gives-then c _ _ (
      Gives-some c _ (
        for_range_inv (λ t (s : Emu × ℤ). Holds c s.0) requant_row e1.job.n 0 e1.job.n (e1, pos 0)
          (omega arith) (λ t s lo hi hs. requant_row-Holds c t s hs) loaded))

Gives-if :
    (c : ℕ) (b : Bool) (o p : Option Emu) → Gives c o → Gives c p → Gives c (if b then o else p)
Gives-if c b o p g h = if-both (Gives c) b g h

advance-Gives : (c : ℕ) (e : Emu) → Holds c e → Gives c (advance e)
unfolding advance ln_phase_a ln_phase_b lerp_rows
advance-Gives c e h =
    Gives-if c e.job.requant _ _
      (Gives-bind c (requant_all e) _ (requant_all-Gives c e h) (λ e1 h1. Gives-some c _ h1))
      (Gives-if c e.job.ln _ _ (Gives-if c e.job.lnb _ _ (Gives-some c _ h) (Gives-some c _ h))
        (Gives-if c e.job.lerp _ _ (Gives-some c _ h) (Gives-some c _ (gemm_rows-Holds c 5 e h))))

step-Gives : (f c : ℕ) (e : Emu) → Holds c e → Gives c (step f e)
unfolding step report
step-Gives f c e h = Gives-if c (not e.job.busy) _ _ (Gives-some c _ h) (
    Gives-bind c (advance e) _ (advance-Gives c e h)
      (λ e1 h1. Gives-some c _ (if-both (Holds c) e1.job.busy h1 h1)))

load_range-Gives : (c : ℕ) (j : Job) (e : Emu) → Holds c e → Gives c (load_range j e)
unfolding load_range
load_range-Gives c j e h = Gives-then c _ _ (Gives-some c _ h)

latch_ln-Gives : (c : ℕ) (j : Job) (e : Emu) → Holds c e → Gives c (latch_ln j e)
unfolding latch_ln a_snapshot
latch_ln-Gives c j e h =
    Gives-then c _ _ (Gives-some c _ (if-both (Holds c) j.lnb {x = record e { job = j }} h h))

latch_other-Gives : (c ctrl : ℕ) (j : Job) (e : Emu) → Holds c e → Gives c (latch_other ctrl j e)
unfolding latch_other a_snapshot
latch_other-Gives c ctrl j e h =
    Gives-then c _ _ (
      Gives-some c _ (if-both (Holds c) j.requant {x = record e { job = j; ln_valid = false }} h h))

latch_job-Gives : (c ctrl : ℕ) (e : Emu) → Holds c e → Gives c (latch_job ctrl e)
unfolding latch_job
latch_job-Gives c ctrl e h =
    let j = job_operands ctrl e.regs (job_flags ctrl e.regs) in
    Gives-bind c _ _
      (Gives-then c _ _ (Gives-if c j.rngl _ _ (load_range-Gives c j e h) (Gives-some c _ h)))
      (λ e1 h1.
        Gives-then c _ _
          (Gives-if c j.ln _ _ (latch_ln-Gives c j e1 h1) (latch_other-Gives c ctrl j e1 h1)))

-- The latch takes the start: CTRL is 0 after it.
latch-Gives : (e : Emu) → Gives 0 (latch e)
unfolding latch
latch-Gives e =
    Gives-if 0 (not (bit e.regs.ctrl 0)) _ _ (Gives-some 0 _ refl)
      (Gives-then 0 _ _ (latch_job-Gives 0 e.regs.ctrl _ refl))

-- Nothing runs in the block and nothing is about to.
abbrev pub IsIdle : Emu → Type 0
IsIdle e = (e.job.busy ≡ false) × (bit e.regs.ctrl 0 ≡ false)

init_caps-same : (e : Emu) → ((init_caps e).job ≡ e.job) × ((init_caps e).regs.ctrl ≡ e.regs.ctrl)
unfolding init_caps
init_caps-same e = elim (Bool-cases e.init) [
  | inl h ↦ rw h (refl, refl)
  | inr h ↦ rw h (refl, refl)
]

latch-IsIdle : (e r : Emu) → IsIdle e → latch (init_caps e) ≡ some r → IsIdle r
unfolding latch
latch-IsIdle e r (idle, none_starts) h =
    let (job, ctrl) = init_caps-same e in
    let quiet : bit (init_caps e).regs.ctrl 0 ≡ false = ap (λ c. bit c 0) ctrl ∙ none_starts in
    let same = some-injective _ r (rw quiet at h) in
    (
      ap (λ (x : Emu). x.job.busy) (sym same) ∙ ap (λ (j : Job). j.busy) job ∙ idle,
      ap (λ (x : Emu). bit x.regs.ctrl 0) (sym same),
    )

-- An access to an idle block leaves it idle.
pub emu_reg-IsIdle : (f : ℕ) (a : Access) (e r : Emu) → IsIdle e → emu_reg f a e ≡ some r → IsIdle r
unfolding emu_reg step set_status
emu_reg-IsIdle f Access.outside_block e r i h = absurd (grind arith)
emu_reg-IsIdle f Access.other_reg e r i h = latch-IsIdle e r i h
emu_reg-IsIdle f Access.status_reg e r i h =
    let (e1, run, rest) = bind-some (latch (init_caps e)) _ r h in
    let i1 = latch-IsIdle e e1 i run in
    let same = some-injective _ r (rw i1.0 at rest) in subst IsIdle same i1

-- A read of STATUS takes the start.
pub emu_reg-ctrl : (f : ℕ) (e r : Emu) → emu_reg f Access.status_reg e ≡ some r → r.regs.ctrl ≡ 0
unfolding emu_reg set_status
emu_reg-ctrl f e r h =
    let (e1, started, rest) = bind-some (latch (init_caps e)) _ r h in
    let (e2, run, last) = bind-some (step f e1) _ r rest in
    let same = some-injective _ r last in
    ap (λ (x : Emu). x.regs.ctrl) (sym same)
    ∙ step-Gives f 0 e1 (latch-Gives (init_caps e) e1 started) e2 run

-- A read of STATUS with no start pending is a poll of the job.
pub emu_reg-poll :
    (f : ℕ) (e : Emu)
    → bit e.regs.ctrl 0 ≡ false
    → (e1 : Emu) × (e1.job ≡ e.job)
      × (emu_reg f Access.status_reg e ≡ (step f e1 >>= λ e2. some (set_status e2)))
unfolding emu_reg latch
emu_reg-poll f e none_starts =
    let (job, ctrl) = init_caps-same e in
    let quiet : bit (init_caps e).regs.ctrl 0 ≡ false = ap (λ c. bit c 0) ctrl ∙ none_starts in
    (record (init_caps e) { regs = record ((init_caps e).regs) { ctrl = 0 } }, job, rw quiet refl)

-- STATUS says whether a job runs.
pub set_status-busy :
    (e : Emu) → ((set_status e).job ≡ e.job) × (bit (set_status e).regs.status 0 ≡ e.job.busy)
unfolding set_status
set_status-busy e = elim (Bool-cases e.job.busy) [
  | inl busy ↦ (refl, rw busy refl)
  | inr done ↦ (refl, rw done (ground arith))
]

-- When STATUS reads as not busy the block is idle.
pub emu_reg-status :
    (f : ℕ) (e r : Emu)
    → emu_reg f Access.status_reg e ≡ some r
    → bit r.regs.status 0 ≡ false
    → IsIdle r
unfolding emu_reg set_status
emu_reg-status f e r h quiet =
    let (e1, started, rest) = bind-some (latch (init_caps e)) _ r h in
    let (e2, run, last) = bind-some (step f e1) _ r rest in
    let ctrl = step-Gives f 0 e1 (latch-Gives (init_caps e) e1 started) e2 run in
    let same = some-injective _ r last in
    elim (Bool-cases e2.job.busy) [
      | inl busy ↦
          let read : bit r.regs.status 0
              ≡ bit (if e2.job.busy then 1 else e2.regs.status / 2 * 2) 0 =
            ap (λ (x : Emu). bit x.regs.status 0) (sym same) in
          absurd (ground (arith, rw busy at read))
      | inr done ↦ (
        ap (λ (x : Emu). x.job.busy) (sym same) ∙ done,
        ap (λ (x : Emu). bit x.regs.ctrl 0) (sym same) ∙ ap (λ c. bit c 0) ctrl,
      )
    ]
