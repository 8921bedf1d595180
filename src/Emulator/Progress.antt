-- ===== src/Emulator/Progress.antt =====
-- A GEMM job advances five weight rows with each poll of STATUS, and ends.
use risc_v_vi_t_accelerator.Base.{
  ℕ, zero, suc, ◌+◌, ◌*◌, ◌^◌, ◌≤◌, ◌<◌, ◌≡◌, refl, ap, ◌∙◌, arith, Bool, true, false, not,
  Bool-cases, inl, inr, Option, some, ◌>>=◌, ltb, ◌==◌, u32, if◌then◌else◌, ℤ, pos, for_range_inv,
}
use risc_v_vi_t_accelerator.Emulator.{Emu, Job}
use risc_v_vi_t_accelerator.Emulator.Rows.{
  put_result, row_sum, row_loop, range_update, row_stats, gemm_row,
}
use risc_v_vi_t_accelerator.Emulator.Step.{gemm_rows, advance, report, step}

put_result-job : (m t : ℕ) (s : ℤ) (e : Emu) → (put_result m t s e).job ≡ e.job
unfolding put_result
put_result-job m t s e = elim (Bool-cases e.job.onchip) [ inl h ↦ rw h refl | inr h ↦ rw h refl ]

row_loop-job : (m : ℕ) (e : Emu) → (row_loop m e).0.job ≡ e.job
unfolding row_loop
row_loop-job m e =
    for_range_inv (λ t (s : Emu × ℤ × ℤ). s.0.job ≡ e.job) _ e.job.n 0 e.job.n (e, pos 0, pos 0)
      (omega arith) (λ t s lo hi same. put_result-job m t (row_sum s.0 m t) s.0 ∙ same) refl

-- The job with another count of writes.
abbrev counted : Job → ℕ → Job
counted j w = record j { writes = w }

range-job :
    (b : Bool) (m : ℕ) (mx mn : ℤ) (e : Emu) → (if b then range_update m mx mn e else e).job ≡ e.job
unfolding range_update
range-job true m mx mn e = refl
range-job false m mx mn e = refl

stats-job :
    (b : Bool) (m : ℕ) (mx mn : ℤ) (e : Emu)
    → (w : ℕ) × ((if b then e else row_stats m mx mn e).job ≡ counted e.job w)
unfolding row_stats
stats-job true m mx mn e = (e.job.writes, refl)
stats-job false m mx mn e = (_, refl)

gemm_row-job : (m : ℕ) (e : Emu) → (w : ℕ) × ((gemm_row m e).job ≡ counted e.job w)
unfolding gemm_row
gemm_row-job m e =
    let (e1, mx, mn) = row_loop m e in
    let e2 : Emu = record e1 { job = counted e1.job (u32 (e1.job.writes + e1.job.n)) } in
    let e3 : Emu = if e2.job.rng then range_update m mx mn e2 else e2 in
    let (w, last) = stats-job (e3.job.s_addr == 0) m mx mn e3 in
    (
      w,
      last
          ∙ ap (λ (j : Job). counted j w) (range-job e2.job.rng m mx mn e2)
          ∙ ap (λ (j : Job). counted j w) (row_loop-job m e),
    )

-- The number of rows done after `left` more, which stops at m.
abbrev pub reached : ℕ → ℕ → ℕ
reached done m = if ltb done m then done else m

abbrev at_row : Job → ℕ → ℕ → Job
at_row j done w = record j { m_done = done; writes = w }

gemm_rows-job :
    (left : ℕ) (e : Emu)
    → e.job.m_done ≤ e.job.m
    → e.job.m < 2 ^ 32
    → (w : ℕ) × ((gemm_rows left e).job ≡ at_row e.job (reached (e.job.m_done + left) e.job.m) w)
unfolding gemm_rows
gemm_rows-job zero e le fits =
    (e.job.writes, ap (λ (d : ℕ). at_row e.job d e.job.writes) {x = e.job.m_done} (ground arith))
gemm_rows-job (suc left) e le fits = elim (Bool-cases (ltb e.job.m_done e.job.m)) [
  | inl more ↦
      let next : Emu = record e { job = record (e.job) { m_done = u32 (e.job.m_done + 1) } } in
      let (w1, row) = gemm_row-job e.job.m_done next in
      let done = ap (λ (j : Job). j.m_done) row in
      let size = ap (λ (j : Job). j.m) row in
      let (w, rest) =
        gemm_rows-job left (gemm_row e.job.m_done next) (ground arith) (omega arith) in
      let moved = ap (λ (j : Job). at_row j (reached (j.m_done + left) j.m) w) row in
      let count =
        ap (λ (d : ℕ). at_row e.job d w) {x = reached (u32 (e.job.m_done + 1) + left) e.job.m}
          {y = reached (e.job.m_done + suc left) e.job.m} (ground arith) in
      (w, rw more (rest ∙ moved ∙ count))
  | inr done ↦ (
    e.job.writes,
    rw done (ap (λ (d : ℕ). at_row e.job d e.job.writes) {x = e.job.m_done} (ground arith)),
  )
]

-- A job that multiplies: no requantisation, LayerNorm or interpolation.
pub record IsGemm (j : Job) : Type 0 where
  pub no_requant : j.requant ≡ false
  pub no_ln : j.ln ≡ false
  pub no_lerp : j.lerp ≡ false
  pub in_range : (j.m_done ≤ j.m) × (j.m < 2 ^ 32)

report-job : (f : ℕ) (b : Bool) (e : Emu) → (if b then e else report f e).job ≡ e.job
unfolding report
report-job f true e = refl
report-job f false e = refl

-- `n` reads of STATUS while nothing else accesses the registers.
unfoldable pub polls : ℕ → ℕ → Emu → Option Emu
polls fail_at zero e = some e
polls fail_at (suc n) e = step fail_at e >>= λ e1. polls fail_at n e1

-- The job after its rows have been counted.
abbrev settled : Job → Job
settled j = record j { busy = if j.m_done == j.m then false else j.busy }

advance-gemm :
    (e : Emu)
    → IsGemm e.job
    → advance e ≡ some (record (gemm_rows 5 e) { job = settled (gemm_rows 5 e).job })
unfolding advance
advance-gemm e g = rw (g.no_requant, g.no_ln, g.no_lerp) refl

step-run :
    (f : ℕ) (e e1 : Emu)
    → e.job.busy ≡ true
    → advance e ≡ some e1
    → step f e ≡ some (if e1.job.busy then e1 else report f e1)
unfolding step
step-run f e e1 busy h =
    ap (λ (b : Bool). if not b then some e else (advance e >>= end)) busy
    ∙ ap (λ (o : Option Emu). o >>= end) h
  where
    end : Emu → Option Emu
    end = λ e1. some (if e1.job.busy then e1 else report f e1)

-- A poll of a running product: up to five more rows, and the end when all are done.
pub step-gemm :
    (f : ℕ) (e : Emu)
    → IsGemm e.job
    → e.job.busy ≡ true
    → (r : Emu) × (w : ℕ) × (step f e ≡ some r)
      × (r.job ≡ record (e.job) {
        m_done = reached (e.job.m_done + 5) e.job.m;
        writes = w;
        busy = if reached (e.job.m_done + 5) e.job.m == e.job.m then false else true;
      })
step-gemm f e g busy =
    let (w, rows) = gemm_rows-job 5 e g.in_range.0 g.in_range.1 in
    let e1 : Emu = record (gemm_rows 5 e) { job = settled (gemm_rows 5 e).job } in
    (
      if e1.job.busy then e1 else report f e1,
      w,
      step-run f e e1 busy (advance-gemm e g),
      report-job f e1.job.busy e1
          ∙ ap settled rows
          ∙ ap
              (λ (b : Bool). record (at_row e.job (reached (e.job.m_done + 5) e.job.m) w) {
                busy = if reached (e.job.m_done + 5) e.job.m == e.job.m then false else b;
              })
              busy,
    )

step-idle : (f : ℕ) (e : Emu) → e.job.busy ≡ false → step f e ≡ some e
unfolding step
step-idle f e idle = rw idle refl

polls-idle : (f n : ℕ) (e : Emu) → e.job.busy ≡ false → polls f n e ≡ some e
unfolding polls
polls-idle f zero e idle = refl
polls-idle f (suc n) e idle = rw (step-idle f e idle) (polls-idle f n e idle)

-- Where a running product of m rows stands after n ≥ 1 polls: each has finished five more rows, up
-- to m, and the job is busy exactly while rows are left. So it ends with the first poll n for which
-- m_done + 5 n ≥ m, and no poll of it fails.
pub polls-gemm :
    (f n : ℕ) (e : Emu)
    → IsGemm e.job
    → e.job.busy ≡ true
    → (r : Emu) × (polls f (suc n) e ≡ some r)
      × (r.job.m_done ≡ reached (e.job.m_done + 5 * suc n) e.job.m)
      × (r.job.busy ≡ ltb (e.job.m_done + 5 * suc n) e.job.m)
unfolding polls
polls-gemm f zero e g busy =
    let (r, w, run, job) = step-gemm f e g busy in
    (r, rw run refl, ap (λ (j : Job). j.m_done) job, ap (λ (j : Job). j.busy) job ∙ ground arith)
polls-gemm f (suc n) e g busy =
    let (r, w, run, job) = step-gemm f e g busy in
    let done = ap (λ (j : Job). j.m_done) job in
    let size = ap (λ (j : Job). j.m) job in
    let state = ap (λ (j : Job). j.busy) job in
    elim (Bool-cases (ltb (e.job.m_done + 5) e.job.m)) [
      | inl more ↦
          let g' : IsGemm r.job = record {
            no_requant = ap (λ (j : Job). j.requant) job ∙ g.no_requant;
            no_ln = ap (λ (j : Job). j.ln) job ∙ g.no_ln;
            no_lerp = ap (λ (j : Job). j.lerp) job ∙ g.no_lerp;
            in_range = (ground arith, omega (arith, g.in_range));
          } in
          let (last, rest, count, end) = polls-gemm f n r g' (state ∙ ground arith) in
          (last, rw run rest, count ∙ ground arith, end ∙ ground arith)
      | inr over ↦ (
        r,
        rw run (polls-idle f (suc n) r (state ∙ ground arith)),
        done ∙ ground arith,
        state ∙ ground arith,
      )
    ]
