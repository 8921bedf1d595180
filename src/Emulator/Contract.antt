-- ===== src/Emulator/Contract.antt =====
-- What a job that starts is known to satisfy.
use risc_v_vi_t_accelerator.Base.{
  ℕ, ◌%◌, ◌≤◌, ◌≡◌, refl, sym, ap, ◌∙◌, arith, Bool, true, false, not, ◌&&◌, Bool-cases, inl, inr,
  bind-some, some-injective, Option, some, guard, ◌>>◌, leb, ◌==◌, if◌then◌else◌,
}
use mathlib.Core.Path.{subst}
use risc_v_vi_t_accelerator.Emulator.{Emu, Regs, Job, nrows, bit}
use risc_v_vi_t_accelerator.Emulator.Tile.{a_snapshot}
use risc_v_vi_t_accelerator.Emulator.Decode.{job_flags, job_operands}
use risc_v_vi_t_accelerator.Emulator.Latch.{
  load_range, ln_ok, latch_ln, requant_ok, other_ok, start_ok, table_ok, gemm_ok, latch_other,
  latch_job, latch,
}

-- The sizes that every kind of job is checked for.
pub record IsContract (j : Job) : Type 0 where
  pub is_busy : j.busy ≡ true
  pub rows : (1 ≤ j.n) × (j.n ≤ 128)
  pub sizes :
      (if j.ln
        then leb 2 j.k && leb j.k 2048
        else if j.requant
        then leb 2 j.m && (j.m % 2 == 0) && leb j.m 1024
        else leb 4 j.k && (j.k % 4 == 0) && leb j.k 2048)
      ≡ true

then-some {ℓ} :
    {B : Type ℓ} (b : Bool) (k : Option B) (r : B)
    → (guard b >> k) ≡ some r
    → (b ≡ true) × (k ≡ some r)
then-some true k r e = (refl, e)
then-some false k r e = absurd (grind arith)

a_snapshot-job : (e : Emu) → (a_snapshot e).job ≡ e.job
unfolding a_snapshot
a_snapshot-job e = refl

choice-job :
    (b : Bool) (j : Job) (e e' : Emu) → e.job ≡ j → e'.job ≡ j → (if b then e else e').job ≡ j
choice-job true j e e' h h' = h
choice-job false j e e' h h' = h'

-- The job that a latch leaves is the one that was decoded.
latch_ln-job : (j : Job) (e r : Emu) → latch_ln j e ≡ some r → (r.job ≡ j) × (ln_ok j e ≡ true)
unfolding latch_ln
latch_ln-job j e r h =
    let (ok, last) = then-some (ln_ok j e) _ r h in
    (
      sym (ap (λ (x : Emu). x.job) (some-injective _ r last))
          ∙ choice-job j.lnb j _ _ refl (a_snapshot-job (record e { job = j; ln_valid = false })),
      ok,
    )

latch_other-job :
    (ctrl : ℕ) (j : Job) (e r : Emu)
    → latch_other ctrl j e ≡ some r
    → (r.job ≡ j) × (other_ok ctrl j ≡ true)
unfolding latch_other
latch_other-job ctrl j e r h =
    let (ok, last) = then-some (other_ok ctrl j) _ r h in
    (
      sym (ap (λ (x : Emu). x.job) (some-injective _ r last))
          ∙ choice-job j.requant j _ _ refl
              (a_snapshot-job (record e { job = j; ln_valid = false })),
      ok,
    )

ln_ok-IsContract :
    (j : Job) (e : Emu) → j.busy ≡ true → j.ln ≡ true → ln_ok j e ≡ true → IsContract j
unfolding ln_ok
ln_ok-IsContract j e hb hl ok = record {
  is_busy = hb;
  rows = (ground arith, ground arith);
  sizes = rw hl (ground arith);
}

both-true : (a b : Bool) → (a && b) ≡ true → (a ≡ true) × (b ≡ true)
both-true true b h = (refl, h)
both-true false b h = absurd (grind arith)

requant_ok-sizes :
    (j : Job) → requant_ok j ≡ true → (leb 2 j.m && (j.m % 2 == 0) && leb j.m 1024) ≡ true
unfolding requant_ok
requant_ok-sizes j ok = ground arith

gemm_ok-sizes : (j : Job) → gemm_ok j ≡ true → (leb 4 j.k && (j.k % 4 == 0) && leb j.k 2048) ≡ true
unfolding gemm_ok
gemm_ok-sizes j ok = ground arith

other_ok-IsContract :
    (ctrl : ℕ) (j : Job) → j.busy ≡ true → j.ln ≡ false → other_ok ctrl j ≡ true → IsContract j
unfolding other_ok requant_ok gemm_ok
other_ok-IsContract ctrl j hb hl ok =
    let (rows_ok, rest) = both-true (leb 1 j.n && leb j.n nrows) _ ok in
    let (sizes_ok, _) = both-true (if j.requant then requant_ok j else gemm_ok j) _ rest in
    elim (Bool-cases j.requant) [
      | inl q ↦
          let sizes : requant_ok j ≡ true = rw q at sizes_ok in
          record {
            is_busy = hb;
            rows = (ground arith, ground arith);
            sizes = rw (hl, q) (requant_ok-sizes j sizes);
          }
      | inr q ↦
          let sizes : gemm_ok j ≡ true = rw q at sizes_ok in
          record {
            is_busy = hb;
            rows = (ground arith, ground arith);
            sizes = rw (hl, q) (gemm_ok-sizes j sizes);
          }
    ]

last-IsContract :
    (ctrl : ℕ) (j : Job) (e r : Emu)
    → j.busy ≡ true
    → (if j.ln then latch_ln j e else latch_other ctrl j e) ≡ some r
    → IsContract r.job
last-IsContract ctrl j e r hb h = elim (Bool-cases j.ln) [
  | inl q ↦
      let run : latch_ln j e ≡ some r =
        sym (ap (λ (b : Bool). if b then latch_ln j e else latch_other ctrl j e) q) ∙ h in
      let (same, ok) = latch_ln-job j e r run in
      subst IsContract (sym same) (ln_ok-IsContract j e hb q ok)
  | inr q ↦
      let run : latch_other ctrl j e ≡ some r =
        sym (ap (λ (b : Bool). if b then latch_ln j e else latch_other ctrl j e) q) ∙ h in
      let (same, ok) = latch_other-job ctrl j e r run in
      subst IsContract (sym same) (other_ok-IsContract ctrl j hb q ok)
]

job_operands-busy : (ctrl : ℕ) (r : Regs) → (job_operands ctrl r (job_flags ctrl r)).busy ≡ true
unfolding job_operands job_flags
job_operands-busy ctrl r = refl

latch_job-IsContract : (ctrl : ℕ) (e r : Emu) → latch_job ctrl e ≡ some r → IsContract r.job
unfolding latch_job
latch_job-IsContract ctrl e r h =
    let j = job_operands ctrl e.regs (job_flags ctrl e.regs) in
    let (e1, loaded, h2) =
      bind-some (guard (start_ok ctrl e.regs) >> (if j.rngl then load_range j e else some e))
        (λ (e1 : Emu).
          guard (table_ok j e1) >> (if j.ln then latch_ln j e1 else latch_other ctrl j e1))
        r h in
    let (ok, last) =
      then-some (table_ok j e1) (if j.ln then latch_ln j e1 else latch_other ctrl j e1) r h2 in
    last-IsContract ctrl j e1 r (job_operands-busy ctrl e.regs) last

-- A write of CTRL with the start bit is accepted only when no job is running. The job that is then
-- running meets the contract of its kind: 1 to 128 rows; for LayerNorm 2 to 2048 columns, for a
-- requantisation an even number of 2 to 1024 values in a row, and for a product a multiple of 4 from
-- 4 to 2048 columns.
pub latch-IsContract :
    (e r : Emu)
    → bit e.regs.ctrl 0 ≡ true
    → latch e ≡ some r
    → (e.job.busy ≡ false) × IsContract r.job
unfolding latch
latch-IsContract e r start h =
    let (idle, run) =
      then-some (not e.job.busy)
        (latch_job e.regs.ctrl (record e { regs = record (e.regs) { ctrl = 0 } })) r
        (rw start at h) in
    (ground arith, latch_job-IsContract e.regs.ctrl _ r run)
