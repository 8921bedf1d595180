-- ===== src/Emulator/RowResults.antt =====
-- What a weight row leaves in the result RAM, and the extremes that go to the statistics.
use risc_v_vi_t_accelerator.Base.{
  ℕ, suc, ◌+◌, ◌-◌, ◌*◌, ◌<◌, ◌≡◌, refl, sym, ap, ◌∙◌, arith, Bool, true, false, ◌&&◌, ◌||◌,
  Bool-cases, inl, inr, ltb, leb, ◌==◌, u32, if◌then◌else◌, ℤ, pos, ltb_ℤ, ◌≤ℤ◌, for_range_inv,
  if-true, if-true,
}
use native.Mathlib.Decide.{dec_lt}
use risc_v_vi_t_accelerator.Emulator.{Emu, Ints}
use risc_v_vi_t_accelerator.Emulator.Tile.{a_elem}
use risc_v_vi_t_accelerator.Emulator.Rows.{
  weight, put_result, row_sum, row_loop, range_update, row_stats, gemm_row,
}

-- The first word of row m in the result RAM.
abbrev pub row_base : Emu → ℕ → ℕ
row_base e m = e.job.c_addr + u32 (m * e.job.c_stride)

-- The RAM with the first t sums of row m written.
abbrev row_ram : Emu → ℕ → ℕ → Ints
row_ram e m t i =
    if leb (row_base e m) i && ltb i (row_base e m + t)
    then row_sum e m (i - row_base e m)
    else e.cr_ram i

-- The state of the loop before its round t.
record IsRow (e : Emu) (m t : ℕ) (s : Emu × ℤ × ℤ) : Type 0 where
  same : s.0 ≡ record e { cr_ram = s.0.cr_ram }
  ram : (i : ℕ) → s.0.cr_ram i ≡ row_ram e m t i
  above : (k : ℕ) → k < t → row_sum e m k ≤ℤ s.1
  below : (k : ℕ) → k < t → s.2 ≤ℤ row_sum e m k
  top : 0 < t → (k : ℕ) × (k < t) × (row_sum e m k ≡ s.1)
  bottom : 0 < t → (k : ℕ) × (k < t) × (row_sum e m k ≡ s.2)

-- A product does not read the result RAM.
row_sum-ram :
    (e : Emu) (ram : Ints) (m t : ℕ) → row_sum (record e { cr_ram = ram }) m t ≡ row_sum e m t
unfolding row_sum a_elem weight
row_sum-ram e ram m t = refl

put_result-ram :
    (m t : ℕ) (v : ℤ) (e : Emu)
    → e.job.onchip ≡ true
    → put_result m t v e
      ≡ record e { cr_ram = λ i. if row_base e m + t == i then v else e.cr_ram i }
unfolding put_result
put_result-ram m t v e on = if-true e.job.onchip _ _ on

-- The running extremes take in the next value.
largest :
    (f : ℕ → ℤ) (t : ℕ) (old : ℤ)
    → ((k : ℕ) → k < t → f k ≤ℤ old)
    → (k : ℕ) → k < suc t
    → f k ≤ℤ (if (t == 0) || ltb_ℤ old (f t) then f t else old)
largest f t old h k hk = elim (dec_lt k t) [
  | yes lt ↦ ground (arith, h k lt)
  | no ge ↦ let last : k ≡ t = omega arith in let value = ap f last in ground arith
]

smallest :
    (f : ℕ → ℤ) (t : ℕ) (old : ℤ)
    → ((k : ℕ) → k < t → old ≤ℤ f k)
    → (k : ℕ) → k < suc t
    → (if (t == 0) || ltb_ℤ (f t) old then f t else old) ≤ℤ f k
smallest f t old h k hk = elim (dec_lt k t) [
  | yes lt ↦ ground (arith, h k lt)
  | no ge ↦ let last : k ≡ t = omega arith in let value = ap f last in ground arith
]

-- A running extreme is the next value, or one of those before it.
attained :
    (f : ℕ → ℤ) (t : ℕ) (old : ℤ) (takes : Bool)
    → (0 < t → (k : ℕ) × (k < t) × (f k ≡ old))
    → (k : ℕ) × (k < suc t) × (f k ≡ (if (t == 0) || takes then f t else old))
attained f t old takes h = elim (Bool-cases ((t == 0) || takes)) [
  | inl yes_taken ↦ (t, omega arith, rw yes_taken refl)
  | inr kept ↦
      let (k, lt, value) = h (ground (arith, kept)) in (k, omega (arith, lt), rw kept value)
]

-- The RAM after one more word.
row_ram-next :
    (e : Emu) (m t i : ℕ) (v : ℤ) (before : ℤ)
    → v ≡ row_sum e m t
    → before ≡ row_ram e m t i
    → (if row_base e m + t == i then v else before) ≡ row_ram e m (suc t) i
row_ram-next e m t i v before value h = elim (Bool-cases (row_base e m + t == i)) [
  | inl here ↦
      let index : i - row_base e m ≡ t = ground arith in
      let there = ap (row_sum e m) index in rw here (ground arith)
  | inr away ↦ rw away (ground arith)
]

-- One round of the loop.
abbrev next_row : ℕ → ℕ → Emu × ℤ × ℤ → Emu × ℤ × ℤ
next_row m t s =
    let v = row_sum s.0 m t in
    (
      put_result m t v s.0,
      if (t == 0) || ltb_ℤ s.1 v then v else s.1,
      if (t == 0) || ltb_ℤ v s.2 then v else s.2,
    )

next_row-IsRow :
    (m t : ℕ) (e : Emu) (s : Emu × ℤ × ℤ)
    → e.job.onchip ≡ true
    → IsRow e m t s
    → IsRow e m (suc t) (next_row m t s)
next_row-IsRow m t e (x, mx, mn) on row =
    let value : row_sum x m t ≡ row_sum e m t =
      ap (λ (y : Emu). row_sum y m t) row.same ∙ row_sum-ram e x.cr_ram m t in
    let base : row_base x m ≡ row_base e m = ap (λ (y : Emu). row_base y m) row.same in
    let put = put_result-ram m t (row_sum x m t) x (ap (λ (y : Emu). y.job.onchip) row.same ∙ on) in
    let ram : Ints = λ i. if row_base x m + t == i then row_sum x m t else x.cr_ram i in
    record {
      same =
          put
          ∙ ap (λ (y : Emu). record y { cr_ram = ram }) row.same
          ∙ ap (λ (c : Ints). record e { cr_ram = c }) (sym (ap (λ (y : Emu). y.cr_ram) put));
      ram = λ i.
          ap (λ (y : Emu). y.cr_ram i) put
          ∙ ap (λ (b : ℕ). if b + t == i then row_sum x m t else x.cr_ram i) base
          ∙ row_ram-next e m t i (row_sum x m t) (x.cr_ram i) value (row.ram i);
      above = λ k h. rw value (largest (row_sum e m) t mx row.above k h);
      below = λ k h. rw value (smallest (row_sum e m) t mn row.below k h);
      top = λ _. rw value (attained (row_sum e m) t mx (ltb_ℤ mx (row_sum e m t)) row.top);
      bottom = λ _. rw value (attained (row_sum e m) t mn (ltb_ℤ (row_sum e m t) mn) row.bottom);
    }

row_loop-IsRow : (m : ℕ) (e : Emu) → e.job.onchip ≡ true → IsRow e m e.job.n (row_loop m e)
unfolding row_loop
row_loop-IsRow m e on =
    for_range_inv (IsRow e m) _ e.job.n 0 e.job.n (e, pos 0, pos 0) (omega arith)
      (λ t s lo hi row. next_row-IsRow m t e s on row)
      (record {
        same = refl;
        ram = λ i. ground arith;
        above = λ k h. absurd (omega arith);
        below = λ k h. absurd (omega arith);
        top = λ h. absurd (omega arith);
        bottom = λ h. absurd (omega arith);
      })

range-ram :
    (b : Bool) (m : ℕ) (mx mn : ℤ) (e : Emu)
    → (if b then range_update m mx mn e else e).cr_ram ≡ e.cr_ram
unfolding range_update
range-ram true m mx mn e = refl
range-ram false m mx mn e = refl

stats-ram :
    (b : Bool) (m : ℕ) (mx mn : ℤ) (e : Emu)
    → (if b then e else row_stats m mx mn e).cr_ram ≡ e.cr_ram
unfolding row_stats
stats-ram true m mx mn e = refl
stats-ram false m mx mn e = refl

-- A row of a job with CTRL.onchip writes its n sums to the n words of the result RAM from
-- c_addr + m c_stride on, and no other word of it.
pub gemm_row-ram :
    (m : ℕ) (e : Emu)
    → e.job.onchip ≡ true
    → (i : ℕ) → (gemm_row m e).cr_ram i ≡ row_ram e m e.job.n i
unfolding gemm_row
gemm_row-ram m e on i =
    let (e1, mx, mn) = row_loop m e in
    let e2 : Emu = record e1 {
      job = record (e1.job) { writes = u32 (e1.job.writes + e1.job.n) };
    } in
    let e3 : Emu = if e2.job.rng then range_update m mx mn e2 else e2 in
    ap (λ (c : Ints). c i)
      (stats-ram (e3.job.s_addr == 0) m mx mn e3 ∙ range-ram e2.job.rng m mx mn e2)
    ∙ (row_loop-IsRow m e on).ram i

-- The largest and the smallest of n values: bounds that are themselves among the values.
pub record IsExtremes (f : ℕ → ℤ) (n : ℕ) (mx mn : ℤ) : Type 0 where
  above : (k : ℕ) → k < n → f k ≤ℤ mx
  below : (k : ℕ) → k < n → mn ≤ℤ f k
  top : (k : ℕ) × (k < n) × (f k ≡ mx)
  bottom : (k : ℕ) × (k < n) × (f k ≡ mn)
