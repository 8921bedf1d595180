-- ===== src/Attention/Probabilities.antt =====
-- The maximum of a row of scores, the first entry of the table, and the probabilities of a row.
use risc_v_vi_t_accelerator.Base.{
  ℕ, zero, suc, ◌+◌, ◌-◌, ◌*◌, ◌/◌, ◌^◌, ◌≤◌, ◌<◌, ◌≡◌, refl, arith, ◌⊎◌, inl, inr, none, some,
  Bool-cases, false, if◌then◌else◌, ℤ, negsuc, ltb_ℤ, InInt32, eq_of_parts, for_range,
  for_range_inv,
}
use mathlib.Core.Path.{subst, fun_ext}
use risc_v_vi_t_accelerator.Copy.Memory.{Halfwords, store16}
use risc_v_vi_t_accelerator.Attention.Softmax.{
  Consts, Table, Scores, whole, split, score, smax_of, row_max, distance, softmax_p, padded,
  row_probs, inverse, norm_p, norm_step, softmax_row, exp2_round, exp2_tab_init,
}
use risc_v_vi_t_accelerator.Attention.Row.{
  total, total_bound, total_has, Holds, softmax_p-le, softmax_p-zero, half_p-softmax_p, ones-Holds,
  row-Holds,
}
use risc_v_vi_t_accelerator.Attention.Normalise.{with_padding, padding-Holds, norm-Holds}

-- The largest of the first i scores is v, or there was none.
abbrev Seen : (ℕ → ℤ) → ℕ → ℤ → Type 0
Seen s i v = ((i ≡ 0) × (v ≡ negsuc 2_147_483_647)) ⊎ ((m : ℕ) × (m < i) × (s m ≡ v))

max_round :
    (s : ℕ → ℤ) (i : ℕ) (v : ℤ)
    → InInt32 (s i)
    → Seen s i v
    → Seen s (suc i) (if ltb_ℤ v (s i) then s i else v)
max_round s i v fits seen = elim (Bool-cases (ltb_ℤ v (s i))) [
  | inl larger ↦ rw larger (inr (i, omega arith, refl))
  | inr not_larger ↦ rw not_larger (keep not_larger seen)
]
  where
    keep : ltb_ℤ v (s i) ≡ false → Seen s i v → Seen s (suc i) v
    keep small (inl (e, least)) = inr (i, omega arith, eq_of_parts (s i) v (ground arith))
    keep small (inr (m, before, same)) = inr (m, omega arith, same)

-- The largest score is found, at some key.
row_max-found :
    (s : ℕ → ℤ) (n : ℕ)
    → 0 < n
    → ((m : ℕ) → m < n → InInt32 (s m))
    → (m : ℕ) × (m < n) × (s m ≡ row_max s n)
unfolding row_max
row_max-found s n more fits = elim last [
  | inl (none_yet, least) ↦ absurd (omega arith)
  | inr found ↦ found
]
  where
    last : Seen s n (row_max s n)
    last =
        for_range_inv (Seen s) (λ m smax. if ltb_ℤ smax (s m) then s m else smax) n 0 n
          (negsuc 2_147_483_647) (omega arith) (λ i v lo hi. max_round s i v (fits i hi))
          (inl (refl, refl))

exp2_round-first :
    (k : ℕ) (s : ℕ × Table)
    → (k ≡ 0 → s.0 ≡ 2 ^ 30) × (0 < k → s.1 0 ≡ 32_768)
    → (suc k ≡ 0 → (exp2_round k s).0 ≡ 2 ^ 30) × (0 < suc k → (exp2_round k s).1 0 ≡ 32_768)
unfolding exp2_round
exp2_round-first zero s (start, done) = (λ z. absurd (omega arith), λ z. rw (start refl) refl)
exp2_round-first (suc k) s (start, done) =
    (λ z. absurd (omega arith), λ z. ground (arith, done (omega arith)))

pub exp2_tab_init-first : (tab : Table) → tab 0 ≡ 0 → exp2_tab_init tab 0 ≡ 32_768
unfolding exp2_tab_init
exp2_tab_init-first tab h = rw (h) (
    (for_range_inv (λ k (s : ℕ × Table). (k ≡ 0 → s.0 ≡ 2 ^ 30) × (0 < k → s.1 0 ≡ 32_768))
        exp2_round 1024 0 1024 (2 ^ 30, tab) (omega arith)
        (λ k s lo hi before. exp2_round-first k s before) (λ z. refl, λ z. absurd (omega arith))).1
      (omega arith))

-- The probability of key m for query t, before the row is divided by its sum.
abbrev pub prob : Scores → ℕ → ℕ → Consts → Table → ℕ → ℕ
prob sc n t k e m = softmax_p (distance (smax_of sc n t) (score sc n t m)) k.cutoff k.j k.factor e

row_probs-Holds :
    (sc : Scores) (n t : ℕ) (k : Consts) (e : Table) (pr : ℕ) (mem : Halfwords)
    → n ≤ 2 ^ 16
    → let s = row_probs sc n t k e pr mem in
      Holds pr (prob sc n t k e) n mem s.0 × (s.1 ≡ total (prob sc n t k e) n)
unfolding row_probs
row_probs-Holds (whole s sst) n t k e pr mem h =
    row-Holds pr n (prob (whole s sst) n t k e) mem (λ m. softmax_p-le _ _ _ _ _) h
row_probs-Holds (split hi lo) n t k e pr mem h =
    rw
      (fun_ext (λ (m : ℕ).
        half_p-softmax_p (distance (smax_of (split hi lo) n t) (score (split hi lo) n t m)) k e))
      (ones-Holds pr n (prob (split hi lo) n t k e) mem (λ m. softmax_p-le _ _ _ _ _) h)

-- What the row of query t holds in the end.
abbrev pub value : Scores → ℕ → ℕ → Consts → Table → ℕ → ℕ
value sc n t k e m =
    norm_p (inverse (total (prob sc n t k e) n)) (with_padding n (prob sc n t k e) m)

pub softmax_row-Holds :
    (sc : Scores) (n t : ℕ) (k : Consts) (e : Table) (pr : ℕ) (mem : Halfwords)
    → n ≤ 2 ^ 16
    → inverse (total (prob sc n t k e) n) ≤ 65_538
    → Holds pr (value sc n t k e) (padded n) mem (softmax_row sc n t k e pr mem)
unfolding softmax_row
softmax_row-Holds sc n t k e pr mem h fits =
    let (cells, sum) = row_probs-Holds sc n t k e pr mem h in
    let f = with_padding n (prob sc n t k e) in
    let mem1 = (row_probs sc n t k e pr mem).0 in
    let mem2 = for_range (padded n - n) n (λ m. λ (b : Halfwords). store16 b (pr + m) 0) mem1 in
    let mem3 =
      for_range (padded n / 2) 0 (norm_step pr (inverse (total (prob sc n t k e) n))) mem2 in
    let padding = padding-Holds pr n (padded n - n) (prob sc n t k e) mem mem1 cells in
    rw sum (
      subst (λ w. Holds pr (value sc n t k e) w mem mem3) {x = 2 * (padded n / 2)} {y = padded n}
        (omega arith)
        (norm-Holds (inverse (total (prob sc n t k e) n)) fits pr (padded n / 2) f mem mem2
          (λ m. ground (
            arith,
            softmax_p-le (distance (smax_of sc n t) (score sc n t m)) k.cutoff k.j k.factor e,
          ))
          (subst (λ w. Holds pr f w mem mem2) {x = n + (padded n - n)} {y = 2 * (padded n / 2)}
            (omega arith) padding)))

-- The row maximum that attn_softmax uses is a score of the row: the statistics say so, or the scores
-- are int32 values, from which it finds the maximum itself.
abbrev pub Known : Scores → ℕ → ℕ → Type 0
Known (whole s (some sst)) n t = (m : ℕ) × (m < n) × (s (t * n + m) ≡ sst (2 * t))
Known (whole s none) n t = (m : ℕ) → m < n → InInt32 (score (whole s none) n t m)
Known (split hi lo) n t = (m : ℕ) → m < n → InInt32 (score (split hi lo) n t m)

-- One key has the largest score.
top :
    (sc : Scores) (n t : ℕ)
    → 0 < n
    → Known sc n t
    → (m : ℕ) × (m < n) × (score sc n t m ≡ smax_of sc n t)
unfolding smax_of
top (whole s (some sst)) n t h known = (known.0, known.1, unfold score in known.2)
top (whole s none) n t h known = row_max-found (score (whole s none) n t) n h known
top (split hi lo) n t h known = row_max-found (score (split hi lo) n t) n h known

no_distance : (x : ℤ) → distance x x ≡ 0
unfolding distance
no_distance x = omega arith

-- The sum of a row is at least the largest probability.
pub total_bounds :
    (sc : Scores) (n t : ℕ) (k : Consts) (e : Table)
    → 0 < n
    → n ≤ 2 ^ 16
    → Known sc n t
    → 0 < k.cutoff
    → e 0 ≡ 32_768
    → (32_767 ≤ total (prob sc n t k e) n) × (total (prob sc n t k e) n ≤ n * 32_767)
total_bounds sc n t k e more few known cut first =
    let (m, inside, highest) = top sc n t more known in
    (
      omega (arith, total_has (prob sc n t k e) n m inside, at_top m highest),
      total_bound (prob sc n t k e) 32_767 n (λ i. softmax_p-le _ _ _ _ _),
    )
  where
    at_top : (m : ℕ) → score sc n t m ≡ smax_of sc n t → prob sc n t k e m ≡ 32_767
    at_top m same =
        rw (same, no_distance (smax_of sc n t)) (softmax_p-zero k.cutoff k.j k.factor e cut first)
