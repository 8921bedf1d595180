-- ===== src/RowStats/Laws.antt =====
-- The loops by words find what the loop by elements finds.
use risc_v_vi_t_accelerator.Base.{
  not_ltb, ℕ, zero, suc, ◌+◌, ◌-◌, ◌*◌, ◌/◌, ◌%◌, ◌^◌, ◌≤◌, ◌<◌, ◌≡◌, refl, ◌∙◌, ap, arith, Bool,
  true, false, ltb, if◌then◌else◌, Option, none, some, mag, for_range, lt→ltb, ◌⊎◌, inl, inr,
}
use mathlib.Core.Path.{subst}
use native.Mathlib.Decide.{dec_le}
use risc_v_vi_t_accelerator.Gemm.{Ints}
use risc_v_vi_t_accelerator.Fixed.{lo16, hi16}
use risc_v_vi_t_accelerator.RowStats.{
  Stats, no_stats, add_value, add_words, word_loop, with_extremes, row_stats,
}
use risc_v_vi_t_accelerator.RowStats.Rounds.{words-Agrees, for_range-append}

abbrev block_end : ℕ → ℕ → ℕ
block_end c0 half = if ltb (c0 + 32) half then c0 + 32 else half

block_end_cases :
    (c0 half : ℕ)
    → (block_end c0 half ≡ c0 + 32) × (block_end c0 half ≤ half)
      ⊎ (block_end c0 half ≡ half) × (half ≤ c0 + 32)
block_end_cases c0 half = elim (dec_le (suc (c0 + 32)) half) [
  | yes more ↦ inl (ground arith, ground arith)
  | no last ↦ inr (ground arith, omega arith)
]

-- What both loops have found.
record IsSame (ext : Bool) (s p : Stats) : Type 0 where
  sum_eq : s.sum ≡ p.sum
  sq_eq : s.sq ≡ p.sq
  sq_fits : s.sq < 2 ^ 64
  max_eq : ext ≡ true → s.xmax ≡ p.xmax
  min_eq : ext ≡ true → s.xmin ≡ p.xmin

module _ (row : Ints) (len : ℕ) (small : (i : ℕ) → i < len → mag (row i) ≤ 8191) where
  add_words-IsSame :
      (ext : Bool) (c0 c1 : ℕ) (s p : Stats)
      → c0 ≤ c1
      → c1 ≤ c0 + 32
      → 2 * c1 ≤ len
      → IsSame ext s p
      → IsSame ext
          (add_words ext row c0 c1 s)
          (for_range (2 * (c1 - c0)) (2 * c0) (add_value row) p)
  unfolding add_words
  add_words-IsSame ext c0 c1 s p lo hi h a =
      let found =
        words-Agrees row len small ext s.sq 0 (c1 - c0) c0 (record s { sq = 0 }) p (omega arith)
          (omega arith)
          (record {
            same_sum = a.sum_eq;
            same_sq = omega (arith, a.sq_eq, a.sq_fits);
            bound = omega arith;
            same_max = a.max_eq;
            same_min = a.min_eq;
          }) in
      record {
        sum_eq = found.same_sum;
        sq_eq = found.same_sq;
        sq_fits = omega arith;
        max_eq = found.same_max;
        min_eq = found.same_min;
      }

  -- A block of up to 32 words, and the elements after it.
  rest_of :
      (half c0 c1 : ℕ) (p : Stats)
      → c0 < half
      → (c1 ≡ c0 + 32) × (c1 ≤ half) ⊎ (c1 ≡ half) × (half ≤ c0 + 32)
      → for_range
          (2 * half - 2 * (c0 + 32))
          (2 * (c0 + 32))
          (add_value row)
          (for_range (2 * (c1 - c0)) (2 * c0) (add_value row) p)
        ≡ for_range (2 * half - 2 * c0) (2 * c0) (add_value row) p
  unfolding for_range
  rest_of half c0 c1 p h (inl (e, le)) =
      ap
        (λ j.
          for_range (2 * half - 2 * (c0 + 32)) j (add_value row)
            (for_range (2 * (c1 - c0)) (2 * c0) (add_value row) p))
        {x = 2 * (c0 + 32)} {y = 2 * c0 + 2 * (c1 - c0)} (omega arith)
      ∙ for_range-append (2 * (c1 - c0)) (2 * half - 2 * (c0 + 32)) (2 * c0) (add_value row) p
      ∙ ap (λ n. for_range n (2 * c0) (add_value row) p)
          {x = 2 * (c1 - c0) + (2 * half - 2 * (c0 + 32))} {y = 2 * half - 2 * c0} (omega arith)
  rest_of half c0 c1 p h (inr (e, le)) =
      ap
        (λ n.
          for_range n (2 * (c0 + 32)) (add_value row)
            (for_range (2 * (c1 - c0)) (2 * c0) (add_value row) p))
        {x = 2 * half - 2 * (c0 + 32)} {y = 0} (omega arith)
      ∙ ap (λ n. for_range n (2 * c0) (add_value row) p) {x = 2 * (c1 - c0)} {y = 2 * half - 2 * c0}
          (omega arith)

  word_loop-IsSame :
      (fuel : ℕ) (ext : Bool) (half c0 : ℕ) (s p : Stats)
      → 2 * half ≤ len
      → half ≤ fuel + c0
      → IsSame ext s p
      → IsSame ext
          (word_loop fuel ext row half c0 s)
          (for_range (2 * half - 2 * c0) (2 * c0) (add_value row) p)
  unfolding word_loop for_range
  word_loop-IsSame zero ext half c0 s p hl hf a =
      subst (λ n. IsSame ext s (for_range n (2 * c0) (add_value row) p)) {x = 0}
        {y = 2 * half - 2 * c0} (omega arith) a
  word_loop-IsSame (suc fuel) ext half c0 s p hl hf a = elim (dec_le (suc c0) half) [
    | yes more ↦
        let c1 = block_end c0 half in
        rw (lt→ltb c0 half more) (
          subst (IsSame ext (word_loop fuel ext row half (c0 + 32) (add_words ext row c0 c1 s)))
            (rest_of half c0 c1 p more (block_end_cases c0 half))
            (word_loop-IsSame fuel ext half (c0 + 32) (add_words ext row c0 c1 s)
              (for_range (2 * (c1 - c0)) (2 * c0) (add_value row) p) hl (omega arith)
              (add_words-IsSame ext c0 c1 s p (ground arith) (ground arith) (ground arith) a)))
    | no done ↦ rw (not_ltb c0 half (omega arith)) (
        subst (λ n. IsSame ext s (for_range n (2 * c0) (add_value row) p)) {x = 0}
          {y = 2 * half - 2 * c0} (omega arith) a)
  ]

  -- The whole row.
  all :
      (ext : Bool)
      → len % 2 ≡ 0
      → IsSame ext
          (word_loop (len / 2) ext row (len / 2) 0 no_stats)
          (for_range len 0 (add_value row) no_stats)
  all ext even =
      subst
        (λ n.
          IsSame ext (word_loop (len / 2) ext row (len / 2) 0 no_stats)
            (for_range n 0 (add_value row) no_stats))
        {x = 2 * (len / 2) - 2 * 0} {y = len} (omega arith)
        (word_loop-IsSame (len / 2) ext (len / 2) 0 no_stats no_stats (omega arith) (omega arith)
          (record {
            sum_eq = refl;
            sq_eq = refl;
            sq_fits = omega arith;
            max_eq = λ e. refl;
            min_eq = λ e. refl;
          }))

stats_path : {s p : Stats} → s.sum ≡ p.sum → s.sq ≡ p.sq → s.xmax ≡ p.xmax → s.xmin ≡ p.xmin → s ≡ p
stats_path e f g h = λ i. record { sum = e i; sq = f i; xmax = g i; xmin = h i }

-- What *rst holds, if it is given, are the extremes of the row.
abbrev pub Reports : Option ℕ → Stats → Type 0
Reports none s = Unit {0}
Reports (some rst) s = (hi16 rst ≡ s.xmax) × (lo16 rst ≡ s.xmin)

-- For an even number of activations, of magnitude at most 8191 each: row_stats by words, with the
-- extremes from the loop or from a word that reports them, gives the same sum, sum of squares and
-- extremes as by elements. No block of squares wraps around.
pub row_stats-wide :
    (row : Ints) (len : ℕ) (rst : Option ℕ)
    → len % 2 ≡ 0
    → ((i : ℕ) → i < len → mag (row i) ≤ 8191)
    → Reports rst (row_stats row len false none none)
    → row_stats row len true rst none ≡ row_stats row len false none none
unfolding row_stats with_extremes
row_stats-wide row len none even small known =
    let same = all row len small true even in
    stats_path same.sum_eq same.sq_eq (same.max_eq refl) (same.min_eq refl)
row_stats-wide row len (some rst) even small (hi, lo) =
    let same = all row len small false even in stats_path same.sum_eq same.sq_eq hi lo
