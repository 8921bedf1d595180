-- ===== src/Attention/ColumnSums.antt =====
-- The sums by words are the sums of the columns.
use risc_v_vi_t_accelerator.Base.{
  ℕ, suc, ◌+◌, ◌-◌, ◌*◌, ◌/◌, ◌%◌, ◌^◌, ◌≤◌, ◌<◌, ◌≡◌, refl, ap, ◌∙◌, arith, ltb, ◌==◌, true, false,
  if◌then◌else◌, u32, for_range, for_range_inv, lt→ltb, if-true, if-false,
}
use mathlib.Core.Path.{ap₂, subst}
use native.Mathlib.Decide.{dec_le}
use risc_v_vi_t_accelerator.Copy.Memory.{Halfwords, IsHalfwords}
use risc_v_vi_t_accelerator.Attention.Softmax.{padded}
use risc_v_vi_t_accelerator.Attention.Row.{total, total_bound}
use risc_v_vi_t_accelerator.Attention.Sums.{
  Registers, set_at, add_to, word_of, column_words, store_sums, sums_group, accel_sums,
}

-- The array when the elements below k have taken their word.
abbrev Taken : (ℕ → ℕ) → (ℕ → ℕ) → ℕ → (ℕ → ℕ) → Type 0
Taken s w k a = (i : ℕ) → a i ≡ (if ltb i k then u32 (s i + w i) else s i)

Taken-suc :
    (s w a : ℕ → ℕ) (k : ℕ) → Taken s w k a → Taken s w (suc k) (set_at a k (u32 (a k + w k)))
Taken-suc s w a k before i = elim (dec_le (suc i) k) [
  | yes earlier ↦ ground (arith, before i)
  | no late ↦ elim (dec_le (suc k) i) [
    | yes later ↦ ground (arith, before i)
    | no same ↦
        let here : k ≡ i = omega arith in
        subst
          (λ (i : ℕ).
            set_at a k (u32 (a k + w k)) i ≡ (if ltb i (suc k) then u32 (s i + w i) else s i))
          here (ground (arith, before k))
  ]
]

-- One key: each register below m takes its word.
add_to_all :
    (w : ℕ → ℕ) (m i : ℕ) (s : Registers)
    → i < m
    → (let r = for_range m 0 (λ i. add_to i (w i)) s in
        (r.0 i ≡ u32 (s.0 i + w i)) × (r.1 i ≡ u32 (s.1 i + w i / 2 ^ 16)))
unfolding add_to
add_to_all w m i s h =
    let high = λ (i : ℕ). w i / 2 ^ 16 in
    let (t, g) =
      for_range_inv (λ k (r : Registers). Taken s.0 w k r.0 × Taken s.1 high k r.1)
        (λ i. add_to i (w i)) m 0 m s (omega arith)
        (λ k r lo hi before. (Taken-suc s.0 w r.0 k before.0, Taken-suc s.1 high r.1 k before.1))
        (λ j. ground arith, λ j. ground arith) in
    let inside = lt→ltb i m h in
    (t i ∙ if-true (ltb i m) _ _ inside, g i ∙ if-true (ltb i m) _ _ inside)

differ : (x y : ℕ) → ¬ (x ≡ y) → (x == y) ≡ false
differ x y h = ground arith

eqb_refl : (x : ℕ) → (x == x) ≡ true
eqb_refl x = ground arith

twice : (k x y : ℕ) → 2 * x ≡ y → 2 * (k * x) ≡ k * y
twice k x y e = omega (arith, ap (λ (t : ℕ). k * t) e)

module _ (pt n : ℕ) (mem : Halfwords) (hw : IsHalfwords mem) (fits : n ≤ 2 ^ 16) where
  -- The probability of query q and a key.
  abbrev cell : ℕ → ℕ → ℕ
  cell q key = mem (pt + key * padded n + q)

  -- The registers after k keys.
  IsSummed : ℕ → ℕ → ℕ → Registers → Type 0
  IsSummed w0 nw k (t, h) =
      (i : ℕ)
      → i < nw
      → (t i ≡ u32 (total (cell (2 * (w0 + i))) k + 2 ^ 16 * total (cell (2 * (w0 + i) + 1)) k))
        × (h i ≡ total (cell (2 * (w0 + i) + 1)) k)

  word-cells :
      (w0 key i : ℕ)
      → word_of pt n mem w0 key i ≡ cell (2 * (w0 + i)) key + 2 ^ 16 * cell (2 * (w0 + i) + 1) key
  word-cells w0 key i = ap₂ (λ (x y : ℕ). mem x + 2 ^ 16 * mem y) low high
    where
      half : 2 * (padded n / 2) ≡ padded n
      half = omega arith

      rows : 2 * (key * (padded n / 2)) ≡ key * padded n
      rows = twice key (padded n / 2) (padded n) half

      low : pt + 2 * (key * (padded n / 2) + w0 + i) ≡ pt + key * padded n + 2 * (w0 + i)
      low = omega (arith, rows)

      high : pt + 2 * (key * (padded n / 2) + w0 + i) + 1 ≡ pt + key * padded n + (2 * (w0 + i) + 1)
      high = omega (arith, rows)

  column_words-IsSummed : (w0 nw : ℕ) → IsSummed w0 nw n (column_words pt n mem w0 nw)
  unfolding column_words IsSummed total
  column_words-IsSummed w0 nw =
      for_range_inv (IsSummed w0 nw)
        (λ key. for_range nw 0 (λ i. add_to i (word_of pt n mem w0 key i))) n 0 n (λ i. 0, λ i. 0)
        (omega arith)
        (λ key s lo hi before i h.
          let (t, g) = add_to_all (word_of pt n mem w0 key) nw i s h in
          let word = word-cells w0 key i in
          let (bt, bg) = before i h in
          let below = hw (pt + key * padded n + 2 * (w0 + i)) in
          let above = hw (pt + key * padded n + (2 * (w0 + i) + 1)) in
          let bound =
            total_bound (cell (2 * (w0 + i) + 1)) 65_535 key
              (λ m. omega (arith, hw (pt + m * padded n + (2 * (w0 + i) + 1)))) in
          let upper = ap (λ (t : ℕ). t / 2 ^ 16) word in
          (omega (arith, t, word, bt), omega (arith, g, upper, bg, bound)))
        (λ i h. (refl, refl))

  -- The sums of the queries below m are there.
  IsFilledTo : ℕ → (ℕ → ℕ) → Type 0
  IsFilledTo m sum = (q : ℕ) → q < m → sum q ≡ total (cell q) n

  store-IsFilledTo :
      (w0 nw i : ℕ) (sum : ℕ → ℕ)
      → i < nw
      → IsFilledTo (2 * (w0 + i)) sum
      → IsFilledTo (2 * (w0 + suc i)) (store_sums w0 (column_words pt n mem w0 nw) i sum)
  unfolding store_sums IsFilledTo IsSummed
  store-IsFilledTo w0 nw i sum h filled q hq =
      let (t, g) = column_words-IsSummed w0 nw i h in
      let low =
        total_bound (cell (2 * (w0 + i))) 65_535 n
          (λ m. omega (arith, hw (pt + m * padded n + 2 * (w0 + i)))) in
      let high =
        total_bound (cell (2 * (w0 + i) + 1)) 65_535 n
          (λ m. omega (arith, hw (pt + m * padded n + (2 * (w0 + i) + 1)))) in
      let r = column_words pt n mem w0 nw in
      let even : u32 (r.0 i + 2 ^ 32 - u32 (r.1 i * 2 ^ 16)) ≡ total (cell (2 * (w0 + i))) n =
        omega (arith, t, g, low, high) in
      elim (dec_le (suc q) (2 * (w0 + i))) [
        | yes before ↦
            if-false _ _ _ (differ q (2 * (w0 + i) + 1) (omega arith))
            ∙ if-false _ _ _ (differ q (2 * (w0 + i)) (omega arith))
            ∙ filled q before
        | no here ↦ elim (dec_le (suc q) (2 * (w0 + i) + 1)) [
          | yes first ↦
              let this : 2 * (w0 + i) ≡ q = omega arith in
              subst (λ (q : ℕ). store_sums w0 r i sum q ≡ total (cell q) n) this
                (if-false _ _ _ (differ (2 * (w0 + i)) (2 * (w0 + i) + 1) (omega arith))
                  ∙ if-true _ _ _ (eqb_refl (2 * (w0 + i)))
                  ∙ even)
          | no second ↦
              let this : 2 * (w0 + i) + 1 ≡ q = omega arith in
              subst (λ (q : ℕ). store_sums w0 r i sum q ≡ total (cell q) n) this
                (if-true _ _ _ (eqb_refl (2 * (w0 + i) + 1)) ∙ g)
        ]
      ]

  sums_group-IsFilledTo :
      (w0 : ℕ) (sum : ℕ → ℕ)
      → IsFilledTo (2 * w0) sum
      → IsFilledTo
          (2 * (w0 + (if ltb (n / 2 - w0) 4 then n / 2 - w0 else 4)))
          (sums_group pt n mem w0 sum)
  unfolding sums_group
  sums_group-IsFilledTo w0 sum filled =
      let nw = if ltb (n / 2 - w0) 4 then n / 2 - w0 else 4 in
      for_range_inv (λ i a. IsFilledTo (2 * (w0 + i)) a)
        (store_sums w0 (column_words pt n mem w0 nw)) nw 0 nw sum (omega arith)
        (λ i a lo hi before. store-IsFilledTo w0 nw i a hi before)
        (subst (λ (m : ℕ). IsFilledTo m sum) start filled)
    where
      start : 2 * w0 ≡ 2 * (w0 + 0)
      start = omega arith

  -- What the groups before g have filled.
  IsFilledBy : ℕ → (ℕ → ℕ) → Type 0
  IsFilledBy g sum = (q : ℕ) → q < 8 * g → q < n → sum q ≡ total (cell q) n

  group-IsFilledBy :
      (g : ℕ) (sum : ℕ → ℕ)
      → n % 2 ≡ 0
      → g < (n / 2 + 3) / 4
      → IsFilledBy g sum
      → IsFilledBy (suc g) (sums_group pt n mem (4 * g) sum)
  unfolding IsFilledBy IsFilledTo
  group-IsFilledBy g sum even h before q hq hn =
      sums_group-IsFilledTo (4 * g) sum (λ p hp. before p (omega arith) (omega arith)) q
        (ground arith)

  -- For an even number n <= 2^16 of queries and a memory of halfwords: attn_softmax_accel_sums leaves
  -- for every query the sum of its column of P^T, although two queries share each 32-bit sum T.
  pub accel_sums-total :
      (sum : ℕ → ℕ) (q : ℕ)
      → n % 2 ≡ 0
      → q < n
      → accel_sums pt n mem sum q ≡ total (λ key. mem (pt + key * padded n + q)) n
  unfolding accel_sums IsFilledBy
  accel_sums-total sum q even hq =
      for_range_inv IsFilledBy (λ g. sums_group pt n mem (4 * g)) ((n / 2 + 3) / 4) 0
        ((n / 2 + 3) / 4) sum (omega arith)
        (λ g a lo hi before. group-IsFilledBy g a even hi before) (λ q h. absurd (omega arith)) q
        (omega arith) hq
