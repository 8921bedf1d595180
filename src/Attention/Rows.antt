-- ===== src/Attention/Rows.antt =====
-- The rows of probabilities that attn_softmax leaves.
use risc_v_vi_t_accelerator.Base.{
  not_ltb, if-true, if-false, ℕ, zero, suc, ◌+◌, ◌-◌, ◌*◌, ◌^◌, ◌≤◌, ◌<◌, ◌≡◌, refl, sym, ◌∙◌, ap,
  arith, true, false, ltb, leb, ◌&&◌, for_range_inv,
}
use native.Mathlib.Decide.{dec_le}
use native.Mathlib.Nat.{mul-le-mul_right}
use risc_v_vi_t_accelerator.Xf.{Scale}
use risc_v_vi_t_accelerator.Copy.Memory.{Halfwords}
use risc_v_vi_t_accelerator.Attention.Softmax.{
  Consts, Table, Scores, score, smax_of, distance, padded, inverse, norm_p, softmax_row,
  softmax_consts, attn_softmax, exp2_tab_init,
}
use risc_v_vi_t_accelerator.Attention.Cutoff.{softmax_consts-pos}
use risc_v_vi_t_accelerator.Attention.Row.{total, softmax_p-le}
use risc_v_vi_t_accelerator.Attention.Normalise.{
  with_padding, norm-total, norm_p-le, inverse_bounds, norm_p-zero,
}
use risc_v_vi_t_accelerator.Attention.Probabilities.{
  prob, value, softmax_row-Holds, exp2_tab_init-first, Known, total_bounds,
}

-- A normalised row: n probabilities of at most 2^15 - 1 that add up to 2^15 within their rounding,
-- and zeros from n on.
pub record IsNormalised (n width : ℕ) (f : ℕ → ℕ) : Type 0 where
  pub limit : (m : ℕ) → m < width → f m ≤ 32_767
  pub zeros : (m : ℕ) → n ≤ m → m < width → f m ≡ 0
  pub at_least : 2 ^ 15 ≤ total f n + 2 * n
  pub at_most : total f n ≤ 2 ^ 15 + n

total_ext : (f g : ℕ → ℕ) (n : ℕ) → ((m : ℕ) → m < n → f m ≡ g m) → total f n ≡ total g n
unfolding total
total_ext f g zero same = refl
total_ext f g (suc n) same =
    omega (arith, total_ext f g n (λ m h. same m (omega arith)), same n (omega arith))

IsNormalised-ext :
    (n width : ℕ) (f g : ℕ → ℕ)
    → ((m : ℕ) → m < width → g m ≡ f m)
    → n ≤ width
    → IsNormalised n width f
    → IsNormalised n width g
IsNormalised-ext n width f g same within r =
    let sums = total_ext g f n (λ m h. same m (omega arith)) in
    record {
      limit = λ m h. omega (arith, same m h, r.limit m h);
      zeros = λ m past h. same m h ∙ r.zeros m past h;
      at_least = omega (arith, sums, r.at_least);
      at_most = omega (arith, sums, r.at_most);
    }

value-IsNormalised :
    (sc : Scores) (n t : ℕ) (k : Consts) (e : Table)
    → 0 < n
    → n ≤ 2 ^ 16
    → Known sc n t
    → 0 < k.cutoff
    → e 0 ≡ 32_768
    → (inverse (total (prob sc n t k e) n) ≤ 65_538) × IsNormalised n (padded n) (value sc n t k e)
value-IsNormalised sc n t k e more few known cut first =
    let sum = total (prob sc n t k e) n in
    let small = λ (m : ℕ).
      softmax_p-le (distance (smax_of sc n t) (score sc n t m)) k.cutoff k.j k.factor e in
    let (lo, hi) = total_bounds sc n t k e more few known cut first in
    let (fits, above, below) = inverse_bounds sum lo (omega arith) in
    let (upper, lower) = norm-total (inverse sum) fits (prob sc n t k e) n small in
    let same =
      total_ext (value sc n t k e) (λ m. norm_p (inverse sum) (prob sc n t k e m)) n
        (λ m h. ground arith) in
    (
      fits,
      record {
        limit = λ m h.
            norm_p-le (inverse sum) fits (with_padding n (prob sc n t k e) m)
              (ground (arith, small m));
        zeros = λ m past h. rw (not_ltb m n past) (norm_p-zero (inverse sum));
        at_least = omega (arith, same, upper, lower, above, below, hi);
        at_most = omega (arith, same, upper, lower, above, below, hi);
      },
    )

in_row : (pr width x : ℕ) → pr ≤ x → x < pr + width → (leb pr x && ltb x (pr + width)) ≡ true
in_row pr width x lo hi = ground arith

below_row : (pr width x : ℕ) → x < pr → (leb pr x && ltb x (pr + width)) ≡ false
below_row pr width x h = ground arith

-- The rows that are done after t queries.
rows-Hold :
    (scale : Scale) (q_sh : ℕ) (sc : Scores) (n : ℕ) (e : Table) (p16 : ℕ) (mem : Halfwords)
    → n ≤ 2 ^ 16
    → ((t : ℕ) → t < n → inverse (total (prob sc n t (softmax_consts scale q_sh) e) n) ≤ 65_538)
    → (t : ℕ) (m : ℕ) → t < n
    → m < padded n
    → attn_softmax scale q_sh sc n e p16 mem (p16 + t * padded n + m)
      ≡ value sc n t (softmax_consts scale q_sh) e m
unfolding attn_softmax
rows-Hold scale q_sh sc n e p16 mem few fits t m ht hm =
    for_range_inv
      (λ done (b : Halfwords).
        (i j : ℕ) → i < done → j < padded n → b (p16 + i * padded n + j) ≡ value sc n i k e j)
      (λ i. softmax_row sc n i k e (p16 + i * padded n)) n 0 n mem (omega arith)
      (λ i b lo hi before. next i b hi before) (λ i j h. absurd (omega arith)) t m ht hm
  where
    k : Consts
    k = softmax_consts scale q_sh

    next :
        (i : ℕ) (b : Halfwords)
        → i < n
        → ((a j : ℕ) → a < i → j < padded n → b (p16 + a * padded n + j) ≡ value sc n a k e j)
        → (a j : ℕ) → a < suc i
        → j < padded n
        → softmax_row sc n i k e (p16 + i * padded n) b (p16 + a * padded n + j)
          ≡ value sc n a k e j
    next i b hi before a j ha hj =
        let width = padded n in
        let row =
          softmax_row-Holds sc n i k e (p16 + i * width) b few (fits i hi) (p16 + a * width + j) in
        elim (dec_le (suc a) i) [
          | yes earlier ↦
              let apart : suc a * width ≤ i * width = mul-le-mul_right width earlier in
              row
              ∙ if-false _ _ _
                  (below_row (p16 + i * width) width (p16 + a * width + j) (omega arith))
              ∙ before a j earlier hj
          | no this ↦
              let same : a ≡ i = omega arith in
              let place : a * width ≡ i * width = ap (λ (c : ℕ). c * width) same in
              row
              ∙ if-true _ _ _
                  (in_row (p16 + i * width) width (p16 + a * width + j) (omega arith) (omega arith))
              ∙ ap (value sc n i k e) {x = p16 + a * width + j - (p16 + i * width)} {y = j}
                  (omega arith)
              ∙ ap (λ c. value sc n c k e j) (sym same)
        ]

-- With int32 scores, or statistics that hold a score of each row, 1 to 2^16 tokens, and a table that
-- exp2_tab_init has filled: attn_softmax leaves a normalised row for every query. Each probability is
-- at most 2^15 - 1, the n of them add up to 2^15 - 2 n at least and 2^15 + n at most, and the padding
-- is 0.
pub attn_softmax-IsNormalised :
    (scale : Scale) (q_sh : ℕ) (sc : Scores) (n : ℕ) (tab : Table) (p16 : ℕ) (mem : Halfwords)
    → 0 < n
    → n ≤ 2 ^ 16
    → ((t : ℕ) → t < n → Known sc n t)
    → tab 0 ≡ 0
    → (t : ℕ) → t < n
    → IsNormalised n
        (padded n)
        (λ m. attn_softmax scale q_sh sc n (exp2_tab_init tab) p16 mem (p16 + t * padded n + m))
attn_softmax-IsNormalised scale q_sh sc n tab p16 mem more few known fresh t ht =
    let k = softmax_consts scale q_sh in
    let e = exp2_tab_init tab in
    let rows = λ (i : ℕ) (h : i < n).
      value-IsNormalised sc n i k e more few (known i h) (softmax_consts-pos scale q_sh)
        (exp2_tab_init-first tab fresh) in
    IsNormalised-ext n (padded n) (value sc n t k e)
      (λ m. attn_softmax scale q_sh sc n e p16 mem (p16 + t * padded n + m))
      (λ m h. rows-Hold scale q_sh sc n e p16 mem few (λ i hi. (rows i hi).0) t m ht h)
      (omega arith) (rows t ht).1
