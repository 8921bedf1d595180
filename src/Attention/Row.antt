-- ===== src/Attention/Row.antt =====
-- What a row of attn_softmax writes: its probabilities, their sum, and the normalised row.
use risc_v_vi_t_accelerator.Base.{
  not_leb, ℕ, zero, suc, ◌+◌, ◌-◌, ◌*◌, ◌/◌, ◌%◌, ◌^◌, ◌≤◌, ◌<◌, ◌≡◌, refl, ◌∙◌, ap, arith, bit_or,
  bit_or_low, ltb, leb, ◌==◌, ◌&&◌, if◌then◌else◌, lt→ltb, u32, for_range, for_range_inv,
  Bool-cases, inl, inr,
}
use mathlib.Core.Path.{subst}
use native.Mathlib.Decide.{dec_le}
use native.Mathlib.Nat.{zero-div, zero-mul}
use risc_v_vi_t_accelerator.Copy.Memory.{Halfwords, store32}
use risc_v_vi_t_accelerator.Attention.Softmax.{
  Consts, Table, softmax_p, half_p, pair_step, one_step,
}

-- The sum of the first n numbers.
unfoldable pub total : (ℕ → ℕ) → ℕ → ℕ
total f zero = 0
total f (suc n) = total f n + f n

pub total_bound : (f : ℕ → ℕ) (b n : ℕ) → ((m : ℕ) → f m ≤ b) → total f n ≤ n * b
unfolding total
total_bound f b zero h = omega arith
total_bound f b (suc n) h = omega (arith, total_bound f b n h, h n)

pub total_has : (f : ℕ → ℕ) (n m : ℕ) → m < n → f m ≤ total f n
unfolding total
total_has f zero m h = absurd (omega arith)
total_has f (suc n) m h = elim (dec_le (suc m) n) [
  | yes inside ↦ omega (arith, total_has f n m inside)
  | no last ↦ omega (arith, ap f {x = m} {y = n} (omega arith))
]

pub softmax_p-le : (d cutoff j factor : ℕ) (e : Table) → softmax_p d cutoff j factor e ≤ 32_767
unfolding softmax_p
softmax_p-le d cutoff j factor e = ground arith

-- At the largest score the probability is the largest one.
pub softmax_p-zero :
    (cutoff j factor : ℕ) (e : Table)
    → 0 < cutoff
    → e 0 ≡ 32_768
    → softmax_p 0 cutoff j factor e ≡ 32_767
unfolding softmax_p
softmax_p-zero cutoff j factor e h first = rw (zero-div (2 ^ j), zero-mul factor) (ground arith)

-- The exponent in Q16, and its upper bits.
half_body :
    (x : ℕ) (e : Table)
    → let p =
        if leb (16 * 2 ^ 16) (x / 2 ^ 11)
        then 0
        else e (x / 2 ^ 11 / 2 ^ 6 % 2 ^ 10) / 2 ^ (x / 2 ^ 11 / 2 ^ 16) in
      let u = x / 2 ^ 17 in
      let p' = e (u % 2 ^ 10) / 2 ^ (u / 2 ^ 10) in
      (if ltb 32_767 p then 32_767 else p)
      ≡ (if leb (16 * 2 ^ 10) u then 0 else if ltb 32_767 p' then 32_767 else p')
half_body x e =
    rw
      (
        ap (λ (i : ℕ). e i) {x = x / 2 ^ 11 / 2 ^ 6 % 2 ^ 10} {y = x / 2 ^ 17 % 2 ^ 10}
            (omega arith),
        ap (λ (i : ℕ). 2 ^ i) {x = x / 2 ^ 11 / 2 ^ 16} {y = x / 2 ^ 17 / 2 ^ 10} (omega arith),
      )
      (ground arith)

-- The two loops find the same probabilities.
pub half_p-softmax_p :
    (d : ℕ) (k : Consts) (e : Table) → half_p d k e ≡ softmax_p d k.cutoff k.j k.factor e
unfolding half_p softmax_p
half_p-softmax_p d k e = elim (dec_le (suc d) k.cutoff) [
  | yes near ↦
      rw (lt→ltb d k.cutoff near, not_leb k.cutoff d near)
        (half_body (u32 (d / 2 ^ k.j * k.factor)) e)
  | no far ↦ ground arith
]

-- The n cells from pr on hold f, all others what mem holds.
abbrev pub Holds : ℕ → (ℕ → ℕ) → ℕ → Halfwords → Halfwords → Type 0
Holds pr f n mem out = (j : ℕ) → out j ≡ (if leb pr j && ltb j (pr + n) then f (j - pr) else mem j)

pub pair-cell :
    (pr a b : ℕ) (mem : Halfwords) (j : ℕ)
    → a < 2 ^ 16
    → b < 2 ^ 16
    → store32 mem pr (bit_or a (u32 (b * 2 ^ 16))) j
      ≡ (if j == pr then a else if j == pr + 1 then b else mem j)
pair-cell pr a b mem j ha hb =
    let low = bit_or_low 16 b a ha in
    rw (ap (λ (t : ℕ). bit_or a t) {x = u32 (b * 2 ^ 16)} {y = b * 2 ^ 16} (omega arith), low)
      (ground arith)

total_two : (p : ℕ → ℕ) (i : ℕ) → total p (2 * suc i) ≡ total p (2 * i) + p (2 * i) + p (2 * i + 1)
unfolding total
total_two p i =
    ap (total p) {x = 2 * suc i} {y = suc (suc (2 * i))} (omega arith)
    ∙ ap (λ (k : ℕ). total p (2 * i) + p (2 * i) + p k) {x = suc (2 * i)} {y = 2 * i + 1}
        (omega arith)

-- A round writes two more cells.
pair_step-Holds :
    (pr i : ℕ) (p : ℕ → ℕ) (mem : Halfwords) (s : Halfwords × ℕ)
    → ((m : ℕ) → p m ≤ 32_767)
    → i < 2 ^ 15
    → Holds pr p (2 * i) mem s.0 × (s.1 ≡ total p (2 * i))
    → Holds pr p (2 * suc i) mem (pair_step pr p i s).0
      × ((pair_step pr p i s).1 ≡ total p (2 * suc i))
unfolding pair_step
pair_step-Holds pr i p mem s small few (h, t) = (
  λ j.
      pair-cell (pr + 2 * i) (p (2 * i)) (p (2 * i + 1)) s.0 j (omega (arith, small (2 * i)))
        (omega (arith, small (2 * i + 1)))
      ∙ ground (arith, h j),
  omega (
    arith,
    t,
    total_two p i,
    small (2 * i),
    small (2 * i + 1),
    total_bound p 32_767 (2 * i) small,
  ),
)

one_step-Holds :
    (pr m : ℕ) (p : ℕ → ℕ) (mem : Halfwords) (s : Halfwords × ℕ)
    → ((i : ℕ) → p i ≤ 32_767)
    → m < 2 ^ 16
    → Holds pr p m mem s.0 × (s.1 ≡ total p m)
    → Holds pr p (suc m) mem (one_step pr p m s).0 × ((one_step pr p m s).1 ≡ total p (suc m))
unfolding one_step total
one_step-Holds pr m p mem s small few (h, t) =
    (λ j. ground (arith, h j, small m), omega (arith, t, small m, total_bound p 32_767 m small))

pub pairs-Holds :
    (pr n : ℕ) (p : ℕ → ℕ) (mem : Halfwords)
    → ((i : ℕ) → p i ≤ 32_767)
    → n ≤ 2 ^ 15
    → let s = for_range n 0 (pair_step pr p) (mem, 0) in
      Holds pr p (2 * n) mem s.0 × (s.1 ≡ total p (2 * n))
pairs-Holds pr n p mem small few =
    for_range_inv (λ i (s : Halfwords × ℕ). Holds pr p (2 * i) mem s.0 × (s.1 ≡ total p (2 * i)))
      (pair_step pr p) n 0 n (mem, 0) (omega arith)
      (λ i s lo hi. pair_step-Holds pr i p mem s small (omega arith))
      (λ j. ground arith, unfold total in refl)

pub ones-Holds :
    (pr n : ℕ) (p : ℕ → ℕ) (mem : Halfwords)
    → ((i : ℕ) → p i ≤ 32_767)
    → n ≤ 2 ^ 16
    → let s = for_range n 0 (one_step pr p) (mem, 0) in Holds pr p n mem s.0 × (s.1 ≡ total p n)
ones-Holds pr n p mem small few =
    for_range_inv (λ i (s : Halfwords × ℕ). Holds pr p i mem s.0 × (s.1 ≡ total p i))
      (one_step pr p) n 0 n (mem, 0) (omega arith)
      (λ i s lo hi. one_step-Holds pr i p mem s small (omega arith))
      (λ j. ground arith, unfold total in refl)

-- Pairs, and one more element for an odd n.
pub row-Holds :
    (pr n : ℕ) (p : ℕ → ℕ) (mem : Halfwords)
    → ((i : ℕ) → p i ≤ 32_767)
    → n ≤ 2 ^ 16
    → let r = for_range (n / 2) 0 (pair_step pr p) (mem, 0) in
      let s = if n % 2 == 1 then one_step pr p (n - 1) r else r in
      Holds pr p n mem s.0 × (s.1 ≡ total p n)
row-Holds pr n p mem small few = elim (Bool-cases (n % 2 == 1)) [
  | inl odd ↦ rw odd (
      subst
        (λ k.
          Holds pr p k mem (one_step pr p (n - 1) r).0 × ((one_step pr p (n - 1) r).1 ≡ total p k))
        {x = suc (n - 1)} {y = n} (ground arith)
        (one_step-Holds pr (n - 1) p mem r small (omega arith) (
          subst (λ k. Holds pr p k mem r.0 × (r.1 ≡ total p k)) {x = 2 * (n / 2)} {y = n - 1}
            (ground arith) pairs)))
  | inr even ↦ rw even (
      subst (λ k. Holds pr p k mem r.0 × (r.1 ≡ total p k)) {x = 2 * (n / 2)} {y = n} (ground arith)
        pairs)
]
  where
    r : Halfwords × ℕ
    r = for_range (n / 2) 0 (pair_step pr p) (mem, 0)

    pairs : Holds pr p (2 * (n / 2)) mem r.0 × (r.1 ≡ total p (2 * (n / 2)))
    pairs = pairs-Holds pr (n / 2) p mem small (omega arith)
