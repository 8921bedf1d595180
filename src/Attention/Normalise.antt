-- ===== src/Attention/Normalise.antt =====
-- The normalisation of a row in attn_softmax: the padding, the words, and the row's new sum.
use risc_v_vi_t_accelerator.Base.{
  ℕ, zero, suc, ◌+◌, ◌*◌, ◌/◌, ◌%◌, ◌^◌, ◌≤◌, ◌<◌, ◌≡◌, refl, ◌∙◌, arith, ltb, if◌then◌else◌, u32,
  for_range, for_range_inv,
}
use native.Mathlib.Decide.{dec_le}
use native.Mathlib.Nat.{zero-mul, mul-le-mul_right, mul-le-mul_left, div-add-mod, mod-lt}
use risc_v_vi_t_accelerator.Copy.Memory.{Halfwords, store16, load32}
use risc_v_vi_t_accelerator.Attention.Softmax.{inverse, norm_p, norm_step}
use risc_v_vi_t_accelerator.Attention.Row.{total, Holds, pair-cell}

-- The row with zeros from n on.
abbrev pub with_padding : ℕ → (ℕ → ℕ) → ℕ → ℕ
with_padding n p m = if ltb m n then p m else 0

pub padding-Holds :
    (pr n k : ℕ) (p : ℕ → ℕ) (mem mem1 : Halfwords)
    → Holds pr p n mem mem1
    → Holds pr
        (with_padding n p)
        (n + k)
        mem
        (for_range k n (λ m. λ (b : Halfwords). store16 b (pr + m) 0) mem1)
padding-Holds pr n k p mem mem1 h =
    for_range_inv (λ m (b : Halfwords). Holds pr (with_padding n p) m mem b)
      (λ m. λ (b : Halfwords). store16 b (pr + m) 0) k n (n + k) mem1 refl
      (λ m b lo hi before j. ground (arith, before j)) (λ j. ground (arith, h j))

module _ (inv : ℕ) (fits : inv ≤ 65_538) where
  norm_p_sum : (p : ℕ) → p ≤ 32_767 → u32 (p * inv + 32_768) ≡ p * inv + 32_768
  norm_p_sum p h = omega (arith, mul-le-mul_right inv h, fits)

  pub norm_p-le : (p : ℕ) → p ≤ 32_767 → norm_p inv p ≤ 32_767
  unfolding norm_p
  norm_p-le p h = rw (norm_p_sum p h) (omega (arith, mul-le-mul_right inv h, fits))

  -- Rounding and the limit change the scaled value by at most one and a half units.
  pub norm_p_bounds :
      (p : ℕ)
      → p ≤ 32_767
      → (norm_p inv p * 2 ^ 16 ≤ p * inv + 2 ^ 15)
        × (p * inv ≤ norm_p inv p * 2 ^ 16 + (2 ^ 15 + 2 ^ 16))
  unfolding norm_p
  norm_p_bounds p h =
      rw (norm_p_sum p h)
        (omega (arith, mul-le-mul_right inv h, fits), omega (arith, mul-le-mul_right inv h, fits))

  -- The sum of a normalised row, from the sum of the row.
  pub norm-total :
      (p : ℕ → ℕ) (n : ℕ)
      → ((m : ℕ) → p m ≤ 32_767)
      → (total (λ m. norm_p inv (p m)) n * 2 ^ 16 ≤ total p n * inv + n * 2 ^ 15)
        × (total p n * inv ≤ total (λ m. norm_p inv (p m)) n * 2 ^ 16 + n * (2 ^ 15 + 2 ^ 16))
  unfolding total
  norm-total p zero small = (omega arith, omega arith)
  norm-total p (suc n) small = (
    omega (arith, norm-total p n small, norm_p_bounds (p n) (small n)),
    omega (arith, norm-total p n small, norm_p_bounds (p n) (small n)),
  )

  norm_step-Holds :
      (pr K i : ℕ) (f : ℕ → ℕ) (mem0 mem b : Halfwords)
      → ((m : ℕ) → f m ≤ 32_767)
      → 2 * suc i ≤ K
      → Holds pr f K mem0 mem
      → Holds pr (λ m. norm_p inv (f m)) (2 * i) mem b
      → Holds pr (λ m. norm_p inv (f m)) (2 * suc i) mem (norm_step pr inv i b)
  unfolding norm_step
  norm_step-Holds pr K i f mem0 mem b small inside whole before j =
      rw (lows, highs)
        (pair-cell (pr + 2 * i) (norm_p inv (f (2 * i))) (norm_p inv (f (2 * i + 1))) b j
            (omega (arith, norm_p-le (f (2 * i)) (small (2 * i))))
            (omega (arith, norm_p-le (f (2 * i + 1)) (small (2 * i + 1))))
          ∙ ground (arith, before j))
    where
      low : b (pr + 2 * i) ≡ f (2 * i)
      low = ground (arith, before (pr + 2 * i), whole (pr + 2 * i))

      high : b (pr + 2 * i + 1) ≡ f (2 * i + 1)
      high = ground (arith, before (pr + 2 * i + 1), whole (pr + 2 * i + 1))

      lows : load32 b (pr + 2 * i) % 2 ^ 16 ≡ f (2 * i)
      lows = omega (arith, low, small (2 * i))

      highs : load32 b (pr + 2 * i) / 2 ^ 16 ≡ f (2 * i + 1)
      highs = omega (arith, low, high, small (2 * i))

  pub norm-Holds :
      (pr n : ℕ) (f : ℕ → ℕ) (mem0 mem : Halfwords)
      → ((m : ℕ) → f m ≤ 32_767)
      → Holds pr f (2 * n) mem0 mem
      → Holds pr (λ m. norm_p inv (f m)) (2 * n) mem0 (for_range n 0 (norm_step pr inv) mem)
  norm-Holds pr n f mem0 mem small whole j =
      for_range_inv (λ i (b : Halfwords). Holds pr (λ m. norm_p inv (f m)) (2 * i) mem b)
        (norm_step pr inv) n 0 n mem (omega arith)
        (λ i b lo hi. norm_step-Holds pr (2 * n) i f mem0 mem b small (omega arith) whole)
        (λ k. ground arith) j
      ∙ ground (arith, whole j)

pub norm_p-zero : (inv : ℕ) → norm_p inv 0 ≡ 0
unfolding norm_p
norm_p-zero inv = rw (zero-mul inv) refl

pub inverse_bounds :
    (sum : ℕ)
    → 32_767 ≤ sum
    → sum < 2 ^ 31
    → (inverse sum ≤ 65_538)
      × (sum * inverse sum ≤ 2 ^ 31 + sum / 2)
      × (2 ^ 31 + sum / 2 < sum * inverse sum + sum)
unfolding inverse
inverse_bounds sum lo hi = rw whole (
  elim (dec_le (A / sum) 65_538) [
    | yes h ↦ h
    | no h ↦
        let more : sum * 65_539 ≤ sum * (A / sum) = mul-le-mul_left sum (omega arith) in
        absurd (omega (arith, parts))
  ],
  omega (arith, parts),
  omega (arith, parts, mod-lt A {m = sum} (omega arith)),
)
  where
    A : ℕ
    A = 2 ^ 31 + sum / 2

    whole : u32 (0x8000_0000 + sum / 2) ≡ A
    whole = omega arith

    parts : sum * (A / sum) + A % sum ≡ A
    parts = div-add-mod A sum
