-- ===== src/Xf/Positive.antt =====
-- Scales that stand for positive numbers stay positive.
use risc_v_vi_t_accelerator.Base.{
  ℕ, ◌+◌, ◌*◌, ◌/◌, ◌^◌, ◌≤◌, ◌<◌, ◌≡◌, ◌≢◌, ap, arith, Bool, true, false, if◌then◌else◌, not_ltb,
  u32, ℤ, pos, pos_part, neg_part, mag, ◌+ℤ◌, ◌-ℤ◌, ◌*ℤ◌, ltb, negsuc, eqb_ℤ, signed32, neg_ℤ,
  *ℤ_pos, ◌||◌, mag-*ℤ, zero, suc, ltb_ℤ,
}
use native.Mathlib.Decide.{dec_le}
use native.Mathlib.Nat.{div-le_self, div-add-mod, mod-lt}
use risc_v_vi_t_accelerator.Xf.{
  xf_zero, norm_parts, magnitude64, clz64, to_mult, Scale, norm, mul, recip, div, round, with_sign,
  from_int,
}
use risc_v_vi_t_accelerator.Xf.Norm.{IsRounded, norm-IsRounded, mul-IsRounded}

-- A positive mantissa of at most 31 bits.
abbrev pub IsPositive : Scale → Type 0
IsPositive a = (0 < pos_part a.m) × (pos_part a.m < 2 ^ 31)

IsPositive-of_sign : (n v sh : ℤ) (s : Scale) → 0 < pos_part v → IsRounded v sh s → IsPositive s
IsPositive-of_sign n v sh s h r = ground (arith, r.sign, r.normal)

nonzero : (v : ℤ) → 0 < pos_part v → v ≢ pos 0
nonzero v h e = absurd (omega (arith, ap (λ (z : ℤ). pos_part z) e))

pub norm-IsPositive : (v sh : ℤ) → 0 < pos_part v → mag v ≤ 2 ^ 63 → IsPositive (norm v sh)
norm-IsPositive v sh h small =
    IsPositive-of_sign v v sh (norm v sh) h (norm-IsRounded v sh (nonzero v h) small)

product : (a b : ℤ) → 0 < pos_part a → 0 < pos_part b → 0 < pos_part (a *ℤ b)
unfolding ◌*ℤ◌
product (pos n) (pos m) ha hb = grind arith
product (pos n) (negsuc m) ha hb = absurd (omega arith)
product (negsuc n) b ha hb = absurd (omega arith)

pub mul-IsPositive : (a b : Scale) → IsPositive a → IsPositive b → IsPositive (mul a b)
mul-IsPositive a b ha hb =
    IsPositive-of_sign (a.m *ℤ b.m) (a.m *ℤ b.m) (a.sh +ℤ b.sh) (mul a b)
      (product a.m b.m ha.0 hb.0)
      (mul-IsRounded a b (nonzero a.m ha.0) (nonzero b.m hb.0) (ground arith) (ground arith))

signed_mag : (v : ℤ) (r : ℕ) → mag (with_sign v (signed32 (u32 r))) ≤ 2 ^ 31
unfolding neg_ℤ
signed_mag (pos n) r = ground arith
signed_mag (negsuc n) r = ground arith

zero_or : (b : Bool) (s : Scale) → mag s.m ≤ 2 ^ 31 → mag (if b then xf_zero else s).m ≤ 2 ^ 31
zero_or true s h = omega arith
zero_or false s h = h

norm-mag : (v sh : ℤ) → mag (norm v sh).m ≤ 2 ^ 31
unfolding norm
norm-mag v sh =
    let parts = norm_parts (magnitude64 v) (clz64 (magnitude64 v)) in
    zero_or (eqb_ℤ v (pos 0))
      (record { m = with_sign v (signed32 (u32 parts.0)); sh = sh -ℤ parts.1 })
      (signed_mag v parts.0)

-- The mantissa of a product has at most 31 bits and a sign.
pub mul-mag : (a b : Scale) → mag (mul a b).m ≤ 2 ^ 31
unfolding mul
mul-mag a b =
    zero_or (eqb_ℤ a.m (pos 0) || eqb_ℤ b.m (pos 0)) (norm (a.m *ℤ b.m) (a.sh +ℤ b.sh))
      (norm-mag (a.m *ℤ b.m) (a.sh +ℤ b.sh))

pub recip-IsPositive : (a : Scale) → 0 < pos_part a.m → pos_part a.m ≤ 2 ^ 31 → IsPositive (recip a)
unfolding recip
recip-IsPositive a h small = rw (not_ltb (pos_part a.m + 0) (0 + neg_part a.m) (ground arith)) (
    norm-IsPositive (pos (A / n)) (pos 61 -ℤ a.sh) some_part (omega (arith, size, div-le_self A n)))
  where
    n : ℕ
    n = mag a.m

    A : ℕ
    A = 2 ^ 61 + n / 2

    size : n ≤ 2 ^ 31
    size = ground arith

    some_part : 0 < A / n
    some_part = elim (dec_le 1 (A / n)) [
      | yes p ↦ p
      | no p ↦
          let none : n * (A / n) ≡ n * 0 =
            ap (λ (t : ℕ). n * t) {x = A / n} {y = 0} (omega arith) in
          absurd
            (omega (arith, div-add-mod A n, mod-lt A {m = n} (omega (arith, size)), none, size))
    ]

round_at : (m sh k : ℤ) → 0 < pos_part m → neg_part (round (record { m = m; sh = sh }) k) ≡ 0
unfolding round
round_at (pos n) sh k h = ground (
  arith,
  (*ℤ_pos (pos n) (2 ^ (if ltb 32 (neg_part (sh -ℤ k)) then 32 else neg_part (sh -ℤ k)))).1,
)
round_at (negsuc n) sh k h = absurd (omega arith)

pub round-nonneg : (a : Scale) (k : ℤ) → 0 < pos_part a.m → neg_part (round a k) ≡ 0
round-nonneg a k h = round_at a.m a.sh k h

pub div-IsPositive :
    (a b : Scale) → IsPositive a → 0 < pos_part b.m → pos_part b.m ≤ 2 ^ 31 → IsPositive (div a b)
unfolding div
div-IsPositive a b ha hb small = mul-IsPositive a (recip b) ha (recip-IsPositive b hb small)

pub from_int-IsPositive : (v : ℤ) → 0 < pos_part v → mag v ≤ 2 ^ 63 → IsPositive (from_int v)
unfolding from_int
from_int-IsPositive v h small = norm-IsPositive v (pos 0) h small

norm-small : (v sh : ℤ) → mag v ≤ 2 ^ 63 → mag (norm v sh).m < 2 ^ 31
norm-small (pos zero) sh h = unfold norm in omega arith
norm-small (pos (suc n)) sh h =
    (norm-IsRounded (pos (suc n)) sh (nonzero (pos (suc n)) (omega arith)) h).normal.1
norm-small (negsuc n) sh h =
    (norm-IsRounded (negsuc n) sh (λ e. absurd (omega (arith, ap (λ (z : ℤ). neg_part z) e)))
      h).normal.1

-- A product's mantissa is below 2^31.
pub mul-small : (a b : Scale) → mag a.m < 2 ^ 31 → mag b.m < 2 ^ 31 → mag (mul a b).m < 2 ^ 31
unfolding mul
mul-small a b ha hb =
    let size : mag (a.m *ℤ b.m) ≤ 2 ^ 63 = rw (mag-*ℤ a.m b.m) (grind arith) in
    chosen (eqb_ℤ a.m (pos 0) || eqb_ℤ b.m (pos 0)) (norm (a.m *ℤ b.m) (a.sh +ℤ b.sh))
      (norm-small (a.m *ℤ b.m) (a.sh +ℤ b.sh) size)
  where
    chosen : (c : Bool) (s : Scale) → mag s.m < 2 ^ 31 → mag (if c then xf_zero else s).m < 2 ^ 31
    chosen true s h = omega arith
    chosen false s h = h

-- So is a reciprocal's.
neg-small : (m : ℤ) → mag m < 2 ^ 31 → mag (neg_ℤ m) < 2 ^ 31
unfolding neg_ℤ
neg-small (pos n) h = ground arith
neg-small (negsuc n) h = ground arith

pub recip-small : (a : Scale) → mag a.m ≤ 2 ^ 31 → mag (recip a).m < 2 ^ 31
unfolding recip
recip-small a h =
    let x = mag a.m in
    let size : (2 ^ 61 + x / 2) / x ≤ 2 ^ 63 =
      omega (arith, div-le_self (2 ^ 61 + x / 2) x, div-le_self x 2) in
    let r = norm (pos ((2 ^ 61 + x / 2) / x)) (pos 61 -ℤ a.sh) in
    signed (ltb_ℤ a.m (pos 0)) r.m
      (norm-small (pos ((2 ^ 61 + x / 2) / x)) (pos 61 -ℤ a.sh) (omega arith))
  where
    signed : (c : Bool) (m : ℤ) → mag m < 2 ^ 31 → mag (if c then neg_ℤ m else m) < 2 ^ 31
    signed true m h = neg-small m h
    signed false m h = h

-- A multiplier is not negative and below 2^31.
pub to_mult_bounds :
    (a : Scale)
    → mag a.m < 2 ^ 31
    → ((to_mult a).0 ≡ pos (pos_part (to_mult a).0)) × (pos_part (to_mult a).0 < 2 ^ 31)
unfolding to_mult
to_mult_bounds a h = ground arith
