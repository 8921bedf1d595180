-- ===== src/Xf/Norm.antt =====
-- The normalisation of a scale: the mantissa's range and the rounding.
use risc_v_vi_t_accelerator.Base.{
  ℕ, zero, suc, ◌+◌, ◌-◌, ◌*◌, ◌/◌, ◌^◌, ◌≤◌, ◌<◌, ◌≡◌, ◌≢◌, refl, ap, arith, Bool-cases, inl, inr,
  false, ltb, ◌==◌, u32, u64, pow_split, pow_pos, pow_add, pow_mono, ℤ, pos, negsuc, pos_part,
  neg_part, mag, ◌+ℤ◌, ◌*ℤ◌, mag-*ℤ, neg_ℤ, ◌-ℤ◌, -ℤ_parts, eq_of_parts, ltb_ℤ, eqb_ℤ, mod_ℤ,
  signed32,
}
use native.Mathlib.Nat.{
  div-add-mod, mod-lt, div-lt_iff_lt-mul, le-div_iff_mul-le, mul-le-mul_right,
  lt_of_mul-lt-mul_right, le_of_mul-le-mul_right,
}
use risc_v_vi_t_accelerator.Xf.{mul, Scale, norm_parts, norm, clz64, magnitude64, with_sign}
use risc_v_vi_t_accelerator.Xf.Leading.{clz64-top}

-- r 2^s is a to half a unit of the last place, where s may be negative.
pub record IsNear (a r : ℕ) (s : ℤ) : Type 0 where
  pub not_above : 2 * (r * 2 ^ pos_part s) ≤ 2 * (a * 2 ^ neg_part s) + 2 ^ pos_part s
  pub not_below : 2 * (a * 2 ^ neg_part s) ≤ 2 * (r * 2 ^ pos_part s) + 2 ^ pos_part s

neg_pos-parts : (j : ℕ) → (pos_part (neg_ℤ (pos j)) ≡ 0) × (neg_part (neg_ℤ (pos j)) ≡ j)
unfolding neg_ℤ
neg_pos-parts j = (ground arith, ground arith)

IsNear-left : (a j : ℕ) → IsNear a (a * 2 ^ j) (neg_ℤ (pos j))
IsNear-left a j =
    let parts = neg_pos-parts j in
    record {
      not_above = rw (parts.0, parts.1) (omega arith);
      not_below = rw (parts.0, parts.1) (omega arith);
    }

-- The quotient by 2^k rounded to nearest, of a number of k + 31 bits.
round_half :
    (a k : ℕ)
    → 0 < k
    → 2 ^ 30 * 2 ^ k ≤ a
    → a < 2 ^ 31 * 2 ^ k
    → let q = (a + 2 ^ (k - 1)) / 2 ^ k in
      (2 ^ 30 ≤ q)
      × (q ≤ 2 ^ 31)
      × (2 * (q * 2 ^ k) ≤ 2 * a + 2 ^ k)
      × (2 * a ≤ 2 * (q * 2 ^ k) + 2 ^ k)
round_half a k hk low high =
    let half = pow_split 1 k hk in
    let parts = div-add-mod (a + 2 ^ (k - 1)) (2 ^ k) in
    let rest = mod-lt (a + 2 ^ (k - 1)) (pow_pos k) in
    let least =
      (le-div_iff_mul-le {x = 2 ^ 30} {y = a + 2 ^ (k - 1)} (pow_pos k)).1 (omega arith) in
    let most =
      (div-lt_iff_lt-mul {x = a + 2 ^ (k - 1)} {y = 2 ^ 31 + 1} (pow_pos k)).1 (omega arith) in
    (least, omega arith, omega arith, omega arith)

-- What norm_parts returns, for the magnitude of an int64_t.
norm_parts-IsNear :
    (a c : ℕ)
    → a ≤ 2 ^ 63
    → 2 ^ 63 ≤ a * 2 ^ c
    → a * 2 ^ c < 2 ^ 64
    → (2 ^ 30 ≤ (norm_parts a c).0)
      × ((norm_parts a c).0 < 2 ^ 31)
      × IsNear a (norm_parts a c).0 (norm_parts a c).1
unfolding norm_parts
norm_parts-IsNear a c ha low high = elim (Bool-cases (ltb c 33)) [
  | inl wide ↦
      let split = pow_split c 33 (ground arith) in
      let least : 2 ^ 30 * 2 ^ (33 - c) ≤ a =
        le_of_mul-le-mul_right {k = 2 ^ c} (omega arith) (pow_pos c) in
      let most : a < 2 ^ 31 * 2 ^ (33 - c) = lt_of_mul-lt-mul_right (2 ^ c) (omega arith) in
      let room = pow_mono (33 - c - 1) 32 (omega arith) in
      let exact : u64 (a + 2 ^ (33 - c - 1)) ≡ a + 2 ^ (33 - c - 1) = omega arith in
      let half = round_half a (33 - c) (ground arith) least most in
      elim (Bool-cases ((a + 2 ^ (33 - c - 1)) / 2 ^ (33 - c) / 2 ^ 31 == 0)) [
        | inl fits ↦
            rw (wide, exact, fits)
              (half.0, ground arith, record { not_above = omega arith; not_below = omega arith })
        | inr carry ↦
            let top : (a + 2 ^ (33 - c - 1)) / 2 ^ (33 - c) ≡ 2 ^ 31 = ground arith in
            let twice = pow_add (33 - c) 1 in
            let value = ap (λ (t : ℕ). t * 2 ^ (33 - c)) top in
            rw (wide, exact, carry, top)
              (
                omega arith,
                omega arith,
                record { not_above = omega arith; not_below = omega arith },
              )
      ]
  | inr narrow ↦
      let split = pow_split 33 c (ground arith) in
      let power = ap (λ (t : ℕ). a * t) split in
      let exact : u64 (a * 2 ^ (c - 33)) ≡ a * 2 ^ (c - 33) = omega arith in
      rw (narrow, exact) (omega arith, omega arith, IsNear-left a (c - 33))
]

-- n is v 2^-sh: a mantissa of the sign of v, normalised, and within half a unit of its last place.
pub record IsRounded (v sh : ℤ) (n : Scale) : Type 0 where
  pub sign : ltb_ℤ n.m (pos 0) ≡ ltb_ℤ v (pos 0)
  pub normal : (2 ^ 30 ≤ mag n.m) × (mag n.m < 2 ^ 31)
  pub near : IsNear (mag v) (mag n.m) (sh -ℤ n.sh)

magnitude64_lem : (v : ℤ) → mag v ≤ 2 ^ 63 → magnitude64 v ≡ mag v
unfolding mod_ℤ
magnitude64_lem (pos n) h = ground arith
magnitude64_lem (negsuc n) h = ground arith

sub_sub : (a b : ℤ) → a -ℤ (a -ℤ b) ≡ b
sub_sub a b = eq_of_parts _ _ (omega (arith, -ℤ_parts a b, -ℤ_parts a (a -ℤ b)))

signed_mantissa :
    (v : ℤ) (r : ℕ)
    → 0 < r
    → r < 2 ^ 31
    → (mag (with_sign v (signed32 (u32 r))) ≡ r)
      × (ltb_ℤ (with_sign v (signed32 (u32 r))) (pos 0) ≡ ltb_ℤ v (pos 0))
unfolding neg_ℤ
signed_mantissa (pos n) r h h' = (ground arith, ground arith)
signed_mantissa (negsuc n) r h h' = (ground arith, ground arith)

-- The fields of the result, from what norm_parts returns.
norm-finish :
    (v sh : ℤ) (r : ℕ) (s : ℤ)
    → (2 ^ 30 ≤ r) × (r < 2 ^ 31) × IsNear (mag v) r s
    → IsRounded v sh (record { m = with_sign v (signed32 (u32 r)); sh = sh -ℤ s })
norm-finish v sh r s (low, high, near) =
    let (size, sign) = signed_mantissa v r (omega arith) high in
    record { sign = sign; normal = rw size (low, high); near = rw (size, sub_sub sh s) near }

eqb_zero : (v : ℤ) → v ≢ pos 0 → eqb_ℤ v (pos 0) ≡ false
eqb_zero (pos zero) h = absurd (h refl)
eqb_zero (pos (suc n)) h = ground arith
eqb_zero (negsuc n) h = ground arith

mag-pos : (v : ℤ) → v ≢ pos 0 → 0 < mag v
mag-pos (pos zero) h = absurd (h refl)
mag-pos (pos (suc n)) h = omega arith
mag-pos (negsuc n) h = omega arith

-- For a nonzero v of at most 64 bits, the result of norm has a mantissa of 31 bits with the sign of
-- v, and its value differs from v 2^-sh by at most half a unit of the mantissa's last place; it is
-- exact when the mantissa was shifted left.
pub norm-IsRounded : (v sh : ℤ) → v ≢ pos 0 → mag v ≤ 2 ^ 63 → IsRounded v sh (norm v sh)
unfolding norm
norm-IsRounded v sh nonzero h =
    let top = clz64-top (mag v) (mag-pos v nonzero) (omega arith) in
    let parts = norm_parts-IsNear (mag v) (clz64 (mag v)) h top.0 top.1 in
    rw (eqb_zero v nonzero, magnitude64_lem v h)
      (norm-finish v sh (norm_parts (mag v) (clz64 (mag v))).0
        (norm_parts (mag v) (clz64 (mag v))).1 parts)

-- The product of two nonzero scales with 31-bit mantissas is their exact product, normalised and
-- rounded to half a unit of the last place.
pub mul-IsRounded :
    (a b : Scale)
    → a.m ≢ pos 0
    → b.m ≢ pos 0
    → mag a.m < 2 ^ 31
    → mag b.m < 2 ^ 31
    → IsRounded (a.m *ℤ b.m) (a.sh +ℤ b.sh) (mul a b)
unfolding mul
mul-IsRounded a b ha hb la lb =
    let size = mag-*ℤ a.m b.m in
    let least = mul-le-mul_right (mag b.m) (mag-pos a.m ha) in
    let small : mag b.m ≤ 2 ^ 31 = omega arith in
    let most = mul-le-mul_right {m = mag a.m} {n = 2 ^ 31} (mag b.m) (omega arith) in
    let some_b = mag-pos b.m hb in
    rw (eqb_zero a.m ha, eqb_zero b.m hb)
      (norm-IsRounded (a.m *ℤ b.m) (a.sh +ℤ b.sh)
        (λ e. let none = ap (λ (z : ℤ). mag z) e in absurd (omega arith)) (omega arith))
