-- ===== src/Fixed/Mean.antt =====
-- The row mean in Q16, computed with two 32-bit divisions.
use risc_v_vi_t_accelerator.Base.{
  ℕ, ◌+◌, ◌-◌, ◌*◌, ◌/◌, ◌%◌, ◌^◌, ◌≤◌, ◌<◌, ◌≡◌, refl, ap, ◌∙◌, arith, ℤ, pos, mag, neg_ℤ, ltb_ℤ,
  if◌then◌else◌, u32, signed32,
}
use native.Mathlib.Nat.{div-add-mod, mod-lt, add-mul-div_right, div-lt_iff_lt-mul}
use risc_v_vi_t_accelerator.Fixed.{mean_mag, mean_q16}

-- The magnitude without its wraps, for a quotient u / c below 2^15.
mean_mag_lem :
    (u c : ℕ)
    → 1 ≤ c
    → c ≤ 65_535
    → u < 2 ^ 15 * c
    → (mean_mag u c ≡ (u * 2 ^ 16 + c / 2) / c) × (mean_mag u c < 2 ^ 31)
unfolding mean_mag
mean_mag_lem u c pos_c small room =
    let parts = div-add-mod u c in
    let rest = mod-lt u pos_c in
    let quotient = (div-lt_iff_lt-mul {x = u} {y = 2 ^ 15} pos_c).1 room in
    let scaled = ap (λ (t : ℕ). t * 2 ^ 16) parts in
    let remainder : u - u / c * c ≡ u % c = omega arith in
    let whole = add-mul-div_right (u % c * 2 ^ 16 + c / 2) (u / c * 2 ^ 16) pos_c in
    let below =
      (div-lt_iff_lt-mul {x = u % c * 2 ^ 16 + c / 2} {y = 2 ^ 16} pos_c).1 (omega arith) in
    let split : (u * 2 ^ 16 + c / 2) / c ≡ (u % c * 2 ^ 16 + c / 2) / c + u / c * 2 ^ 16 =
      ap (λ (t : ℕ). t / c) {x = u * 2 ^ 16 + c / 2}
        {y = u % c * 2 ^ 16 + c / 2 + u / c * 2 ^ 16 * c} (omega arith)
      ∙ whole in
    let inner : u32 (u32 (u % c * 2 ^ 16) + c / 2) ≡ u % c * 2 ^ 16 + c / 2 = omega arith in
    rw (remainder, inner, split) (omega arith, omega arith)

-- For 1 ≤ C ≤ 65535 and |sum| < 2^15 C, mean_q16 is sum 2^16 / C rounded to nearest, halves away from
-- zero, with the sign of sum.
pub mean_q16_lem :
    (sum : ℤ) (c : ℕ)
    → 1 ≤ c
    → c ≤ 65_535
    → mag sum < 2 ^ 15 * c
    → mean_q16 sum c ≡ (
        let m = (mag sum * 2 ^ 16 + c / 2) / c in
        if ltb_ℤ sum (pos 0) then neg_ℤ (pos m) else pos m)
unfolding mean_q16
mean_q16_lem sum c pos_c small room =
    let (value, fits) = mean_mag_lem (mag sum) c pos_c small room in
    let whole : signed32 (mean_mag (mag sum) c) ≡ pos (mean_mag (mag sum) c) = ground arith in
    rw (whole, value) refl

-- The quotient's upper bits are lost: sums that differ by 2^16 C have the same result, for every C.
-- So with |sum| < 2^31 the result is a rounded mean only under a bound such as the one above.
pub mean_mag-wraps : (u c : ℕ) → 0 < c → mean_mag (u + 2 ^ 16 * c) c ≡ mean_mag u c
unfolding mean_mag
mean_mag-wraps u c pos_c =
    let quotient = add-mul-div_right u (2 ^ 16) pos_c in
    let scaled = ap (λ (t : ℕ). t * c) quotient in
    let remainder : u + 2 ^ 16 * c - (u + 2 ^ 16 * c) / c * c ≡ u - u / c * c = omega arith in
    rw (remainder, quotient) (omega arith)
