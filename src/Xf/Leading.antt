-- ===== src/Xf/Leading.antt =====
-- The binary search for the leading zeros.
use risc_v_vi_t_accelerator.Base.{
  ℕ, ◌+◌, ◌-◌, ◌*◌, ◌/◌, ◌^◌, ◌≤◌, ◌<◌, ◌≡◌, ap, ◌∙◌, arith, Bool-cases, inl, inr, ◌==◌,
  if◌then◌else◌, u32, pow_split, pow_pos, pow_add, pow_mono,
}
use native.Mathlib.Nat.{
  div-add-mod, div-lt_iff_lt-mul, le-div_iff_mul-le, mul-lt-mul_of_pos_right, mul-le-mul_right,
}
use native.Mathlib.Decide.{dec_le}
use risc_v_vi_t_accelerator.Xf.{clz_step, clz64}

-- A state of the search: x 2^base is the word w shifted left by n, and nothing has been lost.
record IsShifted (base w : ℕ) (r : ℕ × ℕ) : Type 0 where
  pub same : r.1 * 2 ^ base ≡ w * 2 ^ r.0
  pub fits : r.1 < 2 ^ 32

pub quotient_zero : (x d : ℕ) → 0 < d → x / d ≡ 0 → x < d
quotient_zero x d h e = omega (arith, (div-lt_iff_lt-mul {x = x} {y = 1} h).0)

pub quotient_nonzero : (x d : ℕ) → 0 < d → 0 < x / d → d ≤ x
quotient_nonzero x d h e = omega (arith, (le-div_iff_mul-le {x = 1} {y = x} h).0)

shifted_fits : (x b : ℕ) → b ≤ 32 → x < 2 ^ (32 - b) → x * 2 ^ b < 2 ^ 32
shifted_fits x b hb h = omega (arith, pow_split b 32 hb, mul-lt-mul_of_pos_right h (pow_pos b))

clz_step-IsShifted :
    (base b w : ℕ) (r : ℕ × ℕ) → b ≤ 16 → IsShifted base w r → IsShifted base w (clz_step b r)
clz_step-IsShifted base b w (n, x) hb s = elim (Bool-cases (x / 2 ^ (32 - b) == 0)) [
  | inl h ↦
      let below = quotient_zero x (2 ^ (32 - b)) (pow_pos (32 - b)) (ground arith) in
      let fits = shifted_fits x b (omega arith) below in
      let exact : u32 (x * 2 ^ b) ≡ x * 2 ^ b = omega arith in
      rw h (record {
        same = rw (exact, pow_add n b) (omega (arith, ap (λ (t : ℕ). t * 2 ^ b) s.same));
        fits = omega arith;
      })
  | inr h ↦ rw h s
]

-- A step halves the part of the word that may be 0: after it one of the top b bits is set, if one of
-- the top 2 b bits was.
clz_step-top :
    (b : ℕ) (r : ℕ × ℕ) → b ≤ 16 → 2 ^ (32 - 2 * b) ≤ r.1 → 2 ^ (32 - b) ≤ (clz_step b r).1
clz_step-top b (n, x) hb h = elim (Bool-cases (x / 2 ^ (32 - b) == 0)) [
  | inl h' ↦
      let below = quotient_zero x (2 ^ (32 - b)) (pow_pos (32 - b)) (ground arith) in
      let fits = shifted_fits x b (omega arith) below in
      let power : 2 ^ (32 - b) ≡ 2 ^ (32 - 2 * b) * 2 ^ b =
        ap (λ (t : ℕ). 2 ^ t) {x = 32 - b} {y = 32 - 2 * b + b} (omega arith)
        ∙ pow_add (32 - 2 * b) b in
      rw h' (omega (arith, mul-le-mul_right (2 ^ b) h))
  | inr h' ↦ rw h' (quotient_nonzero x (2 ^ (32 - b)) (pow_pos (32 - b)) (ground arith))
]

-- The four steps of the search.
abbrev search : ℕ × ℕ → ℕ × ℕ
search r = clz_step 2 (clz_step 4 (clz_step 8 (clz_step 16 r)))

search-IsShifted : (base w : ℕ) (r : ℕ × ℕ) → IsShifted base w r → IsShifted base w (search r)
search-IsShifted base w r s = clz_step-IsShifted base 2 w _ (omega arith) (
    clz_step-IsShifted base 4 w _ (omega arith) (
      clz_step-IsShifted base 8 w _ (omega arith) (clz_step-IsShifted base 16 w r (omega arith) s)))

search-top : (r : ℕ × ℕ) → 1 ≤ r.1 → 2 ^ 30 ≤ (search r).1
search-top r h = clz_step-top 2 _ (omega arith) (
    clz_step-top 4 _ (omega arith)
      (clz_step-top 8 _ (omega arith) (clz_step-top 16 r (omega arith) h)))

-- The shift that the search ends with: the last step tests one bit.
abbrev found : ℕ × ℕ → ℕ
found r = r.0 + (if r.1 / 2 ^ 31 == 0 then 1 else 0)

found-top :
    (base w : ℕ) (r : ℕ × ℕ)
    → IsShifted base w r
    → 2 ^ 30 ≤ r.1
    → (2 ^ 31 * 2 ^ base ≤ w * 2 ^ found r) × (w * 2 ^ found r < 2 ^ 32 * 2 ^ base)
found-top base w (n, x) s h = elim (Bool-cases (x / 2 ^ 31 == 0)) [
  | inl low ↦
      let below =
        mul-lt-mul_of_pos_right (quotient_zero x (2 ^ 31) (omega arith) (ground arith))
          (pow_pos base) in
      let above = mul-le-mul_right (2 ^ base) h in
      let power = ap (λ (t : ℕ). w * t) (pow_add n 1) in
      rw low (omega (arith, s.same), omega (arith, s.same))
  | inr high ↦
      let above =
        mul-le-mul_right (2 ^ base) (quotient_nonzero x (2 ^ 31) (omega arith) (ground arith)) in
      let below = mul-lt-mul_of_pos_right s.fits (pow_pos base) in
      let power = ap (λ (t : ℕ). w * 2 ^ t) {x = n + 0} {y = n} (omega arith) in
      rw high (omega (arith, s.same), omega (arith, s.same))
]

-- A word w of less than 32 bits below the highest loses nothing to the bits under it.
high_part :
    (a n : ℕ)
    → 0 < a / 2 ^ 32
    → a / 2 ^ 32 * 2 ^ n < 2 ^ 32
    → 2 ^ 31 ≤ a / 2 ^ 32 * 2 ^ n
    → (2 ^ 63 ≤ a * 2 ^ n) × (a * 2 ^ n < 2 ^ 64)
high_part a n pos fits top =
    let split = ap (λ (t : ℕ). t * 2 ^ n) (div-add-mod a (2 ^ 32)) in
    let room = pow_split n 32 small in
    let next = mul-le-mul_right (2 ^ n) below in
    let least : 2 ^ 32 * (a / 2 ^ 32) ≤ a = omega arith in
    let most : a < 2 ^ 32 * (a / 2 ^ 32 + 1) = omega arith in
    let scaled_least = mul-le-mul_right (2 ^ n) least in
    let scaled_most = mul-lt-mul_of_pos_right most (pow_pos n) in (omega arith, omega arith)
  where
    small : n ≤ 32
    small = elim (dec_le n 32) [
      | yes p ↦ p
      | no p ↦ absurd (omega (arith, pow_mono 32 n (omega arith), mul-le-mul_right (2 ^ n) pos))
    ]

    below : a / 2 ^ 32 + 1 ≤ 2 ^ (32 - n)
    below = elim (dec_le (a / 2 ^ 32 + 1) (2 ^ (32 - n))) [
      | yes p ↦ p
      | no p ↦
          let over : 2 ^ (32 - n) ≤ a / 2 ^ 32 = omega arith in
          absurd (omega (arith, pow_split n 32 small, mul-le-mul_right (2 ^ n) over))
    ]

-- For 0 < a < 2^64, shifting a left by clz64 a moves its highest set bit to bit 63.
pub clz64-top :
    (a : ℕ) → 0 < a → a < 2 ^ 64 → (2 ^ 63 ≤ a * 2 ^ clz64 a) × (a * 2 ^ clz64 a < 2 ^ 64)
unfolding clz64
clz64-top a pos h = elim (Bool-cases (a / 2 ^ 32 == 0)) [
  | inl low ↦
      let start : IsShifted 32 a (32, u32 a) = record { same = ground arith; fits = omega arith } in
      let top =
        found-top 32 a _ (search-IsShifted 32 a (32, u32 a) start)
          (search-top (32, u32 a) (ground arith)) in
      rw low (omega arith, omega arith)
  | inr high ↦
      let start : IsShifted 0 (a / 2 ^ 32) (0, a / 2 ^ 32) = record {
        same = omega arith;
        fits = omega arith;
      } in
      let top =
        found-top 0 (a / 2 ^ 32) _ (search-IsShifted 0 (a / 2 ^ 32) (0, a / 2 ^ 32) start)
          (search-top (0, a / 2 ^ 32) (ground arith)) in
      rw high (high_part a _ (ground arith) (omega arith) (omega arith))
]
