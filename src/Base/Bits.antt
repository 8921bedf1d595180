-- ===== src/Base/Bits.antt =====
-- The native bit operations at variables: one binary digit at a time, and then a field of `k` bits.
use Prim.Native.Nat.{
  ℕ, zero, suc, ◌+◌, ◌-◌, ◌*◌, ◌/◌, ◌%◌, ◌^◌, ◌≤◌, ◌<◌, min, max, bit_and, bit_or, digits,
  bit_and-bitwise, bit_or-bitwise,
}
use mathlib.Core.Path.{◌≡◌, refl, ap, ◌∙◌}
use native.Mathlib.Nat.{pow-suc, one-le-pow, mod-lt, div-add-mod, add-mul-div_right, div-eq_of_lt}
use native.Mathlib.Omega.{arith}

-- Two divisions by `d` with remainders below it agree.
pub div_unique : (a b d r s : ℕ) → r < d → s < d → a * d + r ≡ b * d + s → (a ≡ b) × (r ≡ s)
div_unique a b d r s hr hs e = (same, rem)
  where
    quot : (c t : ℕ) → t < d → (t + c * d) / d ≡ c
    quot c t h = omega (arith, add-mul-div_right t c {z = d} (omega arith), div-eq_of_lt h)

    same : a ≡ b
    same = omega (
      arith,
      quot a r hr,
      quot b s hs,
      ap (λ (t : ℕ). t / d) {x = r + a * d} {y = s + b * d} (omega arith),
    )

    rem : r ≡ s
    rem = omega (arith, ap (λ (t : ℕ). t * d) same)

-- The division equation determines the quotient and the remainder.
pub div_mod_unique : (n d q r : ℕ) → r < d → n ≡ q * d + r → (n / d ≡ q) × (n % d ≡ r)
div_mod_unique n d q r h e =
    div_unique (n / d) q d (n % d) r (mod-lt n (omega arith)) h (omega (arith, div-add-mod n d, e))

-- Numbers that differ by multiples of `d` have one remainder.
pub mod_congr : (x y a b d : ℕ) → 0 < d → x + a * d ≡ y + b * d → x % d ≡ y % d
mod_congr x y a b d h e =
    (div_unique (x / d + a) (y / d + b) d (x % d) (y % d) (mod-lt x h) (mod-lt y h)
      (omega (arith, div-add-mod x d, div-add-mod y d, e))).1

-- The recursion of a native operation runs on fuel; enough fuel of either amount gives one result.
fuel_irrelevant :
    (z : ℕ → ℕ) (f : ℕ → ℕ → ℕ) (n m a b : ℕ) → a ≤ n → a ≤ m → digits z f n a b ≡ digits z f m a b
fuel_irrelevant z f zero zero a b p q = refl
fuel_irrelevant z f zero (suc m) zero b p q = refl
fuel_irrelevant z f zero (suc m) (suc a) b p q = absurd (omega arith)
fuel_irrelevant z f (suc n) zero zero b p q = refl
fuel_irrelevant z f (suc n) zero (suc a) b p q = absurd (omega arith)
fuel_irrelevant z f (suc n) (suc m) zero b p q = refl
fuel_irrelevant z f (suc n) (suc m) (suc a) b p q =
    rw (fuel_irrelevant z f n m (suc a / 2) (b / 2) (omega arith) (omega arith))

pub bit_or_step : (a b : ℕ) → bit_or a b ≡ bit_or (a / 2) (b / 2) * 2 + max (a % 2) (b % 2)
bit_or_step zero b = omega (arith, bit_or-bitwise 0 b, bit_or-bitwise 0 (b / 2))
bit_or_step (suc a) b = omega (
  arith,
  bit_or-bitwise (suc a) b,
  bit_or-bitwise (suc a / 2) (b / 2),
  fuel_irrelevant (λ y. y) max a (suc a / 2) (suc a / 2) (b / 2) (omega arith) (omega arith),
)

pub bit_and_step : (a b : ℕ) → bit_and a b ≡ bit_and (a / 2) (b / 2) * 2 + min (a % 2) (b % 2)
bit_and_step zero b = omega (arith, bit_and-bitwise 0 b, bit_and-bitwise 0 (b / 2))
bit_and_step (suc a) b = omega (
  arith,
  bit_and-bitwise (suc a) b,
  bit_and-bitwise (suc a / 2) (b / 2),
  fuel_irrelevant (λ y. 0) min a (suc a / 2) (suc a / 2) (b / 2) (omega arith) (omega arith),
)

or_zero_upto : (n a : ℕ) → a ≤ n → bit_or a 0 ≡ a
or_zero_upto n zero h = refl
or_zero_upto zero (suc a) h = absurd (omega arith)
or_zero_upto (suc n) (suc a) h =
    omega (arith, bit_or_step (suc a) 0, or_zero_upto n (suc a / 2) (omega arith))

and_zero_upto : (n a : ℕ) → a ≤ n → bit_and a 0 ≡ 0
and_zero_upto n zero h = refl
and_zero_upto zero (suc a) h = absurd (omega arith)
and_zero_upto (suc n) (suc a) h =
    omega (arith, bit_and_step (suc a) 0, and_zero_upto n (suc a / 2) (omega arith))

pub pow_suc_two : (k : ℕ) → 2 ^ suc k ≡ 2 * 2 ^ k
pow_suc_two k = omega (arith, pow-suc 2 k)

pub pow_pos : (k : ℕ) → 0 < 2 ^ k
pow_pos k = one-le-pow k 2 (omega arith)

pub pow_add : (j k : ℕ) → 2 ^ (j + k) ≡ 2 ^ j * 2 ^ k
pow_add j zero = omega (arith, ap (λ (t : ℕ). 2 ^ t) {x = j + 0} {y = j} (omega arith))
pow_add j (suc k) = omega (
  arith,
  ap (λ (t : ℕ). 2 ^ t) {x = j + suc k} {y = suc (j + k)} (omega arith),
  pow_suc_two (j + k),
  pow_suc_two k,
  pow_add j k,
  ap (λ (t : ℕ). 2 ^ j * t) (pow_suc_two k),
)

pub pow_split : (k s : ℕ) → k ≤ s → 2 ^ s ≡ 2 ^ (s - k) * 2 ^ k
pow_split k s h = ap (λ (t : ℕ). 2 ^ t) {x = s} {y = s - k + k} (omega arith) ∙ pow_add (s - k) k

pub pow_mono : (j k : ℕ) → j ≤ k → 2 ^ j ≤ 2 ^ k
pow_mono j k h = omega (
  arith,
  pow_split j k h,
  ap (λ (t : ℕ). t * 2 ^ j) {x = 2 ^ (k - j)} {y = suc (2 ^ (k - j) - 1)}
      (omega (arith, pow_pos (k - j))),
)

-- `(q << k) | r` is a sum when `r` fits in `k` bits.
pub bit_or_field : (k q r : ℕ) → r < 2 ^ k → bit_or (q * 2 ^ k) r ≡ q * 2 ^ k + r
bit_or_field zero q r h = ground (arith, or_zero_upto q q)
bit_or_field (suc k) q r h = omega (
  arith,
  pow_suc_two k,
  ap (λ (t : ℕ). q * t) (pow_suc_two k),
  bit_or_step (q * 2 ^ suc k) r,
  half,
  bit_or_field k q (r / 2) (omega (arith, pow_suc_two k)),
)
  where
    half : bit_or (q * 2 ^ suc k / 2) (r / 2) ≡ bit_or (q * 2 ^ k) (r / 2)
    half =
        ap (λ (t : ℕ). bit_or t (r / 2)) {x = q * 2 ^ suc k / 2} {y = q * 2 ^ k}
          (omega (arith, ap (λ (t : ℕ). q * t) (pow_suc_two k)))

zero_or_upto : (n a : ℕ) → a ≤ n → bit_or 0 a ≡ a
zero_or_upto n zero h = omega (arith, bit_or_step 0 0)
zero_or_upto zero (suc a) h = absurd (omega arith)
zero_or_upto (suc n) (suc a) h =
    omega (arith, bit_or_step 0 (suc a), zero_or_upto n (suc a / 2) (omega arith))

-- `r | (q << k)` is the same sum.
pub bit_or_low : (k q r : ℕ) → r < 2 ^ k → bit_or r (q * 2 ^ k) ≡ q * 2 ^ k + r
bit_or_low zero q r h = ground (arith, zero_or_upto q q)
bit_or_low (suc k) q r h = omega (
  arith,
  pow_suc_two k,
  ap (λ (t : ℕ). q * t) (pow_suc_two k),
  bit_or_step r (q * 2 ^ suc k),
  half,
  bit_or_low k q (r / 2) (omega (arith, pow_suc_two k)),
)
  where
    half : bit_or (r / 2) (q * 2 ^ suc k / 2) ≡ bit_or (r / 2) (q * 2 ^ k)
    half =
        ap (λ (t : ℕ). bit_or (r / 2) t) {x = q * 2 ^ suc k / 2} {y = q * 2 ^ k}
          (omega (arith, ap (λ (t : ℕ). q * t) (pow_suc_two k)))

bit_or_above_upto : (n a b : ℕ) → a ≤ n → b ≤ n → (a ≤ bit_or a b) × (b ≤ bit_or a b)
bit_or_above_upto zero a b ha hb = (omega arith, omega arith)
bit_or_above_upto (suc n) a b ha hb =
    let (left, right) = bit_or_above_upto n (a / 2) (b / 2) (omega arith) (omega arith) in
    (omega (arith, bit_or_step a b, left, right), omega (arith, bit_or_step a b, left, right))

-- An OR is at least each operand, and has no more bits than they.
pub bit_or_above : (a b : ℕ) → (a ≤ bit_or a b) × (b ≤ bit_or a b)
bit_or_above a b = bit_or_above_upto (a + b) a b (omega arith) (omega arith)

pub bit_or_below : (k a b : ℕ) → a < 2 ^ k → b < 2 ^ k → bit_or a b < 2 ^ k
bit_or_below zero a b ha hb = omega (
  arith,
  ap (λ (t : ℕ). bit_or t b) {x = a} {y = 0} (omega arith),
  zero_or_upto b b (omega arith),
)
bit_or_below (suc k) a b ha hb = omega (
  arith,
  pow_suc_two k,
  bit_or_step a b,
  bit_or_below k (a / 2) (b / 2) (omega (arith, pow_suc_two k)) (omega (arith, pow_suc_two k)),
)

-- A mask of the `k` low bits is a remainder.
pub bit_and_mask : (k a : ℕ) → bit_and a (2 ^ k - 1) ≡ a % 2 ^ k
bit_and_mask zero a = omega (arith, and_zero_upto a a (omega arith))
bit_and_mask (suc k) a = omega (
  arith,
  pow_suc_two k,
  pow_pos k,
  bit_and_step a (2 ^ suc k - 1),
  half,
  bit_and_mask k (a / 2),
  digit,
)
  where
    half : bit_and (a / 2) ((2 ^ suc k - 1) / 2) ≡ bit_and (a / 2) (2 ^ k - 1)
    half =
        ap (λ (t : ℕ). bit_and (a / 2) t) {x = (2 ^ suc k - 1) / 2} {y = 2 ^ k - 1}
          (omega (arith, pow_suc_two k, pow_pos k))

    digit : a % 2 ^ suc k ≡ a / 2 % 2 ^ k * 2 + a % 2
    digit =
        (div_mod_unique a (2 ^ suc k) (a / 2 / 2 ^ k) (a / 2 % 2 ^ k * 2 + a % 2)
          (omega (arith, pow_suc_two k, mod-lt (a / 2) (pow_pos k)))
          (omega (
            arith,
            div-add-mod (a / 2) (2 ^ k),
            ap (λ (t : ℕ). a / 2 / 2 ^ k * t) (pow_suc_two k),
          ))).1
