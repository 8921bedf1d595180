-- ===== src/Base/Int.antt =====
-- Signed integers over the native numbers, under the library's names (its ℤ stands on the unary ℕ).
-- Sums and orders go through the two parts of an integer, which are numbers that `omega` reads.
use Prim.Native.Nat.{ℕ, suc, ◌+◌, ◌-◌, ◌*◌, ◌/◌, ◌%◌, ◌≤◌, ◌<◌}
use native.Mathlib.Nat.{div-le_self, div-add-mod}
use mathlib.Core.Path.{◌≡◌, ap}
use mathlib.Core.Bool.{Bool}
use native.Mathlib.Omega.{arith}
use risc_v_vi_t_accelerator.Base.Bits.{div_unique}
use risc_v_vi_t_accelerator.Base.Tests.{ltb, leb, ◌==◌, if◌then◌else◌}

-- `negsuc n` is -(n + 1).
pub data ℤ : Type 0 where
  pos : ℕ → ℤ
  negsuc : ℕ → ℤ

abbrev pub pos_part : ℤ → ℕ
pos_part (pos n) = n
pos_part (negsuc n) = 0

abbrev pub neg_part : ℤ → ℕ
neg_part (pos n) = 0
neg_part (negsuc n) = suc n

-- |a|
abbrev pub mag : ℤ → ℕ
mag a = pos_part a + neg_part a

-- a - b, as an integer.
abbrev pub sub_ℕ : ℕ → ℕ → ℤ
sub_ℕ a b = if leb b a then pos (a - b) else negsuc (b - a - 1)

infixl 65 ◌+ℤ◌ ◌-ℤ◌
infixl 70 ◌*ℤ◌ ◌/ℤ◌
infix 50 ◌≤ℤ◌ ◌<ℤ◌
unfoldable pub ◌+ℤ◌ : ℤ → ℤ → ℤ
a +ℤ b = sub_ℕ (pos_part a + pos_part b) (neg_part a + neg_part b)

unfoldable pub ◌-ℤ◌ : ℤ → ℤ → ℤ
a -ℤ b = sub_ℕ (pos_part a + neg_part b) (neg_part a + pos_part b)

unfoldable pub ◌*ℤ◌ : ℤ → ℤ → ℤ
a *ℤ b =
    sub_ℕ (pos_part a * pos_part b + neg_part a * neg_part b)
      (pos_part a * neg_part b + neg_part a * pos_part b)

-- -a
unfoldable pub neg_ℤ : ℤ → ℤ
neg_ℤ a = sub_ℕ (neg_part a) (pos_part a)

-- The quotient rounded down, for a divisor d > 0.
unfoldable pub ◌/ℤ◌ : ℤ → ℕ → ℤ
pos n /ℤ d = pos (n / d)
negsuc n /ℤ d = negsuc (n / d)

-- The remainder of that division, 0 ≤ r < d.
unfoldable pub mod_ℤ : ℤ → ℕ → ℕ
mod_ℤ (pos n) d = n % d
mod_ℤ (negsuc n) d = d - 1 - n % d

abbrev pub ◌≤ℤ◌ : ℤ → ℤ → Type 0
a ≤ℤ b = pos_part a + neg_part b ≤ pos_part b + neg_part a

abbrev pub ◌<ℤ◌ : ℤ → ℤ → Type 0
a <ℤ b = pos_part a + neg_part b < pos_part b + neg_part a

abbrev pub ltb_ℤ : ℤ → ℤ → Bool
ltb_ℤ a b = ltb (pos_part a + neg_part b) (pos_part b + neg_part a)

abbrev pub eqb_ℤ : ℤ → ℤ → Bool
eqb_ℤ a b = pos_part a + neg_part b == pos_part b + neg_part a

-- One lemma for each operation lets `omega` work with the operations shut, at any depth.
pub +ℤ_parts :
    (a b : ℤ)
    → pos_part (a +ℤ b) + neg_part a + neg_part b ≡ neg_part (a +ℤ b) + pos_part a + pos_part b
unfolding ◌+ℤ◌
+ℤ_parts a b = ground arith

pub -ℤ_parts :
    (a b : ℤ)
    → pos_part (a -ℤ b) + neg_part a + pos_part b ≡ neg_part (a -ℤ b) + pos_part a + neg_part b
unfolding ◌-ℤ◌
-ℤ_parts a b = ground arith

pub +ℤ_bounds :
    (a b : ℤ)
    → (pos_part (a +ℤ b) ≤ pos_part a + pos_part b) × (neg_part (a +ℤ b) ≤ neg_part a + neg_part b)
unfolding ◌+ℤ◌
+ℤ_bounds a b = ground arith

pub neg_ℤ_parts : (a : ℤ) → pos_part (neg_ℤ a) + pos_part a ≡ neg_part (neg_ℤ a) + neg_part a
unfolding neg_ℤ
neg_ℤ_parts a = ground arith

pub eq_of_parts : (a b : ℤ) → pos_part a + neg_part b ≡ pos_part b + neg_part a → a ≡ b
eq_of_parts a b h = ground arith

-- One of the two parts is 0.
pub parts_disjoint : (a : ℤ) → pos_part a * neg_part a ≡ 0
parts_disjoint (pos n) = omega arith
parts_disjoint (negsuc n) = omega arith

pub /ℤ_parts :
    (z : ℤ) (d : ℕ)
    → 0 < d
    → (pos_part z + neg_part (z /ℤ d) * d ≡ pos_part (z /ℤ d) * d + neg_part z + mod_ℤ z d)
      × (mod_ℤ z d < d)
unfolding ◌/ℤ◌ mod_ℤ
/ℤ_parts (pos n) d h = (grind arith, grind arith)
/ℤ_parts (negsuc n) d h = (grind arith, grind arith)

-- Quotient and remainder are determined by the division equation.
pub /ℤ_unique :
    (z q : ℤ) (d r : ℕ)
    → r < d
    → pos_part z + neg_part q * d ≡ pos_part q * d + neg_part z + r
    → (z /ℤ d ≡ q) × (mod_ℤ z d ≡ r)
/ℤ_unique z q d r h e = (eq_of_parts (z /ℤ d) q both.0, both.1)
  where
    now :
        (pos_part z + neg_part (z /ℤ d) * d ≡ pos_part (z /ℤ d) * d + neg_part z + mod_ℤ z d)
        × (mod_ℤ z d < d)
    now = /ℤ_parts z d (omega arith)

    both : (pos_part (z /ℤ d) + neg_part q ≡ pos_part q + neg_part (z /ℤ d)) × (mod_ℤ z d ≡ r)
    both = div_unique _ _ d (mod_ℤ z d) r now.1 h (omega (arith, now.0, e))

-- Dividing by d > 0 does not enlarge either part.
pub /ℤ_shrinks :
    (z : ℤ) (d : ℕ) → 0 < d → (pos_part (z /ℤ d) ≤ pos_part z) × (neg_part (z /ℤ d) ≤ neg_part z)
unfolding ◌/ℤ◌
/ℤ_shrinks (pos n) d h = (div-le_self n d, omega arith)
/ℤ_shrinks (negsuc n) d h = (omega arith, omega (arith, div-le_self n d))

-- A quotient times the divisor is at most the dividend, up to the rounding of a negative one.
pub /ℤ_bounds :
    (z : ℤ) (d : ℕ)
    → (pos_part (z /ℤ d) * d ≤ pos_part z) × (neg_part (z /ℤ d) * d ≤ neg_part z + d)
unfolding ◌/ℤ◌
/ℤ_bounds (pos n) d = (omega (arith, div-add-mod n d), omega arith)
/ℤ_bounds (negsuc n) d = (omega arith, omega (arith, div-add-mod n d))

-- A factor e ≥ 0 multiplies both parts.
pub *ℤ_pos :
    (z : ℤ) (e : ℕ)
    → (pos_part (z *ℤ pos e) ≡ pos_part z * e) × (neg_part (z *ℤ pos e) ≡ neg_part z * e)
unfolding ◌*ℤ◌
*ℤ_pos (pos n) e = (ground arith, ground arith)
*ℤ_pos (negsuc n) e = (ground arith, ground arith)

-- The two parts of a product, with the operation shut.
pub *ℤ_parts :
    (a b : ℤ)
    → pos_part (a *ℤ b) + (pos_part a * neg_part b + neg_part a * pos_part b)
      ≡ neg_part (a *ℤ b) + (pos_part a * pos_part b + neg_part a * neg_part b)
unfolding ◌*ℤ◌
*ℤ_parts a b = ground arith

-- A product with b s + c.
pub *ℤ_linear : (a b c : ℤ) (s : ℕ) → a *ℤ (b *ℤ pos s +ℤ c) ≡ (a *ℤ b) *ℤ pos s +ℤ a *ℤ c
*ℤ_linear a b c s =
    let x = b *ℤ pos s +ℤ c in
    let sum = +ℤ_parts (b *ℤ pos s) c in
    eq_of_parts (a *ℤ x) ((a *ℤ b) *ℤ pos s +ℤ a *ℤ c) (
      omega (
        arith,
        +ℤ_parts ((a *ℤ b) *ℤ pos s) (a *ℤ c),
        *ℤ_pos (a *ℤ b) s,
        *ℤ_parts a x,
        *ℤ_parts a c,
        ap (λ (t : ℕ). t * s) (*ℤ_parts a b),
        ap (λ (t : ℕ). pos_part a * t) sum,
        ap (λ (t : ℕ). neg_part a * t) sum,
        ap (λ (t : ℕ). pos_part a * t) (*ℤ_pos b s).0,
        ap (λ (t : ℕ). pos_part a * t) (*ℤ_pos b s).1,
        ap (λ (t : ℕ). neg_part a * t) (*ℤ_pos b s).0,
        ap (λ (t : ℕ). neg_part a * t) (*ℤ_pos b s).1,
      ))

-- The magnitude of a product.
pub mag-*ℤ : (a b : ℤ) → mag (a *ℤ b) ≡ mag a * mag b
unfolding ◌*ℤ◌
mag-*ℤ (pos n) (pos m) = ground arith
mag-*ℤ (pos n) (negsuc m) = ground arith
mag-*ℤ (negsuc n) (pos m) = ground arith
mag-*ℤ (negsuc n) (negsuc m) = ground arith

pub ruleset int_laws = (arith, +ℤ_parts, -ℤ_parts, neg_ℤ_parts, eq_of_parts)
