-- ===== src/Fixed/Words.antt =====
-- combine_words is the rounded shift of the 64-bit value whose two words it is given.
use native.Mathlib.Nat.{mod-lt, div-lt_iff_lt-mul, div-add-mod, div-div-eq-div-mul}
use risc_v_vi_t_accelerator.Base.{
  ℕ, ◌+◌, ◌-◌, ◌*◌, ◌/◌, ◌%◌, ◌^◌, ◌≤◌, ◌<◌, ◌≡◌, ap, sym, ◌∙◌, arith, u32, ltb, if◌then◌else◌, ℤ,
  pos, pos_part, neg_part, ◌+ℤ◌, ◌*ℤ◌, ◌/ℤ◌, bits32, signed32, i32, *ℤ_pos, /ℤ_parts, /ℤ_unique,
  +ℤ_parts, pow_split, pow_pos, pow_mono, div_mod_unique, bit_or_field,
}
use risc_v_vi_t_accelerator.Fixed.{combine_words}

word_fits : (r lo d e : ℕ) → r < d → lo < d * e → r * e + lo / d < d * e
word_fits r lo d e hr hlo = grind (arith, quotient)
  where
    quotient : lo / d < e
    quotient = (div-lt_iff_lt-mul (omega arith)).1 (omega arith)

-- Two words of which the low one takes a carry.
module _ (hi : ℤ) (lo d e : ℕ) where
  -- z = hi 2^32 + lo, shifted right by the width of d, is the two words put together.
  two_words :
      (z : ℤ)
      → (pos_part z + neg_part hi * 2 ^ 32 ≡ pos_part hi * 2 ^ 32 + neg_part z + lo)
      → 0 < d
      → d * e ≡ 2 ^ 32
      → z /ℤ d ≡ hi *ℤ pos e +ℤ pos (lo / d)
  two_words z split hd de =
      (/ℤ_unique z (hi *ℤ pos e +ℤ pos (lo / d)) d (lo % d) (mod-lt lo hd) (
        omega (
          arith,
          split,
          div-add-mod lo d,
          ap (λ (t : ℕ). t * d) (+ℤ_parts (hi *ℤ pos e) (pos (lo / d))),
          ap (λ (t : ℕ). t * d) (*ℤ_pos hi e).0,
          ap (λ (t : ℕ). t * d) (*ℤ_pos hi e).1,
          ap (λ (t : ℕ). pos_part hi * t) de,
          ap (λ (t : ℕ). neg_part hi * t) de,
        ))).0

  low_of_two_words :
      0 < d
      → lo < 2 ^ 32
      → d * e ≡ 2 ^ 32
      → bits32 (hi *ℤ pos e +ℤ pos (lo / d)) ≡ bits32 hi % d * e + lo / d
  low_of_two_words hd hlo de =
      (/ℤ_unique (hi *ℤ pos e +ℤ pos (lo / d)) (hi /ℤ 2 ^ 32 *ℤ pos e +ℤ pos (bits32 hi / d))
        (2 ^ 32) (bits32 hi % d * e + lo / d)
        (omega (arith, de, word_fits (bits32 hi % d) lo d e (mod-lt (bits32 hi) hd) (omega arith)))
        (omega (
          arith,
          ap (λ (t : ℕ). t * e) (/ℤ_parts hi (2 ^ 32) (omega arith)).0,
          ap (λ (t : ℕ). t * e) (div-add-mod (bits32 hi) d),
          ap (λ (t : ℕ). bits32 hi / d * t) de,
          +ℤ_parts (hi *ℤ pos e) (pos (lo / d)),
          *ℤ_pos hi e,
          +ℤ_parts (hi /ℤ 2 ^ 32 *ℤ pos e) (pos (bits32 hi / d)),
          *ℤ_pos (hi /ℤ 2 ^ 32) e,
        ))).1

  -- Shifting the high word left drops its bits above the 32nd.
  high_field : 0 < d → d * e ≡ 2 ^ 32 → u32 (bits32 hi * e) ≡ bits32 hi % d * e
  high_field hd de =
      (div_mod_unique (bits32 hi * e) (2 ^ 32) (bits32 hi / d) (bits32 hi % d * e)
        (omega (arith, de, word_fits (bits32 hi % d) 0 d e (mod-lt (bits32 hi) hd) (omega arith)))
        (omega (
          arith,
          ap (λ (t : ℕ). t * e) (div-add-mod (bits32 hi) d),
          ap (λ (t : ℕ). bits32 hi / d * t) de,
        ))).1

-- The carry out of the low word.
carry_split :
    (lo b : ℕ)
    → lo < 2 ^ 32
    → b ≤ 2 ^ 31
    → lo + b ≡ (if ltb (u32 (lo + b)) lo then 1 else 0) * 2 ^ 32 + u32 (lo + b)
carry_split lo b hl hb = ground arith

pub combine_words_lem :
    (z : ℤ) (s : ℕ)
    → 1 ≤ s
    → s ≤ 32
    → combine_words (z /ℤ 2 ^ 32) (bits32 z) s ≡ i32 ((z +ℤ pos (2 ^ (s - 1))) /ℤ 2 ^ s)
unfolding combine_words i32
combine_words_lem z s one top = ap signed32 (
    rw (high_field hi2 lo2 d e (pow_pos s) de, halves)
      (bit_or_field (32 - s) (bits32 hi2 % d) (lo2 / d) low_fits
        ∙ sym (low_of_two_words hi2 lo2 d e (pow_pos s) lo2_fits de)
        ∙ ap bits32 (sym (two_words hi2 lo2 d e (z +ℤ pos b) split (pow_pos s) de))))
  where
    b : ℕ
    b = 2 ^ (s - 1)

    d : ℕ
    d = 2 ^ s

    e : ℕ
    e = 2 ^ (32 - s)

    lo2 : ℕ
    lo2 = u32 (bits32 z + b)

    c : ℕ
    c = if ltb lo2 (bits32 z) then 1 else 0

    hi2 : ℤ
    hi2 = z /ℤ 2 ^ 32 +ℤ pos c

    de : d * e ≡ 2 ^ 32
    de = omega (arith, pow_split s 32 top)

    double : b * 2 ≡ d
    double = sym (pow_split 1 s one)

    halves : lo2 / b / 2 ≡ lo2 / d
    halves = div-div-eq-div-mul lo2 b 2 ∙ ap (λ (t : ℕ). lo2 / t) double

    lo2_fits : lo2 < 2 ^ 32
    lo2_fits = omega arith

    low_fits : lo2 / d < e
    low_fits = (div-lt_iff_lt-mul (pow_pos s)).1 (omega (arith, de))

    whole :
        (pos_part z + neg_part (z /ℤ 2 ^ 32) * 2 ^ 32
          ≡ pos_part (z /ℤ 2 ^ 32) * 2 ^ 32 + neg_part z + bits32 z)
        × (bits32 z < 2 ^ 32)
    whole = /ℤ_parts z (2 ^ 32) (omega arith)

    split :
        pos_part (z +ℤ pos b) + neg_part hi2 * 2 ^ 32
        ≡ pos_part hi2 * 2 ^ 32 + neg_part (z +ℤ pos b) + lo2
    split = omega (
      arith,
      whole,
      +ℤ_parts z (pos b),
      +ℤ_parts (z /ℤ 2 ^ 32) (pos c),
      carry_split (bits32 z) b whole.1 (pow_mono (s - 1) 31 (omega arith)),
    )
