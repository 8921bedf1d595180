-- ===== src/Fixed/Multiplier.antt =====
-- apply_multiplier agrees with the rounding of the accelerator's model.
use native.Mathlib.Decide.{dec_le}
use risc_v_vi_t_accelerator.Base.{
  ℕ, zero, suc, ◌-◌, ◌^◌, ◌≤◌, ◌≡◌, refl, sym, arith, false, leb, ◌==◌, le→leb, lt→ltb, ℤ, pos,
  ◌+ℤ◌, ◌*ℤ◌, ◌/ℤ◌, i32, InInt32, i32_id, /ℤ_unique, +ℤ_bounds, /ℤ_shrinks, /ℤ_bounds, pow_split,
  pow_mono, pow_pos,
}
use risc_v_vi_t_accelerator.Emulator.Round.{apply_mult}
use risc_v_vi_t_accelerator.Fixed.{apply_multiplier}
use risc_v_vi_t_accelerator.Fixed.Product.{product_bound, low_word, nested_floor}
use risc_v_vi_t_accelerator.Fixed.Words.{combine_words_lem}

-- Shifts of 33 and more need the high word only.
high_shift :
    (acc mult : ℤ) (s : ℕ)
    → InInt32 acc
    → InInt32 mult
    → 33 ≤ s
    → s ≤ 62
    → apply_multiplier acc mult s ≡ i32 (apply_mult acc mult s)
unfolding apply_multiplier apply_mult
high_shift acc mult s ha hm lo hi =
    rw
      (
        le→leb 33 s lo,
        lt→ltb 0 s (omega arith),
        i32_id high (omega (arith, product_bound acc mult ha hm, /ℤ_bounds (acc *ℤ mult) (2 ^ 32))),
        pow_split 32 s (omega arith),
        pow_split 32 (s - 1) (omega arith),
        lower,
        nested_floor (acc *ℤ mult) (2 ^ 32) (2 ^ (s - 32)) (2 ^ (s - 33)) (omega arith)
            (pow_pos (s - 32)),
      )
      (sym (
        i32_id _ (
          omega (
            arith,
            product_bound acc mult ha hm,
            /ℤ_bounds (acc *ℤ mult) (2 ^ 32),
            +ℤ_bounds high (pos (2 ^ (s - 33))),
            pow_mono (s - 33) 29,
            /ℤ_shrinks (high +ℤ pos (2 ^ (s - 33))) (2 ^ (s - 32)) (pow_pos (s - 32)),
          ))))
  where
    high : ℤ
    high = acc *ℤ mult /ℤ 2 ^ 32

    lower : s - 1 - 32 ≡ s - 33
    lower = omega arith

leb-false : (s : ℕ) → s ≤ 32 → leb 33 s ≡ false
leb-false s h = ground arith

eqb-false : (s : ℕ) → 1 ≤ s → (s == 0) ≡ false
eqb-false s h = ground arith

-- Shifts of 1 to 32 put the result together from both words.
low_shift :
    (acc mult : ℤ) (s : ℕ)
    → InInt32 acc
    → InInt32 mult
    → 1 ≤ s
    → s ≤ 32
    → apply_multiplier acc mult s ≡ i32 (apply_mult acc mult s)
unfolding apply_multiplier apply_mult
low_shift acc mult s ha hm lo hi =
    rw
      (
        leb-false s (omega arith),
        eqb-false s (omega arith),
        lt→ltb 0 s (omega arith),
        i32_id (acc *ℤ mult /ℤ 2 ^ 32)
            (omega (arith, product_bound acc mult ha hm, /ℤ_bounds (acc *ℤ mult) (2 ^ 32))),
        low_word acc mult ha hm,
      )
      (combine_words_lem (acc *ℤ mult) s lo hi)

no_shift :
    (acc mult : ℤ)
    → InInt32 acc
    → InInt32 mult
    → apply_multiplier acc mult 0 ≡ i32 (apply_mult acc mult 0)
unfolding apply_multiplier apply_mult i32
no_shift acc mult ha hm = rw (low_word acc mult ha hm, whole) refl
  where
    whole : acc *ℤ mult /ℤ 1 ≡ acc *ℤ mult
    whole = (/ℤ_unique (acc *ℤ mult) (acc *ℤ mult) 1 0 (omega arith) (omega arith)).0

-- For int32 accumulators and multipliers and shifts up to 62, apply_multiplier, which works on the
-- two 32-bit words of the product, returns the low 32 bits of the 64-bit rounding shift apply_mult.
pub apply_multiplier-apply_mult :
    (acc mult : ℤ) (shift : ℕ)
    → InInt32 acc
    → InInt32 mult
    → shift ≤ 62
    → apply_multiplier acc mult shift ≡ i32 (apply_mult acc mult shift)
apply_multiplier-apply_mult acc mult zero ha hm h = no_shift acc mult ha hm
apply_multiplier-apply_mult acc mult (suc s) ha hm h = elim (dec_le 33 (suc s)) [
  | yes big ↦ high_shift acc mult (suc s) ha hm big h
  | no small ↦ low_shift acc mult (suc s) ha hm (omega arith) (omega arith)
]
