-- ===== src/Add/Scaled.antt =====
-- The two short forms by which add_range scales a value give what apply_multiplier gives.
use risc_v_vi_t_accelerator.Base.{
  ℕ, ◌+◌, ◌-◌, ◌*◌, ◌^◌, ◌≤◌, ◌<◌, ◌≡◌, sym, ap, ◌∙◌, arith, lt→ltb, ℤ, pos, pos_part, neg_part,
  mag, ◌+ℤ◌, ◌*ℤ◌, ◌/ℤ◌, mod_ℤ, i32, InInt32, InInt16, i32_id, /ℤ_unique, /ℤ_parts, /ℤ_bounds,
  /ℤ_shrinks, +ℤ_bounds, +ℤ_parts, mag-*ℤ, *ℤ_linear, *ℤ_pos, eq_of_parts, pow_split, pow_mono,
  pow_pos,
}
use risc_v_vi_t_accelerator.Emulator.Round.{apply_mult}
use risc_v_vi_t_accelerator.Fixed.{apply_multiplier, mulh32}
use risc_v_vi_t_accelerator.Fixed.Product.{nested_floor}
use risc_v_vi_t_accelerator.Fixed.Multiplier.{apply_multiplier-apply_mult}
use risc_v_vi_t_accelerator.Add.{scaled_small, scaled_high}

-- The upper part of the product, rounded, for shifts of 17 and more.
abbrev upper : ℤ → ℕ → ℕ → ℤ
upper x m s = ((x *ℤ pos m) /ℤ 2 ^ 16 +ℤ pos (2 ^ (s - 17))) /ℤ 2 ^ (s - 16)

-- The product's upper part, for an int16 value and a multiplier below 2^31.
part_limit :
    (x : ℤ) (m : ℕ)
    → InInt16 x
    → m < 2 ^ 31
    → (pos_part ((x *ℤ pos m) /ℤ 2 ^ 16) < 2 ^ 30) × (neg_part ((x *ℤ pos m) /ℤ 2 ^ 16) ≤ 2 ^ 30)
part_limit x m hx hm =
    let above : pos_part x * m ≤ 32_767 * 2_147_483_647 = grind arith in
    let below : neg_part x * m ≤ 32_768 * 2_147_483_647 = grind arith in
    omega (arith, *ℤ_pos x m, /ℤ_bounds (x *ℤ pos m) (2 ^ 16))

rounded_limit :
    (x : ℤ) (m s : ℕ)
    → InInt16 x
    → m < 2 ^ 31
    → s ≤ 47
    → InInt32 ((x *ℤ pos m) /ℤ 2 ^ 16 +ℤ pos (2 ^ (s - 17)))
rounded_limit x m s hx hm hi =
    let limit = part_limit x m hx hm in
    omega (
      arith,
      +ℤ_bounds ((x *ℤ pos m) /ℤ 2 ^ 16) (pos (2 ^ (s - 17))),
      pow_mono (s - 17) 30 (omega arith),
    )

upper-InInt32 : (x : ℤ) (m s : ℕ) → InInt16 x → m < 2 ^ 31 → s ≤ 47 → InInt32 (upper x m s)
upper-InInt32 x m s hx hm hi =
    let limit = rounded_limit x m s hx hm hi in
    let (p, q) =
      /ℤ_shrinks ((x *ℤ pos m) /ℤ 2 ^ 16 +ℤ pos (2 ^ (s - 17))) (2 ^ (s - 16)) (pow_pos (s - 16)) in
    (omega arith, omega arith)

upper-apply_multiplier :
    (x : ℤ) (m s : ℕ)
    → InInt16 x
    → m < 2 ^ 31
    → 17 ≤ s
    → s ≤ 47
    → apply_multiplier x (pos m) s ≡ upper x m s
unfolding apply_mult
upper-apply_multiplier x m s hx hm lo hi =
    apply_multiplier-apply_mult x (pos m) s (omega arith) (omega arith) (omega arith)
    ∙ ap i32 whole
    ∙ i32_id (upper x m s) (upper-InInt32 x m s hx hm hi)
  where
    lower : s - 1 - 16 ≡ s - 17
    lower = omega arith

    whole : apply_mult x (pos m) s ≡ upper x m s
    whole =
        rw
          (
            lt→ltb 0 s (omega arith),
            pow_split 16 s (omega arith),
            pow_split 16 (s - 1) (omega arith),
            lower,
          )
          (nested_floor (x *ℤ pos m) (2 ^ 16) (2 ^ (s - 16)) (2 ^ (s - 17)) (omega arith)
            (pow_pos (s - 16)))

-- A multiple of the divisor comes out of the quotient.
quotient_add : (p w : ℤ) (d : ℕ) → 0 < d → (p *ℤ pos d +ℤ w) /ℤ d ≡ p +ℤ w /ℤ d
quotient_add p w d h =
    (/ℤ_unique (p *ℤ pos d +ℤ w) (p +ℤ w /ℤ d) d (mod_ℤ w d) (/ℤ_parts w d h).1 (
      omega (
        arith,
        /ℤ_parts w d h,
        +ℤ_parts (p *ℤ pos d) w,
        *ℤ_pos p d,
        ap (λ (t : ℕ). t * d) (+ℤ_parts p (w /ℤ d)),
      ))).0

halves_of : (m : ℤ) (d : ℕ) → 0 < d → (m /ℤ d) *ℤ pos d +ℤ pos (mod_ℤ m d) ≡ m
halves_of m d h = eq_of_parts ((m /ℤ d) *ℤ pos d +ℤ pos (mod_ℤ m d)) m (
    omega
      (arith, +ℤ_parts ((m /ℤ d) *ℤ pos d) (pos (mod_ℤ m d)), *ℤ_pos (m /ℤ d) d, /ℤ_parts m d h))

-- The product by halves of the multiplier.
by_halves : (x m : ℤ) (d : ℕ) → 0 < d → x *ℤ (m /ℤ d) +ℤ (x *ℤ pos (mod_ℤ m d)) /ℤ d ≡ (x *ℤ m) /ℤ d
by_halves x m d h =
    sym (quotient_add (x *ℤ (m /ℤ d)) (x *ℤ pos (mod_ℤ m d)) d h)
    ∙ ap (λ z. z /ℤ d) (sym (*ℤ_linear x (m /ℤ d) (pos (mod_ℤ m d)) d))
    ∙ ap (λ z. (x *ℤ z) /ℤ d) (halves_of m d h)

-- With |x| <= 16383 no 32-bit operation of the first form overflows, and its result is
-- apply_multiplier's.
pub scaled_small-apply_multiplier :
    (x : ℤ) (m s : ℕ)
    → mag x ≤ 16_383
    → m < 2 ^ 31
    → 17 ≤ s
    → s ≤ 47
    → scaled_small x (pos m) s ≡ apply_multiplier x (pos m) s
unfolding scaled_small
scaled_small-apply_multiplier x m s hx hm lo hi =
    let fits : InInt16 x = (omega arith, omega arith) in
    let limit = part_limit x m fits hm in
    let low = x *ℤ pos (mod_ℤ (pos m) (2 ^ 16)) in
    let high = x *ℤ (pos m /ℤ 2 ^ 16) in
    let half = (/ℤ_parts (pos m) (2 ^ 16) (omega arith)).1 in
    let quotient = /ℤ_bounds (pos m) (2 ^ 16) in
    let low_fits : mag low ≤ 16_383 * 2 ^ 16 =
      rw (mag-*ℤ x (pos (mod_ℤ (pos m) (2 ^ 16)))) (grind arith) in
    let m_fits : mag (pos m /ℤ 2 ^ 16) ≤ 2 ^ 15 = unfold ◌/ℤ◌ in omega arith in
    let high_fits : mag high ≤ 16_383 * 2 ^ 15 = rw (mag-*ℤ x (pos m /ℤ 2 ^ 16)) (grind arith) in
    rw
      (
        i32_id low (omega arith),
        i32_id high (omega arith),
        by_halves x (pos m) (2 ^ 16) (omega arith),
        i32_id ((x *ℤ pos m) /ℤ 2 ^ 16) (omega arith),
        i32_id ((x *ℤ pos m) /ℤ 2 ^ 16 +ℤ pos (2 ^ (s - 17))) (rounded_limit x m s fits hm hi),
      )
      (sym (upper-apply_multiplier x m s fits hm lo hi))

shifted : (x : ℤ) (m : ℕ) → ((x *ℤ pos (2 ^ 16)) *ℤ pos m) /ℤ 2 ^ 32 ≡ (x *ℤ pos m) /ℤ 2 ^ 16
shifted x m =
    (/ℤ_unique ((x *ℤ pos (2 ^ 16)) *ℤ pos m) ((x *ℤ pos m) /ℤ 2 ^ 16) (2 ^ 32)
      (mod_ℤ (x *ℤ pos m) (2 ^ 16) * 2 ^ 16)
      (omega (arith, (/ℤ_parts (x *ℤ pos m) (2 ^ 16) (omega arith)).1))
      (omega (
        arith,
        (/ℤ_parts (x *ℤ pos m) (2 ^ 16) (omega arith)).0,
        *ℤ_pos (x *ℤ pos (2 ^ 16)) m,
        *ℤ_pos x m,
        ap (λ (t : ℕ). t * m) (*ℤ_pos x (2 ^ 16)).0,
        ap (λ (t : ℕ). t * m) (*ℤ_pos x (2 ^ 16)).1,
      ))).0

-- For int16 values the second form is apply_multiplier as well.
pub scaled_high-apply_multiplier :
    (x : ℤ) (m s : ℕ)
    → InInt16 x
    → m < 2 ^ 31
    → 17 ≤ s
    → s ≤ 47
    → scaled_high x (pos m) s ≡ apply_multiplier x (pos m) s
unfolding scaled_high mulh32
scaled_high-apply_multiplier x m s hx hm lo hi =
    let limit = part_limit x m hx hm in
    let first : s + 16 - 33 ≡ s - 17 = omega arith in
    let second : s + 16 - 32 ≡ s - 16 = omega arith in
    rw
      (
        i32_id (x *ℤ pos (2 ^ 16)) (omega (arith, *ℤ_pos x (2 ^ 16))),
        shifted x m,
        i32_id ((x *ℤ pos m) /ℤ 2 ^ 16) (omega arith),
        first,
        second,
        i32_id ((x *ℤ pos m) /ℤ 2 ^ 16 +ℤ pos (2 ^ (s - 17))) (rounded_limit x m s hx hm hi),
      )
      (sym (upper-apply_multiplier x m s hx hm lo hi))
