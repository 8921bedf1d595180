-- ===== src/Add/Sum.antt =====
-- add_range against the addition element by element, and the limits of its factors.
use risc_v_vi_t_accelerator.Base.{
  ℕ, ◌-◌, ◌*◌, ◌/◌, ◌%◌, ◌^◌, ◌≤◌, ◌<◌, ◌≡◌, refl, ◌∙◌, arith, Bool, true, false, leb, ◌&&◌,
  if◌then◌else◌, ℤ, pos, mag, for_range, Bool-cases, inl, inr,
}
use mathlib.Core.Path.{ap₂}
use risc_v_vi_t_accelerator.Xf
use risc_v_vi_t_accelerator.Xf.{Scale, xf_one, mul, recip, div, from_int, leb_ℤ}
use risc_v_vi_t_accelerator.Xf.Positive.{mul-mag, mul-small, recip-small, to_mult_bounds}
use risc_v_vi_t_accelerator.Copy.Memory.{Halfwords}
use risc_v_vi_t_accelerator.Fixed.{apply_multiplier}
use risc_v_vi_t_accelerator.Fixed.Saturate.{sat_act-bounds}
use risc_v_vi_t_accelerator.Add.{
  add_params, Factors, scaled_small, scaled_high, sum_by, add_one, add_two, add_range, in_range,
}
use risc_v_vi_t_accelerator.Add.Scaled.{scaled_small-apply_multiplier, scaled_high-apply_multiplier}
use risc_v_vi_t_accelerator.Add.Range.{IsWithin, IsSame, for_range-add_two}

-- Where both shifts are 17 and more, they are at most 47.
abbrev pub IsShifts : Factors → Type 0
IsShifts f = 17 ≤ f.sa → 17 ≤ f.sb → (f.sa ≤ 47) × (f.sb ≤ 47)

-- Multipliers from 0 on, as xf_to_mult gives them.
pub record IsFactors (f : Factors) : Type 0 where
  pub a_factor : ℕ
  pub b_factor : ℕ
  pub a_same : f.ma ≡ pos a_factor
  pub b_same : f.mb ≡ pos b_factor
  pub a_limit : a_factor < 2 ^ 31
  pub b_limit : b_factor < 2 ^ 31
  pub shifts : IsShifts f

-- The factors of add_params, for operands with mantissas below 2^31.
pub add_params-IsFactors :
    (amax_a : ℕ) (sa : Scale) (amax_b : ℕ) (sb : Scale)
    → mag sa.m < 2 ^ 31
    → mag sb.m < 2 ^ 31
    → IsShifts (add_params amax_a sa amax_b sb).1
    → IsFactors (add_params amax_a sa amax_b sb).1
unfolding add_params div
add_params-IsFactors amax_a sa amax_b sb ha hb shifts =
    let bound = Xf.add (mul (from_int (pos amax_a)) sa) (mul (from_int (pos amax_b)) sb) in
    let inv = recip-small _ (
      one_or (leb_ℤ bound.m (pos 0) && leb_ℤ (pos 0) bound.m)
        (mul bound (recip (from_int (pos 8191)))) (mul-mag bound (recip (from_int (pos 8191))))) in
    let (a_same, a_limit) = to_mult_bounds _ (mul-small sa _ ha inv) in
    let (b_same, b_limit) = to_mult_bounds _ (mul-small sb _ hb inv) in
    record {
      a_factor = _;
      b_factor = _;
      a_same = a_same;
      b_same = b_same;
      a_limit = a_limit;
      b_limit = b_limit;
      shifts = shifts;
    }
  where
    one_or : (c : Bool) (s : Scale) → mag s.m ≤ 2 ^ 31 → mag (if c then xf_one else s).m ≤ 2 ^ 31
    one_or true s h = omega arith
    one_or false s h = h

module _ (f : Factors) (g : IsFactors f) (lo_a : 17 ≤ f.sa) (lo_b : 17 ≤ f.sb) where
  small-IsSame : IsSame 16_383 (sum_by scaled_small f) (sum_by apply_multiplier f)
  unfolding sum_by
  small-IsSame x y hx hy fx fy =
      let (hi_a, hi_b) = g.shifts lo_a lo_b in
      rw
        (
          g.a_same,
          g.b_same,
          scaled_small-apply_multiplier x g.a_factor f.sa fx g.a_limit lo_a hi_a,
          scaled_small-apply_multiplier y g.b_factor f.sb fy g.b_limit lo_b hi_b,
        )
        refl

  high-IsSame : (limit : ℕ) → IsSame limit (sum_by scaled_high f) (sum_by apply_multiplier f)
  unfolding sum_by
  high-IsSame limit x y hx hy fx fy =
      let (hi_a, hi_b) = g.shifts lo_a lo_b in
      rw
        (
          g.a_same,
          g.b_same,
          scaled_high-apply_multiplier x g.a_factor f.sa hx g.a_limit lo_a hi_a,
          scaled_high-apply_multiplier y g.b_factor f.sb hy g.b_limit lo_b hi_b,
        )
        refl

sum_by-bounds : (scaled : ℤ → ℤ → ℕ → ℤ) (f : Factors) (x y : ℤ) → mag (sum_by scaled f x y) ≤ 8191
unfolding sum_by
sum_by-bounds scaled f x y = sat_act-bounds _

pairs : (e0 e1 : ℕ) → e0 % 2 ≡ 0 → e1 % 2 ≡ 0 → 2 * (e1 / 2 - e0 / 2) ≡ e1 - e0
pairs e0 e1 h0 h1 = omega arith

abbrev pub limit_of : Bool → ℕ
limit_of small = if small then 16_383 else 2 ^ 15

limit-least : (small : Bool) → 8191 ≤ limit_of small
limit-least true = omega arith
limit-least false = omega arith

module _ (f : Factors) (a b out e0 e1 total : ℕ) where
  abbrev elements : Halfwords × ℕ → Halfwords × ℕ
  elements = for_range (e1 - e0) e0 (add_one (sum_by apply_multiplier f) a b out)

  -- What the three word loops have in common.
  words-elements :
      (limit : ℕ) (sum : ℤ → ℤ → ℤ) (s : Halfwords × ℕ)
      → IsSame limit sum (sum_by apply_multiplier f)
      → 8191 ≤ limit
      → (e0 % 2 ≡ 0) × (e1 % 2 ≡ 0)
      → (e0 ≤ e1) × (e1 ≤ total)
      → (a % 2 ≡ 0) × (b % 2 ≡ 0) × (out % 2 ≡ 0)
      → IsWithin total limit a b s.0
      → for_range (e1 / 2 - e0 / 2) (e0 / 2) (add_two sum a b out) s ≡ elements s
  words-elements limit sum s same hl (h0, h1) ht (ea, eb, eo) w =
      let plain = sum_by apply_multiplier f in
      let start : 2 * (e0 / 2) ≡ e0 = omega arith in
      for_range-add_two total limit a b sum plain out (e1 / 2 - e0 / 2) (e0 / 2) s same
        (λ x y. sum_by-bounds apply_multiplier f x y) hl (omega arith) ea eb eo w
      ∙ ap₂ (λ (n k : ℕ). for_range n k (add_one plain a b out) s) (pairs e0 e1 h0 h1) start

  -- Operands of int16 values, small where the flag says so, whole words, even indices, and shifts up to
  -- 47: each of the word loops leaves the memory and the largest |value| that the loop by elements
  -- leaves with apply_multiplier, even where the output overlaps an operand.
  pub add_range-elements :
      (small : Bool) (s : Halfwords × ℕ)
      → IsFactors f
      → (e0 % 2 ≡ 0) × (e1 % 2 ≡ 0)
      → (e0 ≤ e1) × (e1 ≤ total)
      → (a % 2 ≡ 0) × (b % 2 ≡ 0) × (out % 2 ≡ 0)
      → IsWithin total (limit_of small) a b s.0
      → add_range true small f a b out e0 e1 s ≡ add_range false small f a b out e0 e1 s
  unfolding add_range
  add_range-elements small s g even ht evens w = elim (Bool-cases (in_range f && small)) [
    | inl e ↦
        let set : small ≡ true = ground arith in
        let lo_a : 17 ≤ f.sa = ground arith in
        let lo_b : 17 ≤ f.sb = ground arith in
        let w' : IsWithin total 16_383 a b s.0 = rw set at w in
        rw e (
          words-elements 16_383 (sum_by scaled_small f) s (small-IsSame f g lo_a lo_b) (omega arith)
            even ht evens w')
    | inr e ↦ elim (Bool-cases (leb 17 f.sa && leb 17 f.sb)) [
      | inl h ↦
          let lo_a : 17 ≤ f.sa = ground arith in
          let lo_b : 17 ≤ f.sb = ground arith in
          rw (e, h)
            (words-elements (limit_of small) (sum_by scaled_high f) s
              (high-IsSame f g lo_a lo_b (limit_of small)) (limit-least small) even ht evens w)
      | inr h ↦
          rw (e, h)
            (words-elements (limit_of small) (sum_by apply_multiplier f) s (λ x y hx hy fx fy. refl)
              (limit-least small) even ht evens w)
    ]
  ]
