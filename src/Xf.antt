-- ===== src/Xf.antt =====
-- Real numbers without floating point: src/sw/project/dav2_xf.h. A scale stands for m 2^-sh. Sums
-- and differences of the int32_t exponents are exact.
pub mod Leading
pub mod Norm
pub mod Positive
pub mod Tests
use risc_v_vi_t_accelerator.Base.{
  ℕ, zero, suc, ◌+◌, ◌-◌, ◌*◌, ◌/◌, ◌%◌, ◌^◌, bit_and, bit_or, Bool, true, false, ◌&&◌, ◌||◌, not,
  ltb, leb, ◌==◌, if◌then◌else◌, u32, u64, ℤ, pos, negsuc, pos_part, neg_part, mag, ◌+ℤ◌, ◌-ℤ◌,
  ◌*ℤ◌, ◌/ℤ◌, neg_ℤ, ltb_ℤ, eqb_ℤ, bits32, bits64, signed32, i32, ◌>>ℤ◌, mod_ℤ,
}

-- dav2_xf_t
pub record Scale : Type 0 where
  pub m : ℤ
  pub sh : ℤ

-- XF_ZERO, XF_ONE
abbrev pub xf_zero : Scale
xf_zero = record { m = pos 0; sh = pos 0 }

abbrev pub xf_one : Scale
xf_one = record { m = pos 1_073_741_824; sh = pos 30 }

-- `if (!(x >> (32 - b))) { n += b; x <<= b; }`, the state being (n, x).
abbrev pub clz_step : ℕ → ℕ × ℕ → ℕ × ℕ
clz_step b (n, x) = if x / 2 ^ (32 - b) == 0 then (n + b, u32 (x * 2 ^ b)) else (n, x)

-- The binary search of xf_clz64, as it is compiled for the core.
unfoldable pub clz64 : ℕ → ℕ
clz64 a =
    let start = if a / 2 ^ 32 == 0 then (32, u32 a) else (0, a / 2 ^ 32) in
    let (n, x) = clz_step 2 (clz_step 4 (clz_step 8 (clz_step 16 start))) in
    n + (if x / 2 ^ 31 == 0 then 1 else 0)

-- `v < 0 ? -(int32_t)a : (int32_t)a` and its 64-bit kin.
abbrev pub with_sign : ℤ → ℤ → ℤ
with_sign v a = if ltb_ℤ v (pos 0) then neg_ℤ a else a

-- `v < 0 ? (uint64_t)0 - (uint64_t)v : (uint64_t)v`
abbrev pub magnitude64 : ℤ → ℕ
magnitude64 v = if ltb_ℤ v (pos 0) then u64 (2 ^ 64 - bits64 v) else bits64 v

-- The rounded mantissa and the shift of xf_norm, from a ≠ 0 and its leading zeros.
unfoldable pub norm_parts : ℕ → ℕ → ℕ × ℤ
norm_parts a c =
    if ltb c 33
    then (let r = u64 (a + 2 ^ (33 - c - 1)) / 2 ^ (33 - c) in
        if r / 2 ^ 31 == 0 then (r, pos (33 - c)) else (r / 2, pos (33 - c + 1)))
    else (u64 (a * 2 ^ (c - 33)), neg_ℤ (pos (c - 33)))

unfoldable pub norm : ℤ → ℤ → Scale
norm v sh =
    let a = magnitude64 v in
    let (r, s) = norm_parts a (clz64 a) in
    if eqb_ℤ v (pos 0) then xf_zero else record { m = with_sign v (signed32 (u32 r)); sh = sh -ℤ s }

unfoldable pub from_int : ℤ → Scale
from_int v = norm v (pos 0)

pub from_f32_bits : ℕ → Scale
from_f32_bits b =
    let e = bit_and (b / 2 ^ 23) 0xff in
    let mant = signed32 (u32 (bit_or (bit_and b 0x7fffff) 0x800000 * 2 ^ 7)) in
    if e == 0
    then xf_zero
    else record { m = if b / 2 ^ 31 == 0 then mant else neg_ℤ mant; sh = pos 157 -ℤ pos e }

unfoldable pub mul : Scale → Scale → Scale
mul a b =
    if eqb_ℤ a.m (pos 0) || eqb_ℤ b.m (pos 0) then xf_zero else norm (a.m *ℤ b.m) (a.sh +ℤ b.sh)

-- `(am + ((int64_t)1 << (s - 1))) >> s` of a magnitude, with the sign put back.
abbrev pub round_away : ℤ → ℕ → ℤ
round_away v s = with_sign v (pos ((mag v + 2 ^ (s - 1)) / 2 ^ s))

-- B of xf_add: the smaller operand at the exponent of the larger one, d exponents away.
unfoldable pub align_addend : ℤ → ℕ → ℤ
align_addend m d =
    if leb d 31
    then m *ℤ pos (2 ^ (31 - d))
    else if ltb (d - 31) 40
    then round_away m (d - 31)
    else pos 0

abbrev pub leb_ℤ : ℤ → ℤ → Bool
leb_ℤ a b = not (ltb_ℤ b a)

unfoldable pub add_ordered : Scale → Scale → Scale
add_ordered hi lo =
    norm (hi.m *ℤ pos (2 ^ 31) +ℤ align_addend lo.m (pos_part (lo.sh -ℤ hi.sh))) (hi.sh +ℤ pos 31)

unfoldable pub add : Scale → Scale → Scale
add a b =
    if eqb_ℤ a.m (pos 0)
    then b
    else if eqb_ℤ b.m (pos 0)
    then a
    else if leb_ℤ a.sh b.sh
    then add_ordered a b
    else add_ordered b a

pub neg : Scale → Scale
neg a = record a { m = neg_ℤ a.m }

pub abs : Scale → Scale
abs a = record a { m = if ltb_ℤ a.m (pos 0) then neg_ℤ a.m else a.m }

pub cmp_abs : Scale → Scale → ℤ
cmp_abs a b =
    if eqb_ℤ a.m (pos 0)
    then if eqb_ℤ b.m (pos 0) then pos 0 else negsuc 0
    else if eqb_ℤ b.m (pos 0)
    then pos 1
    else if not (eqb_ℤ a.sh b.sh)
    then if ltb_ℤ a.sh b.sh then pos 1 else negsuc 0
    else if ltb (mag b.m) (mag a.m)
    then pos 1
    else if ltb (mag a.m) (mag b.m)
    then negsuc 0
    else pos 0

unfoldable pub recip : Scale → Scale
recip a =
    let x = mag a.m in
    let r = norm (pos ((2 ^ 61 + x / 2) / x)) (pos 61 -ℤ a.sh) in
    record r { m = if ltb_ℤ a.m (pos 0) then neg_ℤ r.m else r.m }

unfoldable pub div : Scale → Scale → Scale
div a b = mul a (recip b)

-- xf_round(a, k), for k of either sign.
pub round : Scale → ℤ → ℤ
round a k =
    let s = a.sh -ℤ k in
    if eqb_ℤ a.m (pos 0) || ltb_ℤ (pos 62) s
    then pos 0
    else if leb_ℤ s (pos 0)
    then a.m *ℤ pos (2 ^ (if ltb 32 (neg_part s) then 32 else neg_part s))
    else round_away a.m (pos_part s)

-- One Newton step of xf_rsqrt.
pub rsqrt_step : ℕ → ℕ → ℕ
rsqrt_step x y =
    let y2 = u32 (y * y / 2 ^ 30) in
    let xy2 = u32 (x * y2 / 2 ^ 30) in u32 (y * u32 (u32 (3 * 2 ^ 30) + 2 ^ 32 - xy2) / 2 ^ 31)

pub rsqrt_steps : ℕ → ℕ → ℕ → ℕ
rsqrt_steps zero x y = y
rsqrt_steps (suc n) x y = rsqrt_steps n x (rsqrt_step x y)

-- `E / 2` after E has been made even.
pub rsqrt : Scale → Scale
rsqrt a =
    let e = pos 30 -ℤ a.sh in
    let odd = mod_ℤ e 2 == 1 in
    let x = if odd then u32 (2 * bits32 a.m) else bits32 a.m in
    let even = if odd then e -ℤ pos 1 else e in
    let y = u32 (2 ^ 30 + 2 ^ 32 - u32 (x + 2 ^ 32 - 2 ^ 30) / 6) in
    norm (pos (rsqrt_steps 5 x y)) (pos 30 +ℤ even /ℤ 2)

unfoldable pub to_mult : Scale → ℤ × ℕ
to_mult a =
    if leb_ℤ a.m (pos 0) || ltb_ℤ (pos 62) a.sh
    then (pos 0, 0)
    else if ltb_ℤ a.sh (pos 0)
    then (pos 2_147_483_647, 0)
    else (a.m, pos_part a.sh)
