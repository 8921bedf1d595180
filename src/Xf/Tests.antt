-- ===== src/Xf/Tests.antt =====
-- Runs of the scale arithmetic, and instances of its theorems.
use risc_v_vi_t_accelerator.Base.{
  ◌*◌, ◌^◌, ◌≡◌, ◌≤◌, ◌<◌, refl, arith, pos, negsuc, ◌+ℤ◌, ◌*ℤ◌, ◌-ℤ◌, ◌/ℤ◌, mod_ℤ, neg_ℤ,
}
use risc_v_vi_t_accelerator.Xf.{
  Scale, xf_one, norm_parts, add_ordered, align_addend, rsqrt_steps, rsqrt_step, clz64, norm, mul,
  add, recip, round, rsqrt, from_int, from_f32_bits,
}
use risc_v_vi_t_accelerator.Xf.Leading.{clz64-top}
use risc_v_vi_t_accelerator.Xf.Norm.{IsRounded, norm-IsRounded, mul-IsRounded}

abbrev three : Scale
three = record { m = pos 1_610_612_736; sh = pos 29 }

from_three : from_int (pos 3) ≡ three
unfolding from_int norm norm_parts ◌-ℤ◌ clz64 mod_ℤ neg_ℤ
from_three = refl

-- 1.5 as a float32
from_float : from_f32_bits 0x3fc0_0000 ≡ record { m = pos 1_610_612_736; sh = pos 30 }
unfolding from_f32_bits ◌-ℤ◌
from_float = refl

third : recip three ≡ record { m = pos 1_431_655_765; sh = pos 32 }
unfolding recip norm norm_parts ◌-ℤ◌ clz64 mod_ℤ neg_ℤ
third = refl

four : round (add three xf_one) (pos 0) ≡ pos 4
unfolding add add_ordered align_addend norm round norm_parts ◌-ℤ◌ clz64 mod_ℤ neg_ℤ ◌+ℤ◌ ◌*ℤ◌
four = refl

-- 1 / sqrt(1), to the last place
root : rsqrt xf_one ≡ record { m = pos 1_073_741_824; sh = pos 30 }
unfolding rsqrt rsqrt_steps rsqrt_step norm norm_parts ◌-ℤ◌ clz64 mod_ℤ neg_ℤ ◌+ℤ◌ ◌*ℤ◌ ◌/ℤ◌
root = refl

clz64-top_example : (2 ^ 63 ≤ 1000 * 2 ^ clz64 1000) × (1000 * 2 ^ clz64 1000 < 2 ^ 64)
clz64-top_example = clz64-top 1000 (omega arith) (omega arith)

norm-IsRounded_example :
    IsRounded (negsuc 9_999_999_999) (pos 3) (norm (negsuc 9_999_999_999) (pos 3))
norm-IsRounded_example =
    norm-IsRounded (negsuc 9_999_999_999) (pos 3) (λ e. absurd (grind arith)) (omega arith)

mul-IsRounded_example :
    IsRounded (pos 1_610_612_736 *ℤ pos 1_610_612_736) (pos 29 +ℤ pos 29) (mul three three)
mul-IsRounded_example =
    mul-IsRounded three three (λ e. absurd (grind arith)) (λ e. absurd (grind arith)) (omega arith)
      (omega arith)
