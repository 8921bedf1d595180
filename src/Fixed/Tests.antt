-- ===== src/Fixed/Tests.antt =====
-- Runs of the fixed-point helpers, and instances of their theorems.
use risc_v_vi_t_accelerator.Base.{
  ◌+◌, ◌*◌, ◌^◌, ◌≡◌, ◌≤◌, refl, arith, pos, negsuc, mag, i32, ◌+ℤ◌, ◌/ℤ◌, neg_ℤ, true, InInt32,
  mod_ℤ, ◌*ℤ◌,
}
use risc_v_vi_t_accelerator.Emulator.Decode.{zero_job}
use risc_v_vi_t_accelerator.Emulator.Round.{apply_mult}
use risc_v_vi_t_accelerator.Emulator.Requant.{requant_value}
use risc_v_vi_t_accelerator.Fixed.{apply_multiplier, sat_act, mean_q16, mean_mag, shr_round64}
use risc_v_vi_t_accelerator.Fixed.Multiplier.{apply_multiplier-apply_mult}
use risc_v_vi_t_accelerator.Fixed.Saturate.{requant_value-sat_act, requant_value-bounds}
use risc_v_vi_t_accelerator.Fixed.Mean.{mean_q16_lem, mean_mag-wraps}

shr_up : shr_round64 (negsuc 6) (pos 2) ≡ negsuc 1
unfolding shr_round64 ◌/ℤ◌ ◌+ℤ◌
shr_up = refl

apply_multiplier-apply_mult_example :
    apply_multiplier (negsuc 123_455) (pos 1_500_000_000) 40
    ≡ i32 (apply_mult (negsuc 123_455) (pos 1_500_000_000) 40)
apply_multiplier-apply_mult_example =
    apply_multiplier-apply_mult (negsuc 123_455) (pos 1_500_000_000) 40 (omega arith, omega arith)
      (omega arith, omega arith) (omega arith)

fits : InInt32 (apply_multiplier (pos 99_000) (pos 1_500_000_000) 35 +ℤ pos 7)
unfolding apply_multiplier ◌+ℤ◌ ◌/ℤ◌ i32 mod_ℤ ◌*ℤ◌
fits = (omega arith, omega arith)

requant_value-sat_act_example :
    requant_value zero_job (λ i. pos 0) (pos 1_500_000_000, pos 35, pos 7) (pos 99_000) (pos 0)
    ≡ sat_act (i32 (apply_multiplier (pos 99_000) (pos 1_500_000_000) 35 +ℤ pos 7))
requant_value-sat_act_example =
    requant_value-sat_act zero_job (λ i. pos 0) (pos 99_000) (pos 1_500_000_000) (pos 7) (pos 0) 35
      (omega arith, omega arith) (omega arith, omega arith) (omega arith) fits refl refl refl refl

requant_value-bounds_example :
    mag (
      requant_value
        (record zero_job { relu = true; add = true })
        (λ i. pos 0)
        (pos 1_500_000_000, pos 20, negsuc 7)
        (negsuc 99_000)
        (pos 500))
    ≤ 8191
requant_value-bounds_example =
    requant_value-bounds (record zero_job { relu = true; add = true }) (λ i. pos 0)
      (pos 1_500_000_000, pos 20, negsuc 7) (negsuc 99_000) (pos 500) refl refl

mean_q16_lem_example : mean_q16 (negsuc 999) 384 ≡ negsuc 170_666
unfolding neg_ℤ
mean_q16_lem_example = mean_q16_lem (negsuc 999) 384 (omega arith) (omega arith) (omega arith)

-- A sum inside the stated domain whose mean is lost: 2^20 over one channel.
mean_q16_lost : mean_q16 (pos 1_048_576) 1 ≡ pos 0
unfolding mean_q16 mean_mag
mean_q16_lost = refl

mean_mag-wraps_example : mean_mag (5 + 2 ^ 16 * 3) 3 ≡ mean_mag 5 3
mean_mag-wraps_example = mean_mag-wraps 5 3 (omega arith)
