-- ===== src/Attention/Cutoff.antt =====
-- The distance from which softmax_p is 0 is never 0 itself.
use risc_v_vi_t_accelerator.Base.{
  ℕ, ◌≤◌, ◌<◌, ◌^◌, ◌≡◌, arith, Bool-cases, inl, inr, if◌then◌else◌, ℤ, pos, negsuc, pos_part,
  neg_part, mag, ◌+ℤ◌, ltb_ℤ, bits32, mod_ℤ,
}
use risc_v_vi_t_accelerator.Xf.{Scale, div, round, from_int, from_f32_bits}
use risc_v_vi_t_accelerator.Xf.Positive.{from_int-IsPositive, mul-mag, div-IsPositive, round-nonneg}
use risc_v_vi_t_accelerator.Attention.Softmax.{softmax_consts, exponent_factor}

exponent_factor-mag : (scale : Scale) (q_sh : ℕ) → mag (exponent_factor scale q_sh).m ≤ 2 ^ 31
unfolding exponent_factor
exponent_factor-mag scale q_sh = mul-mag _ (from_f32_bits 0x3fb8_aa3b)

after_rounding :
    (r : ℤ)
    → neg_part r ≡ 0
    → 0 < (if ltb_ℤ (r +ℤ pos 1) (pos 0xffff_ffff) then bits32 (r +ℤ pos 1) else 0xffff_ffff)
unfolding ◌+ℤ◌ mod_ℤ
after_rounding (pos n) h = ground arith
after_rounding (negsuc n) h = absurd (omega arith)

pub softmax_consts-pos : (scale : Scale) (q_sh : ℕ) → 0 < (softmax_consts scale q_sh).cutoff
unfolding softmax_consts
softmax_consts-pos scale q_sh = elim (Bool-cases (ltb_ℤ (pos 0) kf.m)) [
  | inl positive ↦
      let some_kf : 0 < pos_part kf.m = ground arith in
      let quotient =
        div-IsPositive (from_int (pos 16)) kf
          (from_int-IsPositive (pos 16) (omega arith) (omega arith)) some_kf
          (omega (arith, exponent_factor-mag scale q_sh)) in
      rw positive (
        after_rounding (round (div (from_int (pos 16)) kf) (pos 0))
          (round-nonneg (div (from_int (pos 16)) kf) (pos 0) quotient.0))
  | inr not_positive ↦ rw not_positive (omega arith)
]
  where
    kf : Scale
    kf = exponent_factor scale q_sh
