-- ===== src/Fixed/Saturate.antt =====
-- The saturated result of a requantisation, in the engine and in the accelerator's model.
use risc_v_vi_t_accelerator.Base.{
  ℕ, ◌-◌, ◌^◌, ◌≤◌, ◌≡◌, refl, sym, ap, ◌∙◌, arith, Bool, true, false, ℤ, pos, negsuc, pos_part,
  mag, ◌+ℤ◌, neg_ℤ, ltb_ℤ, InInt32, i16, if◌then◌else◌, i32, i32_id, le→leb, mod_ℤ, ◌&&◌,
}
use risc_v_vi_t_accelerator.Emulator.{Job, Ints, bits_at}
use risc_v_vi_t_accelerator.Emulator.Round.{apply_mult}
use risc_v_vi_t_accelerator.Emulator.Requant.{clamp, requant_value, through_table}
use risc_v_vi_t_accelerator.Fixed.{apply_multiplier, sat_act, mul_hi_round, mulh32}
use risc_v_vi_t_accelerator.Fixed.Multiplier.{apply_multiplier-apply_mult}

clamp-sat_act : (v : ℤ) → clamp (pos 8191) v ≡ sat_act v
unfolding clamp sat_act neg_ℤ i16 mod_ℤ
clamp-sat_act (pos n) = ground arith
clamp-sat_act (negsuc n) = ground arith

pub sat_act-bounds : (v : ℤ) → mag (sat_act v) ≤ 8191
unfolding sat_act i16 mod_ℤ
sat_act-bounds (pos n) = ground arith
sat_act-bounds (negsuc n) = ground arith

-- A job without the residual, the ReLU, the table and the 16-bit limit gives the value that the
-- engine computes in software, sat_act of the 32-bit sum of apply_multiplier and the offset: for
-- every int32 accumulator, int32 multiplier and shift of at most 62 for which that 32-bit sum does
-- not overflow (on overflow the two differ, since the accelerator adds in 64 bits).
pub requant_value-sat_act :
    (j : Job) (tab : Ints) (acc mult offset x : ℤ) (shift : ℕ)
    → InInt32 acc
    → InInt32 mult
    → shift ≤ 62
    → InInt32 (apply_multiplier acc mult shift +ℤ offset)
    → j.sat16 ≡ false
    → j.add ≡ false
    → j.relu ≡ false
    → j.lut ≡ false
    → requant_value j tab (mult, pos shift, offset) acc x
      ≡ sat_act (i32 (apply_multiplier acc mult shift +ℤ offset))
unfolding requant_value through_table
requant_value-sat_act j tab acc mult offset x shift ha hm hs fits h16 hadd hrelu hlut =
    rw (hlut, hrelu, hadd, h16)
      (clamp-sat_act (i32 (apply_mult acc mult shift) +ℤ offset)
        ∙ ap (λ (r : ℤ). sat_act (r +ℤ offset))
            (sym (apply_multiplier-apply_mult acc mult shift ha hm hs))
        ∙ ap sat_act (sym (i32_id (apply_multiplier acc mult shift +ℤ offset) fits)))

-- For shifts of 33 to 62 the short form that the row kernels inline is apply_multiplier.
mul_hi_round-apply_multiplier :
    (d mult : ℤ) (shift : ℕ)
    → 33 ≤ shift
    → mul_hi_round d mult (pos (2 ^ (shift - 33))) (shift - 32) ≡ apply_multiplier d mult shift
unfolding mul_hi_round mulh32 apply_multiplier
mul_hi_round-apply_multiplier d mult shift h = rw (le→leb 33 shift h) refl

relu-bounds : (b : Bool) (v : ℤ) → mag v ≤ 8191 → mag (if b then pos 0 else v) ≤ 8191
relu-bounds true v h = omega arith
relu-bounds false v h = h

choice-bounds : (b : Bool) (v w : ℤ) → mag v ≤ 8191 → mag w ≤ 8191 → mag (if b then v else w) ≤ 8191
choice-bounds true v w hv hw = hv
choice-bounds false v w hv hw = hw

clamp-bounds : (v : ℤ) → mag (clamp (pos 8191) v) ≤ 8191
clamp-bounds v = rw (clamp-sat_act v) (sat_act-bounds v)

-- Without the table and the 16-bit limit, whatever the accumulator, the parameters and the residual,
-- with or without the add and the ReLU, an output is an activation: of magnitude at most 8191.
pub requant_value-bounds :
    (j : Job) (tab : Ints) (params : ℤ × ℤ × ℤ) (acc x : ℤ)
    → j.sat16 ≡ false
    → j.lut ≡ false
    → mag (requant_value j tab params acc x) ≤ 8191
unfolding requant_value through_table
requant_value-bounds j tab (mult, sh, offset) acc x h16 hlut =
    let r1 = clamp (pos 8191) (i32 (apply_mult acc mult (pos_part sh)) +ℤ offset) in
    let sum =
      i32 (apply_mult x (pos j.add_mx) (bits_at j.add_shift 0 6))
      +ℤ i32 (apply_mult r1 (pos j.add_mh) (bits_at j.add_shift 8 6)) in
    let r2 = if j.add then clamp (pos 8191) sum else r1 in
    let chosen =
      choice-bounds j.add (clamp (pos 8191) sum) r1 (clamp-bounds sum) (clamp-bounds _) in
    rw (hlut, h16) (relu-bounds (j.relu && ltb_ℤ r2 (pos 0)) r2 chosen)
