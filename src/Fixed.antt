-- ===== src/Fixed.antt =====
-- The fixed-point helpers of src/sw/project/dav2_ops.c. A shift count is a number; the sums that C
-- does in int32_t or int64_t without a cast are exact.
pub mod Product
pub mod Words
pub mod Multiplier
pub mod Saturate
pub mod Mean
pub mod Pairs
pub mod Tests
use risc_v_vi_t_accelerator.Base.{
  ℕ, ◌+◌, ◌-◌, ◌*◌, ◌/◌, ◌%◌, ◌^◌, bit_or, Bool, ltb, leb, ◌==◌, if◌then◌else◌, u16, u32, ℤ, pos,
  pos_part, neg_part, mag, ◌+ℤ◌, ◌*ℤ◌, neg_ℤ, ltb_ℤ, bits16, bits32, signed16, signed32, i32, ◌>>ℤ◌,
  ◌-ℤ◌, bits16, i16, zero, suc, negsuc, ◌&&◌, not,
}
use risc_v_vi_t_accelerator.Xf.{Scale, leb_ℤ, round_away}

-- The end of apply_multiplier for shifts of 1 to 32: the rounding constant is added to the low word
-- of the product, its carry to the high word, and the two words are shifted right together.
pub combine_words : ℤ → ℕ → ℕ → ℤ
combine_words hi lo shift =
    let lo2 = u32 (lo + 2 ^ (shift - 1)) in
    let hi2 = hi +ℤ pos (if ltb lo2 lo then 1 else 0) in
    signed32 (bit_or (u32 (bits32 hi2 * 2 ^ (32 - shift))) (lo2 / 2 ^ (shift - 1) / 2))

pub apply_multiplier : ℤ → ℤ → ℕ → ℤ
apply_multiplier acc mult shift =
    let hi = i32 ((acc *ℤ mult) >>ℤ 32) in
    if leb 33 shift
    then (hi +ℤ pos (2 ^ (shift - 33))) >>ℤ (shift - 32)
    else (let lo = u32 (bits32 acc * bits32 mult) in
        if shift == 0 then signed32 lo else combine_words hi lo shift)

-- sat_act: DAV2_ACT_QMAX is 8191.
unfoldable pub sat_act : ℤ → ℤ
sat_act v =
    if ltb_ℤ (pos 8191) v then pos 8191 else if ltb_ℤ v (negsuc 8190) then negsuc 8190 else i16 v

unfoldable pub mulh32 : ℤ → ℤ → ℤ
mulh32 a b = i32 (a *ℤ b >>ℤ 32)

-- mul_hi_round, with the rounding constant and the shift that the caller computed.
unfoldable pub mul_hi_round : ℤ → ℤ → ℤ → ℕ → ℤ
mul_hi_round d mult rnd s = mulh32 d mult +ℤ rnd >>ℤ s

-- sat_i32
unfoldable pub sat_i32 : ℤ → ℤ
sat_i32 v =
    if ltb_ℤ (pos 2_147_483_647) v
    then pos 2_147_483_647
    else if ltb_ℤ v (negsuc 2_147_483_646)
    then negsuc 2_147_483_646
    else i32 v

-- The magnitude of the mean, in Q16, and mean_q16 itself: unsigned arithmetic wraps around.
unfoldable pub mean_mag : ℕ → ℕ → ℕ
mean_mag u c =
    let q = u / c in
    let r = u - q * c in u32 (u32 (q * 2 ^ 16) + u32 (u32 (r * 2 ^ 16) + c / 2) / c)

unfoldable pub mean_q16 : ℤ → ℕ → ℤ
mean_q16 sum c = let m = signed32 (mean_mag (mag sum) c) in if ltb_ℤ sum (pos 0) then neg_ℤ m else m

-- align_mant(v, e), for an exponent e ≤ v.sh.
pub align_mant : Scale → ℤ → ℤ
align_mant v e =
    let d = v.sh -ℤ e in
    if ltb_ℤ (pos 31) d then if ltb_ℤ v.m (pos 0) then negsuc 0 else pos 0 else v.m >>ℤ pos_part d

-- The left shifts of shr_round64: one bit in a round, until the limit 2^62 is met.
pub shl_sat : ℕ → ℤ → ℤ
shl_sat zero v = v
shl_sat (suc n) v =
    let rest = shl_sat n (v *ℤ pos 2) in
    if leb_ℤ (pos (2 ^ 61)) v
    then pos (2 ^ 62)
    else if leb_ℤ v (neg_ℤ (pos (2 ^ 61)))
    then neg_ℤ (pos (2 ^ 62))
    else rest

pub shr_round64 : ℤ → ℤ → ℤ
shr_round64 v s =
    if ltb_ℤ (pos 62) s
    then pos 0
    else if ltb_ℤ (pos 0) s
    then v +ℤ pos (2 ^ (pos_part s - 1)) >>ℤ pos_part s
    else shl_sat (neg_part s) v

-- lo16, hi16, pack16
unfoldable pub lo16 : ℕ → ℤ
lo16 w = signed16 (w % 2 ^ 16)

unfoldable pub hi16 : ℕ → ℤ
hi16 w = signed16 (u16 (w / 2 ^ 16))

unfoldable pub pack16 : ℤ → ℤ → ℕ
pack16 lo hi = bit_or (u32 (bits16 hi * 2 ^ 16)) (bits16 lo)

-- `words_ok`: three word-aligned addresses and an even count.
unfoldable pub words_ok : ℕ → ℕ → ℕ → ℕ → Bool
words_ok p q r total = (bit_or (bit_or p q) r % 4 == 0) && (total % 2 == 0)

-- mul_xf_round(v, s, k)
pub mul_xf_round : ℤ → Scale → ℤ → ℤ
mul_xf_round v s k =
    let p = v *ℤ s.m in
    let sh = s.sh -ℤ k in
    if leb_ℤ sh (pos 0)
    then p *ℤ pos (2 ^ (if ltb 20 (neg_part sh) then 20 else neg_part sh))
    else if ltb_ℤ (pos 62) sh
    then pos 0
    else round_away p (pos_part sh)
