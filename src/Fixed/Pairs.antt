-- ===== src/Fixed/Pairs.antt =====
-- Two int16 values in a word.
use risc_v_vi_t_accelerator.Base.{
  ℕ, ◌+◌, ◌*◌, ◌/◌, ◌%◌, ◌^◌, ◌<◌, ◌≡◌, ap, ◌∙◌, arith, ℤ, pos, negsuc, bit_or, bit_or_field,
  bits16, signed16, i16, i16_id, InInt16, mod_ℤ, u16, u32,
}
use risc_v_vi_t_accelerator.Fixed.{lo16, hi16, pack16}

pub bits16-lt : (z : ℤ) → bits16 z < 2 ^ 16
unfolding mod_ℤ
bits16-lt (pos n) = omega arith
bits16-lt (negsuc n) = omega arith

pub pack16_sum : (lo hi : ℤ) → pack16 lo hi ≡ bits16 hi * 2 ^ 16 + bits16 lo
unfolding pack16
pack16_sum lo hi =
    let low = bits16-lt lo in
    let high = bits16-lt hi in
    ap (λ (t : ℕ). bit_or t (bits16 lo)) {x = u32 (bits16 hi * 2 ^ 16)} {y = bits16 hi * 2 ^ 16}
      (omega arith)
    ∙ bit_or_field 16 (bits16 hi) (bits16 lo) low

pub signed16-bits16 : (z : ℤ) → InInt16 z → signed16 (bits16 z) ≡ z
unfolding i16
signed16-bits16 z h = i16_id z h

-- Two int16 values that are packed into a word are read back from its halves.
pub pack16-halves :
    (lo hi : ℤ) → InInt16 lo → InInt16 hi → (lo16 (pack16 lo hi) ≡ lo) × (hi16 (pack16 lo hi) ≡ hi)
unfolding lo16 hi16
pack16-halves lo hi hl hh =
    let low = bits16-lt lo in
    let high = bits16-lt hi in
    let sum = pack16_sum lo hi in
    (
      ap signed16 {x = pack16 lo hi % 2 ^ 16} {y = bits16 lo} (omega arith) ∙ signed16-bits16 lo hl,
      ap signed16 {x = u16 (pack16 lo hi / 2 ^ 16)} {y = bits16 hi} (omega arith)
          ∙ signed16-bits16 hi hh,
    )

signed16-bits : (w : ℕ) → w < 2 ^ 16 → bits16 (signed16 w) ≡ w
unfolding mod_ℤ
signed16-bits w h = ground arith

-- A word is what packing its two halves gives.
pack16-lo16-hi16 : (w : ℕ) → w < 2 ^ 32 → pack16 (lo16 w) (hi16 w) ≡ w
unfolding lo16 hi16
pack16-lo16-hi16 w h =
    let low = signed16-bits (w % 2 ^ 16) (omega arith) in
    let high = signed16-bits (u16 (w / 2 ^ 16)) (omega arith) in pack16_sum _ _ ∙ omega arith
