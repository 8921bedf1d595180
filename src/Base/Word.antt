-- ===== src/Base/Word.antt =====
-- Machine words. A signed value is a ℤ and an unsigned one an ℕ; the casts of C wrap around, and
-- what C leaves undefined (a signed overflow) is exact here.
use Prim.Native.Nat.{ℕ, ◌-◌, ◌%◌, ◌^◌, ◌≤◌, ◌<◌}
use mathlib.Core.Path.{◌≡◌}
use native.Mathlib.Omega.{arith}
use risc_v_vi_t_accelerator.Base.Tests.{ltb, if◌then◌else◌}
use risc_v_vi_t_accelerator.Base.Int.{ℤ, pos, negsuc, pos_part, neg_part, ◌/ℤ◌, ◌*ℤ◌, mod_ℤ}

abbrev pub u8 : ℕ → ℕ
u8 n = n % 2 ^ 8

abbrev pub u16 : ℕ → ℕ
u16 n = n % 2 ^ 16

abbrev pub u32 : ℕ → ℕ
u32 n = n % 2 ^ 32

abbrev pub u64 : ℕ → ℕ
u64 n = n % 2 ^ 64

-- The bit pattern of a signed value: the casts `(uint16_t)x`, `(uint32_t)x` and `(uint64_t)x`.
abbrev pub bits16 : ℤ → ℕ
bits16 z = mod_ℤ z (2 ^ 16)

abbrev pub bits32 : ℤ → ℕ
bits32 z = mod_ℤ z (2 ^ 32)

abbrev pub bits64 : ℤ → ℕ
bits64 z = mod_ℤ z (2 ^ 64)

-- The signed value of a bit pattern of the width.
abbrev pub signed8 : ℕ → ℤ
signed8 w = if ltb w (2 ^ 7) then pos w else negsuc (2 ^ 8 - w - 1)

abbrev pub signed16 : ℕ → ℤ
signed16 w = if ltb w (2 ^ 15) then pos w else negsuc (2 ^ 16 - w - 1)

abbrev pub signed32 : ℕ → ℤ
signed32 w = if ltb w (2 ^ 31) then pos w else negsuc (2 ^ 32 - w - 1)

-- The casts `(int16_t)x` and `(int32_t)x` of a signed value.
unfoldable pub i16 : ℤ → ℤ
i16 z = signed16 (bits16 z)

unfoldable pub i32 : ℤ → ℤ
i32 z = signed32 (bits32 z)

-- `x >> k` of a signed value: the arithmetic shift.
infixl 60 ◌>>ℤ◌ ◌<<ℤ◌
abbrev pub ◌>>ℤ◌ : ℤ → ℕ → ℤ
z >>ℤ k = z /ℤ 2 ^ k

abbrev pub ◌<<ℤ◌ : ℤ → ℕ → ℤ
z <<ℤ k = z *ℤ pos (2 ^ k)

abbrev pub InInt16 : ℤ → Type 0
InInt16 z = (pos_part z < 2 ^ 15) × (neg_part z ≤ 2 ^ 15)

abbrev pub InInt32 : ℤ → Type 0
InInt32 z = (pos_part z < 2 ^ 31) × (neg_part z ≤ 2 ^ 31)

-- A cast to the type's own width changes nothing.
pub i32_id : (z : ℤ) → InInt32 z → i32 z ≡ z
unfolding i32 mod_ℤ
i32_id (pos n) h = ground arith
i32_id (negsuc n) h = ground arith

pub i16_id : (z : ℤ) → InInt16 z → i16 z ≡ z
unfolding i16 mod_ℤ
i16_id (pos n) h = ground arith
i16_id (negsuc n) h = ground arith

pub i32-InInt32 : (z : ℤ) → InInt32 (i32 z)
unfolding i32 mod_ℤ
i32-InInt32 (pos n) = ground arith
i32-InInt32 (negsuc n) = ground arith

pub i16-InInt16 : (z : ℤ) → InInt16 (i16 z)
unfolding i16 mod_ℤ
i16-InInt16 (pos n) = ground arith
i16-InInt16 (negsuc n) = ground arith
