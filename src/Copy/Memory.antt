-- ===== src/Copy/Memory.antt =====
-- Memory in halfwords, and the two-halfword accesses of a word.
use risc_v_vi_t_accelerator.Base.{ℕ, ◌+◌, ◌*◌, ◌/◌, ◌%◌, ◌^◌, ◌<◌, ◌==◌, if◌then◌else◌}

abbrev pub Halfwords : Type 0
Halfwords = ℕ → ℕ

abbrev pub store16 : Halfwords → ℕ → ℕ → Halfwords
store16 mem i v j = if i == j then v % 2 ^ 16 else mem j

-- A word is little-endian: the halfword at the lower index is its low half.
abbrev pub load32 : Halfwords → ℕ → ℕ
load32 mem i = mem i + 2 ^ 16 * mem (i + 1)

abbrev pub store32 : Halfwords → ℕ → ℕ → Halfwords
store32 mem i v = store16 (store16 mem i (v % 2 ^ 16)) (i + 1) (v / 2 ^ 16)

-- Every cell holds a halfword.
abbrev pub IsHalfwords : Halfwords → Type 0
IsHalfwords mem = (j : ℕ) → mem j < 2 ^ 16
