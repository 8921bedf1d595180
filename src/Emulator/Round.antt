-- ===== src/Emulator/Round.antt =====
-- apply_mult of src/sw/project/host/accel_emu.c: the requantisation's rounding, in 64-bit arithmetic.
use risc_v_vi_t_accelerator.Base.{ℕ, ◌-◌, ◌^◌, ltb, if◌then◌else◌, ℤ, pos, ◌+ℤ◌, ◌*ℤ◌, ◌>>ℤ◌}

unfoldable pub apply_mult : ℤ → ℤ → ℕ → ℤ
apply_mult v mult sh = let r = v *ℤ mult in (if ltb 0 sh then r +ℤ pos (2 ^ (sh - 1)) else r) >>ℤ sh
