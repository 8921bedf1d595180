-- ===== src/Relu.antt =====
-- The ReLU of src/sw/project/dav2_ops.c (dav2_relu, dav2_copy_relu), two int16 values in a word where
-- the addresses allow it. Memory is in halfwords, as for the copies.
pub mod Words
pub mod Laws
pub mod Tests
use risc_v_vi_t_accelerator.Base.{
  ℕ, zero, suc, ◌+◌, ◌-◌, ◌*◌, ◌/◌, ◌%◌, ◌^◌, bit_and, bit_or, bit_xor, ltb, ◌==◌, ◌&&◌,
  if◌then◌else◌,
}
use risc_v_vi_t_accelerator.Copy.Memory.{Halfwords, store16, load32, store32}

-- `((x >> 15) & 1u) * 0xffffu | ((x >> 31) & 1u) * 0xffff0000u`
pub sign_mask : ℕ → ℕ
sign_mask x = bit_or (x / 2 ^ 15 % 2 * 0xffff) (x / 2 ^ 31 % 2 * 0xffff_0000)

-- `x & ~mask`
pub clear_signs : ℕ → ℕ
clear_signs x = bit_and x (bit_xor (sign_mask x) 0xffff_ffff)

abbrev pub larger : ℕ → ℕ → ℕ
larger v omax = if ltb omax v then v else omax

-- A word of two values; the store is skipped where nothing changes.
pub relu_words : ℕ → ℕ → Halfwords × ℕ → Halfwords × ℕ
relu_words zero d s = s
relu_words (suc n) d (mem, omax) =
    let x = load32 mem d in
    let y = if sign_mask x == 0 then x else clear_signs x in
    let mem' = if sign_mask x == 0 then mem else store32 mem d y in
    relu_words n (d + 2) (mem', larger (y / 2 ^ 16) (larger (y % 2 ^ 16) omax))

pub relu_halves : ℕ → ℕ → Halfwords × ℕ → Halfwords × ℕ
relu_halves zero d s = s
relu_halves (suc n) d (mem, omax) =
    let mem' = if ltb (mem d) (2 ^ 15) then mem else store16 mem d 0 in
    relu_halves n (d + 1) (mem', larger (mem' d) omax)

-- dav2_relu on `total` values at v: memory and the amax_q of the tensor. The test is words_ok of the
-- one address.
pub relu : ℕ → ℕ → Halfwords → Halfwords × ℕ
relu v total mem =
    if (v % 2 == 0) && (total % 2 == 0)
    then relu_words (total / 2) v (mem, 0)
    else relu_halves total v (mem, 0)

pub copy_relu_words : ℕ → ℕ → ℕ → Halfwords × ℕ → Halfwords × ℕ
copy_relu_words zero d q s = s
copy_relu_words (suc n) d q (mem, omax) =
    let y = clear_signs (load32 mem q) in
    copy_relu_words n (d + 2) (q + 2)
      (store32 mem d y, larger (y / 2 ^ 16) (larger (y % 2 ^ 16) omax))

pub copy_relu_halves : ℕ → ℕ → ℕ → Halfwords × ℕ → Halfwords × ℕ
copy_relu_halves zero d q s = s
copy_relu_halves (suc n) d q (mem, omax) =
    let y = if ltb (mem q) (2 ^ 15) then mem q else 0 in
    copy_relu_halves n (d + 1) (q + 1) (store16 mem d y, larger y omax)

-- dav2_copy_relu: the values and amax_q of the destination.
pub copy_relu : ℕ → ℕ → ℕ → Halfwords → Halfwords × ℕ
copy_relu dst src total mem =
    if (bit_or dst src % 2 == 0) && (total % 2 == 0)
    then copy_relu_words (total / 2) dst src (mem, 0)
    else copy_relu_halves total dst src (mem, 0)
