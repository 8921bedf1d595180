-- ===== src/Copy.antt =====
-- The word-wise copies of src/sw/project/dav2_ops.c (dav2_copy16, dav2_zero16). Memory is a map from
-- halfword indices to halfwords: an int16_t pointer is the index of its element, and it is word
-- aligned when the index is even.
pub mod Memory
pub mod Regions
pub mod Rounds
pub mod Laws
pub mod Tests
use risc_v_vi_t_accelerator.Base.{
  ℕ, zero, suc, ◌+◌, ◌-◌, ◌*◌, ◌/◌, ◌%◌, bit_or, ◌==◌, leb, if◌then◌else◌,
}
use risc_v_vi_t_accelerator.Copy.Memory.{Halfwords, store16, load32, store32}

-- `for (; w >= 4; w -= 4)`: four words are read before any of them is written.
pub copy_fours : ℕ → ℕ → ℕ → ℕ → Halfwords → (ℕ × ℕ × ℕ × Halfwords)
copy_fours zero d q w mem = (d, q, w, mem)
copy_fours (suc fuel) d q w mem =
    let a = load32 mem q in
    let b = load32 mem (q + 2) in
    let c = load32 mem (q + 4) in
    let e = load32 mem (q + 6) in
    let mem' = store32 (store32 (store32 (store32 mem d a) (d + 2) b) (d + 4) c) (d + 6) e in
    let rest = copy_fours fuel (d + 8) (q + 8) (w - 4) mem' in
    if leb 4 w then rest else (d, q, w, mem)

-- `for (; w; w--) *d++ = *q++;` over words
pub copy_words : ℕ → ℕ → ℕ → Halfwords → Halfwords
copy_words zero d q mem = mem
copy_words (suc w) d q mem = copy_words w (d + 2) (q + 2) (store32 mem d (load32 mem q))

-- `for (; n; n--) *dst++ = *src++;` over int16 elements
pub copy_halves : ℕ → ℕ → ℕ → Halfwords → Halfwords
copy_halves zero dst src mem = mem
copy_halves (suc n) dst src mem = copy_halves n (dst + 1) (src + 1) (store16 mem dst (mem src))

-- The condition `((dst | src) & 3) == 0` on byte addresses: the lowest bit of both indices is clear.
pub copy16 : ℕ → ℕ → ℕ → Halfwords → Halfwords
copy16 dst src n mem =
    if bit_or dst src % 2 == 0
    then (let (d, q, w, mem1) = copy_fours (n / 2) dst src (n / 2) mem in
        let mem2 = copy_words w d q mem1 in
        if n % 2 == 1 then store16 mem2 (d + 2 * w) (mem2 (q + 2 * w)) else mem2)
    else copy_halves n dst src mem

pub zero_words : ℕ → ℕ → Halfwords → Halfwords
zero_words zero d mem = mem
zero_words (suc w) d mem = zero_words w (d + 2) (store32 mem d 0)

pub zero_halves : ℕ → ℕ → Halfwords → Halfwords
zero_halves zero dst mem = mem
zero_halves (suc n) dst mem = zero_halves n (dst + 1) (store16 mem dst 0)

pub zero16 : ℕ → ℕ → Halfwords → Halfwords
zero16 dst n mem =
    if dst % 2 == 0
    then (let mem1 = zero_words (n / 2) dst mem in
        if n % 2 == 1 then store16 mem1 (dst + 2 * (n / 2)) 0 else mem1)
    else zero_halves n dst mem
