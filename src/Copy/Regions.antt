-- ===== src/Copy/Regions.antt =====
-- What a copy between two parts of memory is, how copies join, and the plain loops of copy16.
use risc_v_vi_t_accelerator.Base.{
  ℕ, zero, suc, ◌+◌, ◌-◌, ◌*◌, ◌≤◌, ◌≡◌, ◌⊎◌, arith, leb, ltb, ◌&&◌, if◌then◌else◌,
}
use risc_v_vi_t_accelerator.Copy.{copy_words, copy_halves}
use risc_v_vi_t_accelerator.Copy.Memory.{Halfwords, store16, load32, store32, IsHalfwords}

-- `out` is `mem` with the n elements at src copied to dst.
abbrev pub IsCopied : ℕ → ℕ → ℕ → Halfwords → Halfwords → Type 0
IsCopied dst src n mem out =
    (j : ℕ) → out j ≡ (if leb dst j && ltb j (dst + n) then mem (src + (j - dst)) else mem j)

-- The n elements at dst and those at src have none in common.
abbrev pub Apart : ℕ → ℕ → ℕ → Type 0
Apart dst src n = (dst + n ≤ src) ⊎ (src + n ≤ dst)

-- A copy of k elements followed by a copy of the n after them.
pub IsCopied-join :
    (dst src k n : ℕ) (mem mid out : Halfwords)
    → Apart dst src (k + n)
    → IsCopied dst src k mem mid
    → IsCopied (dst + k) (src + k) n mid out
    → IsCopied dst src (k + n) mem out
IsCopied-join dst src k n mem mid out apart p q j =
    ground (arith, q j, p j, p (src + k + (j - (dst + k))))

-- The same, where the pointers and the total are known by equations.
pub IsCopied-then :
    (dst src k n d q total : ℕ) (mem mid out : Halfwords)
    → d ≡ dst + k
    → q ≡ src + k
    → total ≡ k + n
    → Apart dst src total
    → IsCopied dst src k mem mid
    → IsCopied d q n mid out
    → IsCopied dst src total mem out
IsCopied-then dst src k n d q total mem mid out ed eq et apart p r j =
    ground (arith, r j, p j, p (q + (j - d)))

pub store16-IsHalfwords :
    (mem : Halfwords) (i v : ℕ) → IsHalfwords mem → IsHalfwords (store16 mem i v)
store16-IsHalfwords mem i v hw j = ground (arith, hw j)

pub copy_half-IsCopied :
    (dst src : ℕ) (mem : Halfwords)
    → IsHalfwords mem
    → IsCopied dst src 1 mem (store16 mem dst (mem src))
copy_half-IsCopied dst src mem hw j = ground (arith, hw src)

pub copy_word-IsCopied :
    (dst src : ℕ) (mem : Halfwords)
    → IsHalfwords mem
    → IsCopied dst src 2 mem (store32 mem dst (load32 mem src))
copy_word-IsCopied dst src mem hw j = ground (arith, hw src, hw (src + 1))

pub copy_halves-IsCopied :
    (n dst src : ℕ) (mem : Halfwords)
    → IsHalfwords mem
    → Apart dst src n
    → IsCopied dst src n mem (copy_halves n dst src mem)
unfolding copy_halves
copy_halves-IsCopied zero dst src mem hw apart j = ground arith
copy_halves-IsCopied (suc n) dst src mem hw apart j =
    let mid = store16 mem dst (mem src) in
    let joined =
      IsCopied-join dst src 1 n mem mid (copy_halves n (dst + 1) (src + 1) mid) (omega arith)
        (copy_half-IsCopied dst src mem hw)
        (copy_halves-IsCopied n (dst + 1) (src + 1) mid (store16-IsHalfwords mem dst (mem src) hw)
          (omega arith))
        j in
    ground (arith, joined)

pub store32-IsHalfwords :
    (mem : Halfwords) (i v : ℕ) → IsHalfwords mem → IsHalfwords (store32 mem i v)
store32-IsHalfwords mem i v hw j = ground (arith, hw j)

pub copy_words-IsCopied :
    (w dst src : ℕ) (mem : Halfwords)
    → IsHalfwords mem
    → Apart dst src (w * 2)
    → IsCopied dst src (w * 2) mem (copy_words w dst src mem)
unfolding copy_words
copy_words-IsCopied zero dst src mem hw apart j = ground arith
copy_words-IsCopied (suc w) dst src mem hw apart j =
    let mid = store32 mem dst (load32 mem src) in
    let joined =
      IsCopied-join dst src 2 (w * 2) mem mid (copy_words w (dst + 2) (src + 2) mid) (omega arith)
        (copy_word-IsCopied dst src mem hw)
        (copy_words-IsCopied w (dst + 2) (src + 2) mid
          (store32-IsHalfwords mem dst (load32 mem src) hw) (omega arith))
        j in
    ground (arith, joined)

pub copy_words-IsHalfwords :
    (w dst src : ℕ) (mem : Halfwords) → IsHalfwords mem → IsHalfwords (copy_words w dst src mem)
unfolding copy_words
copy_words-IsHalfwords zero dst src mem hw = hw
copy_words-IsHalfwords (suc w) dst src mem hw =
    copy_words-IsHalfwords w (dst + 2) (src + 2) (store32 mem dst (load32 mem src))
      (store32-IsHalfwords mem dst (load32 mem src) hw)

-- A word that was read from the original memory extends a copy, wherever the source lies.
pub IsCopied-extend :
    (d q k : ℕ) (mem mid : Halfwords)
    → IsHalfwords mem
    → IsCopied d q k mem mid
    → IsCopied d q (k + 2) mem (store32 mid (d + k) (load32 mem (q + k)))
IsCopied-extend d q k mem mid hw p j = ground (arith, p j, hw (q + k), hw (q + k + 1))
