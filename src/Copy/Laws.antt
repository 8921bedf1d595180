-- ===== src/Copy/Laws.antt =====
-- Whatever the alignment, copy16 copies and zero16 clears exactly the elements asked for.
use risc_v_vi_t_accelerator.Base.{
  Bool-cases, inl, inr, ℕ, zero, suc, ◌+◌, ◌-◌, ◌*◌, ◌/◌, ◌%◌, ◌≡◌, arith, bit_or, leb, ltb, ◌&&◌,
  ◌==◌, if◌then◌else◌,
}
use risc_v_vi_t_accelerator.Copy.{copy_fours, copy_words, copy16, zero_words, zero_halves, zero16}
use risc_v_vi_t_accelerator.Copy.Memory.{Halfwords, store16, store32, IsHalfwords}
use risc_v_vi_t_accelerator.Copy.Regions.{
  IsCopied, Apart, IsCopied-then, copy_half-IsCopied, copy_halves-IsCopied, copy_words-IsCopied,
  copy_words-IsHalfwords,
}
use risc_v_vi_t_accelerator.Copy.Rounds.{Fours, copy_fours-Fours}

-- The word path up to the last full word.
word_part : ℕ → ℕ → ℕ → Halfwords → Halfwords
word_part dst src n mem =
    let r = copy_fours (n / 2) dst src (n / 2) mem in copy_words r.2 r.0 r.1 r.3

module _ (dst src n : ℕ) (mem : Halfwords) (hw : IsHalfwords mem) (apart : Apart dst src n) where
  abbrev fours : ℕ × ℕ × ℕ × Halfwords
  fours = copy_fours (n / 2) dst src (n / 2) mem

  fours-Fours : Fours dst src (n / 2) mem fours
  fours-Fours = copy_fours-Fours (n / 2) dst src (n / 2) mem (omega arith) hw (omega arith)

  word_part-IsCopied : IsCopied dst src (n / 2 * 2) mem (word_part dst src n mem)
  unfolding word_part
  word_part-IsCopied =
      IsCopied-then dst src ((n / 2 - fours.2) * 2) (fours.2 * 2) fours.0 fours.1 (n / 2 * 2) mem
        fours.3 (copy_words fours.2 fours.0 fours.1 fours.3) fours-Fours.dst_moved
        fours-Fours.src_moved (omega (arith, fours-Fours.fewer)) (omega arith) fours-Fours.copied
        (copy_words-IsCopied fours.2 fours.0 fours.1 fours.3 fours-Fours.halves
          (omega (arith, fours-Fours.dst_moved, fours-Fours.src_moved, fours-Fours.fewer)))

  word_part-IsHalfwords : IsHalfwords (word_part dst src n mem)
  unfolding word_part
  word_part-IsHalfwords = copy_words-IsHalfwords fours.2 fours.0 fours.1 fours.3 fours-Fours.halves

  -- An odd element count leaves one element after the words.
  last_half-IsCopied :
      (d q : ℕ)
      → n % 2 ≡ 1
      → d ≡ dst + n / 2 * 2
      → q ≡ src + n / 2 * 2
      → IsCopied dst src n mem (store16 (word_part dst src n mem) d (word_part dst src n mem q))
  last_half-IsCopied d q odd ed eq =
      IsCopied-then dst src (n / 2 * 2) 1 d q n mem (word_part dst src n mem) _ ed eq (omega arith)
        apart word_part-IsCopied
        (copy_half-IsCopied d q (word_part dst src n mem) word_part-IsHalfwords)

  words-IsCopied : IsCopied dst src n mem (
      if n % 2 == 1
      then store16
          (word_part dst src n mem)
          (fours.0 + 2 * fours.2)
          (word_part dst src n mem (fours.1 + 2 * fours.2))
      else word_part dst src n mem)
  words-IsCopied j = elim (Bool-cases (n % 2 == 1)) [
    | inl odd ↦ rw odd (
        last_half-IsCopied (fours.0 + 2 * fours.2) (fours.1 + 2 * fours.2) (ground arith)
          (omega (arith, fours-Fours.dst_moved, fours-Fours.fewer))
          (omega (arith, fours-Fours.src_moved, fours-Fours.fewer)) j)
    | inr even ↦ rw even (ground (arith, word_part-IsCopied j))
  ]

-- If the n elements at src and the n at dst do not overlap, copy16 makes every element dst + i with
-- i < n equal to src + i and leaves the rest of memory as it was, on the word path and on the
-- element path, for odd and even n.
pub copy16-IsCopied :
    (dst src n : ℕ) (mem : Halfwords)
    → IsHalfwords mem
    → Apart dst src n
    → IsCopied dst src n mem (copy16 dst src n mem)
unfolding copy16 word_part
copy16-IsCopied dst src n mem hw apart = elim (Bool-cases (bit_or dst src % 2 == 0)) [
  | inl words ↦ rw words (words-IsCopied dst src n mem hw apart)
  | inr halves ↦ rw halves (copy_halves-IsCopied n dst src mem hw apart)
]

-- `out` is `mem` with the n elements at dst set to 0.
abbrev pub IsZeroed : ℕ → ℕ → Halfwords → Halfwords → Type 0
IsZeroed dst n mem out = (j : ℕ) → out j ≡ (if leb dst j && ltb j (dst + n) then 0 else mem j)

zero_halves-IsZeroed : (n dst : ℕ) (mem : Halfwords) → IsZeroed dst n mem (zero_halves n dst mem)
unfolding zero_halves
zero_halves-IsZeroed zero dst mem j = ground arith
zero_halves-IsZeroed (suc n) dst mem j =
    ground (arith, zero_halves-IsZeroed n (dst + 1) (store16 mem dst 0) j)

zero_words-IsZeroed :
    (w dst : ℕ) (mem : Halfwords) → IsZeroed dst (2 * w) mem (zero_words w dst mem)
unfolding zero_words
zero_words-IsZeroed zero dst mem j = ground arith
zero_words-IsZeroed (suc w) dst mem j =
    ground (arith, zero_words-IsZeroed w (dst + 2) (store32 mem dst 0) j)

-- zero16 makes the n elements at dst 0 and leaves the rest of memory as it was, on the word path
-- and on the element path, for odd and even n.
pub zero16-IsZeroed : (dst n : ℕ) (mem : Halfwords) → IsZeroed dst n mem (zero16 dst n mem)
unfolding zero16
zero16-IsZeroed dst n mem j =
    ground (arith, zero_words-IsZeroed (n / 2) dst mem j, zero_halves-IsZeroed n dst mem j)
