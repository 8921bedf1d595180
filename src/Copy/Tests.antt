-- ===== src/Copy/Tests.antt =====
-- Runs of the copies, and instances of their theorems.
use risc_v_vi_t_accelerator.Base.{◌*◌, ◌%◌, ◌^◌, ◌≡◌, refl, arith, inr}
use risc_v_vi_t_accelerator.Copy.{copy_fours, copy_words, copy_halves, copy16, zero16}
use risc_v_vi_t_accelerator.Copy.Memory.{Halfwords}
use risc_v_vi_t_accelerator.Copy.Regions.{IsCopied}
use risc_v_vi_t_accelerator.Copy.Laws.{copy16-IsCopied, IsZeroed, zero16-IsZeroed}

abbrev squares : Halfwords
squares i = i * i % 2 ^ 16

-- Eleven elements: a round of four words, one word and the last element.
copied_last : copy16 100 20 11 squares 110 ≡ 900
unfolding copy16 copy_fours copy_words
copied_last = refl

copied_odd : copy16 101 20 3 squares 103 ≡ 484
unfolding copy16 copy_halves
copied_odd = refl

copy16-IsCopied_example : IsCopied 100 20 11 squares (copy16 100 20 11 squares)
copy16-IsCopied_example = copy16-IsCopied 100 20 11 squares (λ j. omega arith) (inr (omega arith))

zero16-IsZeroed_example : IsZeroed 7 5 squares (zero16 7 5 squares)
zero16-IsZeroed_example = zero16-IsZeroed 7 5 squares
