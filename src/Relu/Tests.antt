-- ===== src/Relu/Tests.antt =====
-- Runs of the ReLU, and an instance of its theorem.
use risc_v_vi_t_accelerator.Base.{◌+◌, ◌*◌, ◌%◌, ◌^◌, ◌≡◌, refl, arith}
use risc_v_vi_t_accelerator.Copy.Memory.{Halfwords}
use risc_v_vi_t_accelerator.Relu.{
  sign_mask, clear_signs, relu_words, relu_halves, relu, copy_relu_words, copy_relu,
}
use risc_v_vi_t_accelerator.Relu.Laws.{IsRelu, relu-IsRelu}

-- Every fourth value is negative.
abbrev quarter : Halfwords
quarter i = (i * 16_384 + i % 16) % 2 ^ 16

-- Values 8 to 11: 8, 16393, -32758 and -16373; the largest that stays is 16393.
cleared : (relu 8 4 quarter).0 10 ≡ 0
unfolding relu relu_words clear_signs sign_mask
cleared = refl

largest : (relu 8 4 quarter).1 ≡ 16_393
unfolding relu relu_words clear_signs sign_mask
largest = refl

-- Three values, one at a time.
odd_count : (relu 8 3 quarter).1 ≡ 16_393
unfolding relu relu_halves
odd_count = refl

copied : (copy_relu 40 8 4 quarter).0 41 ≡ 16_393
unfolding copy_relu copy_relu_words clear_signs sign_mask
copied = refl

relu-IsRelu_example : IsRelu 8 4 quarter (relu 8 4 quarter).0
relu-IsRelu_example = relu-IsRelu 8 4 quarter (λ j. omega arith)
