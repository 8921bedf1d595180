-- ===== src/Attention/Tests.antt =====
-- Three tokens, and the rows of their probabilities.
use risc_v_vi_t_accelerator.Base.{
  ℕ, ◌^◌, ◌+◌, ◌*◌, ◌%◌, ◌<◌, ◌≤◌, ◌≡◌, refl, arith, none, pos, negsuc, mag, ◌==◌, if◌then◌else◌,
  ◌+ℤ◌, ◌*ℤ◌,
}
use risc_v_vi_t_accelerator.Xf.{Scale}
use risc_v_vi_t_accelerator.Copy.Memory.{Halfwords}
use risc_v_vi_t_accelerator.Attention.Softmax.{
  Scores, whole, split, score, attn_softmax, exp2_tab_init, padded,
}
use risc_v_vi_t_accelerator.Gemm.{Ints}
use risc_v_vi_t_accelerator.Attention.Halves.{
  head_dim, q_sh, q_hi, q_lo, vt_hi, vt_lo, vt16, gemm_i32_cpu, gemm16_cpu,
}
use risc_v_vi_t_accelerator.Attention.Products.{k_of, q_of, score-gemm16, context-gemm16}
use risc_v_vi_t_accelerator.Attention.Row.{total}
use risc_v_vi_t_accelerator.Attention.Sums.{accel_sums}
use risc_v_vi_t_accelerator.Attention.ColumnSums.{accel_sums-total}
use risc_v_vi_t_accelerator.Attention.Rows.{IsNormalised, attn_softmax-IsNormalised}
use risc_v_vi_t_accelerator.Attention.Probabilities.{Known}

abbrev scale : Scale
scale = record { m = pos 1_600_000_000; sh = pos 41 }

abbrev scores : Scores
scores = whole (λ i. if i == 4 then negsuc 70_000 else pos (i * 50_000)) none

abbrev blank : Halfwords
blank i = 0

scores-Known : (t : ℕ) → t < 3 → Known scores 3 t
unfolding score
scores-Known t h m hm = (ground arith, ground arith)

attn_softmax-IsNormalised_example :
    IsNormalised 3
      (padded 3)
      (λ m. attn_softmax scale 2 scores 3 (exp2_tab_init (λ i. 0)) 0 blank (0 + 1 * padded 3 + m))
attn_softmax-IsNormalised_example =
    attn_softmax-IsNormalised scale 2 scores 3 (λ i. 0) 0 blank (omega arith) (omega arith)
      scores-Known refl 1 (omega arith)

-- Two tokens of 1152 values, and the products of the first head.
abbrev tokens : Ints
tokens i = if i == 64 then negsuc 8_000 else pos (i % 3_000)

tokens-bound : (i : ℕ) → mag (tokens i) ≤ 8191
tokens-bound i = ground arith

abbrev empty : Ints
empty i = pos 0

abbrev probs : Ints
probs i = pos 64

score-gemm16_example :
    score
      (split
        (gemm_i32_cpu (k_of tokens 0) 1152 (q_hi tokens 1152 0 2 empty) head_dim 2 head_dim 2 empty)
        (gemm_i32_cpu
          (k_of tokens 0)
          1152
          (q_lo tokens 1152 0 2 empty)
          head_dim
          2
          head_dim
          2
          empty))
      2
      1
      0
    ≡ gemm16_cpu
        (k_of tokens 0)
        1152
        (q_of tokens 0)
        1152
        2
        head_dim
        2
        (q_sh tokens 1152 0 2)
        empty
        (1 * 2 + 0)
score-gemm16_example =
    score-gemm16 tokens 1152 0 2 empty empty empty empty empty 1 0
      (λ i. omega (arith, tokens-bound i)) (omega arith) (omega arith)

context-gemm16_example :
    gemm_i32_cpu probs
          (padded 2)
          (vt_hi tokens 1152 0 2 empty)
          (padded 2)
          2
          (padded 2)
          head_dim
          empty
          (5 * 2 + 1)
        *ℤ pos 64
      +ℤ gemm_i32_cpu probs
          (padded 2)
          (vt_lo tokens 1152 0 2 empty)
          (padded 2)
          2
          (padded 2)
          head_dim
          empty
          (5 * 2 + 1)
    ≡ gemm16_cpu probs
        (padded 2)
        (vt16 tokens 1152 0 2 empty)
        (padded 2)
        2
        (padded 2)
        head_dim
        0
        empty
        (5 * 2 + 1)
context-gemm16_example =
    context-gemm16 tokens probs 1152 0 2 empty empty empty empty empty empty 5 1 tokens-bound
      (omega arith) (omega arith)

-- Six queries: a group of three words.
abbrev powers : Halfwords
powers j = j * 5_000 % 2 ^ 15

accel_sums-total_example :
    accel_sums 0 6 powers (λ q. 0) 5 ≡ total (λ key. powers (0 + key * padded 6 + 5)) 6
accel_sums-total_example =
    accel_sums-total 0 6 powers (λ j. omega arith) (omega arith) (λ q. 0) 5 refl (omega arith)
