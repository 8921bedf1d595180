-- ===== src/Attention/Halves.antt =====
-- The operands of a head's products: attn_prep_qk, attn_prep_v, attn_prep_q16, attn_prep_vt16 and the
-- products on the CPU, in src/sw/project/dav2_engine.c. An array is a map from indices to values; a
-- load or a store of a word is one of its elements each.
use risc_v_vi_t_accelerator.Base.{
  ℕ, zero, suc, ◌+◌, ◌*◌, ◌/◌, ◌^◌, bit_or, ltb, if◌then◌else◌, ℤ, pos, mag, ◌>>ℤ◌, mod_ℤ, signed8,
  for_range,
}
use risc_v_vi_t_accelerator.Gemm.{Ints, update, dot_ones}
use risc_v_vi_t_accelerator.Attention.Softmax.{padded}

-- DAV2_HEAD_DIM, DAV2_EMBED_DIM, DAV2_QK_QMAX
abbrev pub head_dim : ℕ
head_dim = 64

abbrev pub embed_dim : ℕ
embed_dim = 384

abbrev pub qk_qmax : ℕ
qk_qmax = 2047

-- Rows of `width` elements, filled one by one.
unfoldable pub fill : ℕ → ℕ → (ℕ → ℕ → ℤ) → Ints → Ints
fill rows width val a =
    for_range rows 0 (λ t a. for_range width 0 (λ d a. update a (t * width + d) (val t d)) a) a

-- `while ((qmax >> q_sh) > (uint32_t)DAV2_QK_QMAX) q_sh++;`
unfoldable pub q_shift : ℕ → ℕ → ℕ → ℕ
q_shift zero qmax sh = sh
q_shift (suc fuel) qmax sh =
    let rest = q_shift fuel qmax (sh + 1) in if ltb qk_qmax (qmax / 2 ^ sh) then rest else sh

-- qkv, in rows of c elements: q of the head, and v 2 embed_dim further on.
module _ (qkv : Ints) (c head n : ℕ) where
  unfoldable pub q_at : ℕ → ℕ → ℤ
  q_at t d = qkv (t * c + head * head_dim + d)

  unfoldable pub v_at : ℕ → ℕ → ℤ
  v_at t d = qkv (t * c + 2 * embed_dim + head * head_dim + d)

  -- The OR of all |q|, two at a time.
  unfoldable pub q_max : ℕ
  q_max =
      for_range n 0
        (λ t m.
          for_range (head_dim / 2) 0
            (λ d m. bit_or m (bit_or (mag (q_at t (2 * d))) (mag (q_at t (2 * d + 1))))) m)
        0

  -- b->q_sh
  unfoldable pub q_sh : ℕ
  q_sh = q_shift 32 q_max 0

  -- attn_prep_qk: q_hi and q_lo. A half is a byte of the word that is stored.
  unfoldable pub q_hi : Ints → Ints
  q_hi = fill n head_dim (λ t d. signed8 (mod_ℤ (q_at t d >>ℤ q_sh >>ℤ 4) (2 ^ 8)))

  unfoldable pub q_lo : Ints → Ints
  q_lo = fill n head_dim (λ t d. signed8 (mod_ℤ (q_at t d >>ℤ q_sh) (2 ^ 4)))

  -- attn_prep_q16
  unfoldable pub q16 : Ints → Ints
  q16 = fill n head_dim (λ t d. q_at t d >>ℤ q_sh)

  -- attn_prep_v: the halves of v^T, in rows of `padded n`, zero from n on.
  unfoldable pub vt_hi : Ints → Ints
  vt_hi =
      fill head_dim (padded n)
        (λ d m. signed8 (mod_ℤ ((if ltb m n then v_at m d else pos 0) >>ℤ 6) (2 ^ 8)))

  unfoldable pub vt_lo : Ints → Ints
  vt_lo =
      fill head_dim (padded n)
        (λ d m. signed8 (mod_ℤ (if ltb m n then v_at m d else pos 0) (2 ^ 6)))

  -- attn_prep_vt16
  unfoldable pub vt16 : Ints → Ints
  vt16 = fill head_dim (padded n) (λ d m. if ltb m n then v_at m d else pos 0)

-- gemm_i32_cpu(a, a_stride, w, w_stride, acc, N, K, M)
unfoldable pub gemm_i32_cpu : Ints → ℕ → Ints → ℕ → ℕ → ℕ → ℕ → Ints → Ints
gemm_i32_cpu a a_stride w w_stride N K M =
    fill M N (λ m n. dot_ones K (λ k. a (n * a_stride + k)) (λ k. w (m * w_stride + k)) 0 (pos 0))

-- The product of gemm16_start on the CPU, its weights shifted right by wsh.
unfoldable pub gemm16_cpu : Ints → ℕ → Ints → ℕ → ℕ → ℕ → ℕ → ℕ → Ints → Ints
gemm16_cpu a a_stride w w_stride N K M wsh =
    fill M N
      (λ m n. dot_ones K (λ k. a (n * a_stride + k)) (λ k. w (m * w_stride + k) >>ℤ wsh) 0 (pos 0))
