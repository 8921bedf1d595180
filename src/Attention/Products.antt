-- ===== src/Attention/Products.antt =====
-- The products of a head with the halves of q and v agree with those with whole int16 weights.
use risc_v_vi_t_accelerator.Base.{
  Bool, true, false, ℕ, suc, ◌+◌, ◌*◌, ◌^◌, ◌≤◌, ◌<◌, ◌≡◌, sym, ◌∙◌, ap, arith, ltb, if◌then◌else◌,
  ℤ, pos, negsuc, pos_part, neg_part, mag, ◌+ℤ◌, ◌*ℤ◌, ◌>>ℤ◌, ◌/ℤ◌, mod_ℤ, signed8, for_range,
  for_range_inv,
}
use mathlib.Core.Path.{ap₂}
use native.Mathlib.Decide.{dec_le}
use native.Mathlib.Nat.{mul-le-mul_right}
use risc_v_vi_t_accelerator.Gemm.{Ints, update, dot_ones}
use risc_v_vi_t_accelerator.Gemm.Dot.{dot, dot_ones-dot, dot_split}
use risc_v_vi_t_accelerator.Attention.Softmax.{split, score, padded}
use risc_v_vi_t_accelerator.Attention.Halves.{
  head_dim, embed_dim, fill, q_at, v_at, q_sh, q_hi, q_lo, vt_hi, vt_lo, vt16, gemm_i32_cpu,
  gemm16_cpu,
}
use risc_v_vi_t_accelerator.Attention.Shift.{q_at-shifted}

module _ (rows width : ℕ) (val : ℕ → ℕ → ℤ) where
  -- The rows before t are filled, and the first d elements of row t.
  IsFilled : ℕ → ℕ → Ints → Type 0
  IsFilled t d a =
      (i j : ℕ)
      → j < width
      → (i < t → a (i * width + j) ≡ val i j) × (i ≡ t → j < d → a (i * width + j) ≡ val i j)

  store-IsFilled :
      (t d : ℕ) (a : Ints)
      → d < width
      → IsFilled t d a
      → IsFilled t (suc d) (update a (t * width + d) (val t d))
  unfolding IsFilled
  store-IsFilled t d a hd filled i j hj = (
    λ earlier.
        let apart : suc i * width ≤ t * width = mul-le-mul_right width earlier in
        other (i * width + j) (omega arith) ∙ (filled i j hj).0 earlier,
    λ this below. elim (dec_le (suc j) d) [
      | yes before ↦
          let place : i * width ≡ t * width = ap (λ (k : ℕ). k * width) this in
          other (i * width + j) (omega arith) ∙ (filled i j hj).1 this before
      | no now ↦
          let place : i * width ≡ t * width = ap (λ (k : ℕ). k * width) this in
          let here : j ≡ d = omega arith in
          self (i * width + j) (omega arith) ∙ ap₂ val (sym this) (sym here)
    ],
  )
    where
      other : (x : ℕ) → x < t * width + d → update a (t * width + d) (val t d) x ≡ a x
      other x h = ground arith

      self : (x : ℕ) → x ≡ t * width + d → update a (t * width + d) (val t d) x ≡ val t d
      self x h = ground arith

  pub fill_at :
      (a : Ints) (t d : ℕ) → t < rows → d < width → fill rows width val a (t * width + d) ≡ val t d
  unfolding fill IsFilled
  fill_at a t d ht hd =
      ((for_range_inv (λ i b. IsFilled i 0 b)
            (λ t a. for_range width 0 (λ d a. update a (t * width + d) (val t d)) a) rows 0 rows a
            (omega arith) (λ i b lo hi before. next i b before)
            (λ i j hj. (λ h. absurd (omega arith), λ e h. absurd (omega arith))))
          t d hd).0
        ht
    where
      next :
          (i : ℕ) (b : Ints)
          → IsFilled i 0 b
          → IsFilled (suc i) 0 (for_range width 0 (λ d a. update a (i * width + d) (val i d)) b)
      next i b before k j hj =
          let done =
            for_range_inv (λ d b. IsFilled i d b) (λ d a. update a (i * width + d) (val i d)) width
              0 width b (omega arith) (λ d b lo hi. store-IsFilled i d b hi) before in
          (
            λ h. elim (dec_le (suc k) i) [
              | yes earlier ↦ (done k j hj).0 earlier
              | no this ↦ (done k j hj).1 (omega arith) hj
            ],
            λ e h. absurd (omega arith),
          )

-- The two halves of a value of 12 bits, and of one of 14 bits.
halves_4 :
    (v : ℤ)
    → pos_part v ≤ 2047
    → neg_part v ≤ 2048
    → signed8 (mod_ℤ (v >>ℤ 4) (2 ^ 8)) *ℤ pos 16 +ℤ signed8 (mod_ℤ v (2 ^ 4)) ≡ v
unfolding ◌/ℤ◌ mod_ℤ ◌*ℤ◌ ◌+ℤ◌
halves_4 (pos n) lo hi = ground arith
halves_4 (negsuc n) lo hi = ground arith

halves_6 :
    (v : ℤ)
    → mag v ≤ 8191
    → signed8 (mod_ℤ (v >>ℤ 6) (2 ^ 8)) *ℤ pos 64 +ℤ signed8 (mod_ℤ v (2 ^ 6)) ≡ v
unfolding ◌/ℤ◌ mod_ℤ ◌*ℤ◌ ◌+ℤ◌
halves_6 (pos n) h = ground arith
halves_6 (negsuc n) h = ground arith

-- An entry of the product on the CPU.
gemm_at :
    (a : Ints) (a_stride : ℕ) (w : Ints) (w_stride N K M : ℕ) (acc : Ints) (m n : ℕ)
    → m < M
    → n < N
    → gemm_i32_cpu a a_stride w w_stride N K M acc (m * N + n)
      ≡ dot (λ k. a (n * a_stride + k)) (λ k. w (m * w_stride + k)) K
unfolding gemm_i32_cpu
gemm_at a a_stride w w_stride N K M acc m n hm hn =
    fill_at M N
      (λ m n. dot_ones K (λ k. a (n * a_stride + k)) (λ k. w (m * w_stride + k)) 0 (pos 0)) acc m n
      hm hn
    ∙ dot_ones-dot K (λ k. a (n * a_stride + k)) (λ k. w (m * w_stride + k))

gemm16_at :
    (a : Ints) (a_stride : ℕ) (w : Ints) (w_stride N K M wsh : ℕ) (acc : Ints) (m n : ℕ)
    → m < M
    → n < N
    → gemm16_cpu a a_stride w w_stride N K M wsh acc (m * N + n)
      ≡ dot (λ k. a (n * a_stride + k)) (λ k. w (m * w_stride + k) >>ℤ wsh) K
unfolding gemm16_cpu
gemm16_at a a_stride w w_stride N K M wsh acc m n hm hn =
    fill_at M N
      (λ m n. dot_ones K (λ k. a (n * a_stride + k)) (λ k. w (m * w_stride + k) >>ℤ wsh) 0 (pos 0))
      acc m n hm hn
    ∙ dot_ones-dot K (λ k. a (n * a_stride + k)) (λ k. w (m * w_stride + k) >>ℤ wsh)

no_shift : (v : ℤ) → v >>ℤ 0 ≡ v
unfolding ◌/ℤ◌
no_shift (pos n) = ground arith
no_shift (negsuc n) = ground arith

-- The pointers qkv->v + ED + h HD (k) and qkv->v + h HD (q) of head h.
abbrev pub k_of : Ints → ℕ → Ints
k_of qkv head i = qkv (embed_dim + head * head_dim + i)

abbrev pub q_of : Ints → ℕ → Ints
q_of qkv head i = qkv (head * head_dim + i)

-- The halves of q are those of the shifted values.
q-halves :
    (qkv : Ints) (c head n : ℕ) (hi0 lo0 : Ints) (t d : ℕ)
    → ((i : ℕ) → mag (qkv i) ≤ 2 ^ 15)
    → t < n
    → d < head_dim
    → q_hi qkv c head n hi0 (t * head_dim + d) *ℤ pos 16 +ℤ q_lo qkv c head n lo0 (t * head_dim + d)
      ≡ q_of qkv head (t * c + d) >>ℤ q_sh qkv c head n
unfolding q_hi q_lo q_at
q-halves qkv c head n hi0 lo0 t d fits ht hd =
    let v = q_at qkv c head n t d >>ℤ q_sh qkv c head n in
    let (lo, hi) = q_at-shifted qkv c head n fits t d ht hd in
    ap₂ (λ a b. a *ℤ pos 16 +ℤ b)
      (fill_at n head_dim
        (λ t d. signed8 (mod_ℤ (q_at qkv c head n t d >>ℤ q_sh qkv c head n >>ℤ 4) (2 ^ 8))) hi0 t d
        ht hd)
      (fill_at n head_dim
        (λ t d. signed8 (mod_ℤ (q_at qkv c head n t d >>ℤ q_sh qkv c head n) (2 ^ 4))) lo0 t d ht
        hd)
    ∙ halves_4 v lo hi
    ∙ ap (λ (i : ℕ). qkv i >>ℤ q_sh qkv c head n) {x = t * c + head * head_dim + d}
        {y = head * head_dim + (t * c + d)} (omega arith)

-- An entry of v^T, with zeros from n on.
padded_v : (b : Bool) (v : ℤ) → mag v ≤ 8191 → mag (if b then v else pos 0) ≤ 8191
padded_v true v h = h
padded_v false v h = omega arith

v-halves :
    (qkv : Ints) (c head n : ℕ) (hi0 lo0 w0 : Ints) (d m : ℕ)
    → ((i : ℕ) → mag (qkv i) ≤ 8191)
    → d < head_dim
    → m < padded n
    → vt_hi qkv c head n hi0 (d * padded n + m) *ℤ pos 64
        +ℤ vt_lo qkv c head n lo0 (d * padded n + m)
      ≡ vt16 qkv c head n w0 (d * padded n + m) >>ℤ 0
unfolding vt_hi vt_lo vt16 v_at
v-halves qkv c head n hi0 lo0 w0 d m fits hd hm =
    let v = if ltb m n then v_at qkv c head n m d else pos 0 in
    ap₂ (λ a b. a *ℤ pos 64 +ℤ b)
      (fill_at head_dim (padded n)
        (λ d m. signed8 (mod_ℤ ((if ltb m n then v_at qkv c head n m d else pos 0) >>ℤ 6) (2 ^ 8)))
        hi0 d m hd hm)
      (fill_at head_dim (padded n)
        (λ d m. signed8 (mod_ℤ (if ltb m n then v_at qkv c head n m d else pos 0) (2 ^ 6))) lo0 d m
        hd hm)
    ∙ halves_6 v (padded_v (ltb m n) (v_at qkv c head n m d) (fits _))
    ∙ sym (
        no_shift _
        ∙ fill_at head_dim (padded n) (λ d m. if ltb m n then v_at qkv c head n m d else pos 0) w0 d
            m hd hm)

-- For int16 values in qkv: the score that attn_softmax puts together from the two products with the
-- int8 halves of q is, for every query t and key m, the score of the product with whole int16
-- weights that shifts q as it reads it. What the arrays held before does not matter.
pub score-gemm16 :
    (qkv : Ints) (c head n : ℕ) (hi0 lo0 s0 s1 acc : Ints) (t m : ℕ)
    → ((i : ℕ) → mag (qkv i) ≤ 2 ^ 15)
    → t < n
    → m < n
    → score
        (split
          (gemm_i32_cpu (k_of qkv head) c (q_hi qkv c head n hi0) head_dim n head_dim n s0)
          (gemm_i32_cpu (k_of qkv head) c (q_lo qkv c head n lo0) head_dim n head_dim n s1))
        n
        t
        m
      ≡ gemm16_cpu
          (k_of qkv head)
          c
          (q_of qkv head)
          c
          n
          head_dim
          n
          (q_sh qkv c head n)
          acc
          (t * n + m)
unfolding score
score-gemm16 qkv c head n hi0 lo0 s0 s1 acc t m fits ht hm =
    rw
      (
        gemm_at (k_of qkv head) c (q_hi qkv c head n hi0) head_dim n head_dim n s0 t m ht hm,
        gemm_at (k_of qkv head) c (q_lo qkv c head n lo0) head_dim n head_dim n s1 t m ht hm,
        gemm16_at (k_of qkv head) c (q_of qkv head) c n head_dim n (q_sh qkv c head n) acc t m ht
            hm,
      )
      (dot_split (λ k. k_of qkv head (m * c + k)) (λ k. q_hi qkv c head n hi0 (t * head_dim + k))
        (λ k. q_lo qkv c head n lo0 (t * head_dim + k))
        (λ k. q_of qkv head (t * c + k) >>ℤ q_sh qkv c head n) 16 head_dim
        (λ d hd. q-halves qkv c head n hi0 lo0 t d fits ht hd))

-- For activations in v: with the int8 halves of v^T the two context products, put together as
-- 64 c_hi + c_lo, are the product with the whole int16 v^T, for every column d and query t.
pub context-gemm16 :
    (qkv p : Ints) (c head n : ℕ) (hi0 lo0 w0 c0 c1 acc : Ints) (d t : ℕ)
    → ((i : ℕ) → mag (qkv i) ≤ 8191)
    → d < head_dim
    → t < n
    → gemm_i32_cpu p
            (padded n)
            (vt_hi qkv c head n hi0)
            (padded n)
            n
            (padded n)
            head_dim
            c0
            (d * n + t)
          *ℤ pos 64
        +ℤ gemm_i32_cpu p
            (padded n)
            (vt_lo qkv c head n lo0)
            (padded n)
            n
            (padded n)
            head_dim
            c1
            (d * n + t)
      ≡ gemm16_cpu p
          (padded n)
          (vt16 qkv c head n w0)
          (padded n)
          n
          (padded n)
          head_dim
          0
          acc
          (d * n + t)
context-gemm16 qkv p c head n hi0 lo0 w0 c0 c1 acc d t fits hd ht =
    rw
      (
        gemm_at p (padded n) (vt_hi qkv c head n hi0) (padded n) n (padded n) head_dim c0 d t hd ht,
        gemm_at p (padded n) (vt_lo qkv c head n lo0) (padded n) n (padded n) head_dim c1 d t hd ht,
        gemm16_at p (padded n) (vt16 qkv c head n w0) (padded n) n (padded n) head_dim 0 acc d t hd
            ht,
      )
      (dot_split (λ k. p (t * padded n + k)) (λ k. vt_hi qkv c head n hi0 (d * padded n + k))
        (λ k. vt_lo qkv c head n lo0 (d * padded n + k))
        (λ k. vt16 qkv c head n w0 (d * padded n + k) >>ℤ 0) 64 (padded n)
        (λ m hm. v-halves qkv c head n hi0 lo0 w0 d m fits hd hm))
