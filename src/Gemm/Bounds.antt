-- ===== src/Gemm/Bounds.antt =====
-- The activation limit keeps the 32-bit accumulator of a product from overflowing.
use risc_v_vi_t_accelerator.Base.{
  ℕ, zero, suc, ◌+◌, ◌-◌, ◌*◌, ◌≤◌, ◌<◌, ◌≡◌, refl, ap, sym, ◌∙◌, arith, ltb, Bool-cases, inl, inr,
  Option, some, ◌>>=◌, ℤ, pos, pos_part, neg_part, mag, ◌*ℤ◌, +ℤ_bounds, mag-*ℤ, InInt32,
}
use risc_v_vi_t_accelerator.Gemm.{
  Ints, row_dot, checked, add_product, checked_fours, checked_ones, checked_row_dot,
}
use risc_v_vi_t_accelerator.Gemm.Dot.{dot, sum_upto, dot-next, row_dot-dot}

-- A sum of n terms, each of magnitude at most b.
sum_upto_bounds :
    (f : ℕ → ℤ) (b n : ℕ)
    → ((k : ℕ) → k < n → mag (f k) ≤ b)
    → (pos_part (sum_upto f n) ≤ n * b) × (neg_part (sum_upto f n) ≤ n * b)
unfolding sum_upto
sum_upto_bounds f b zero h = (omega arith, omega arith)
sum_upto_bounds f b (suc n) h =
    let before = sum_upto_bounds f b n (λ k hk. h k (omega arith)) in
    (
      omega (arith, before, h n (omega arith), +ℤ_bounds (sum_upto f n) (f n)),
      omega (arith, before, h n (omega arith), +ℤ_bounds (sum_upto f n) (f n)),
    )

-- Every product and every sum of a row, up to the K-th, fits an int32_t.
module _ (ar wr : Ints) (K : ℕ) (hK : K ≤ 1536) (ha : (k : ℕ) → k < K → mag (ar k) ≤ 8191)
    (hw : (k : ℕ) → k < K → mag (wr k) ≤ 127) where
  product_bound : (k : ℕ) → k < K → mag (ar k *ℤ wr k) ≤ 1_040_257
  product_bound k h = rw (mag-*ℤ (ar k) (wr k)) (grind (arith, ha k h, hw k h))

  dot-InInt32 : (n : ℕ) → n ≤ K → InInt32 (dot ar wr n)
  unfolding dot
  dot-InInt32 n hn =
      let total =
        sum_upto_bounds (λ k. ar k *ℤ wr k) 1_040_257 n
          (λ k h. product_bound k (omega (arith, h, hn))) in
      (omega (arith, total), omega (arith, total))

  checked-some : (z : ℤ) → InInt32 z → checked z ≡ some z
  unfolding checked
  checked-some z h = ground (arith, h)

  add_product-dot : (k : ℕ) → k < K → add_product ar wr k (dot ar wr k) ≡ some (dot ar wr (k + 1))
  unfolding add_product
  add_product-dot k h =
      let b = product_bound k h in
      let fits : InInt32 (ar k *ℤ wr k) = (omega (arith, b), omega (arith, b)) in
      rw (checked-some (ar k *ℤ wr k) fits, ← dot-next ar wr k)
        (checked-some (dot ar wr (k + 1)) (dot-InInt32 (k + 1) (omega (arith, h))))

  -- One product more, and what follows it.
  add_product-then :
      {A : Type 0} (f : ℤ → Option A) (k j : ℕ)
      → k < K
      → k + 1 ≡ j
      → (add_product ar wr k (dot ar wr k) >>= f) ≡ f (dot ar wr j)
  add_product-then f k j h next =
      ap (λ (o : Option ℤ). o >>= f) (add_product-dot k h) ∙ ap (λ (i : ℕ). f (dot ar wr i)) next

  checked_fours-dot :
      (fuel k : ℕ)
      → k ≤ K
      → (j : ℕ) × (checked_fours fuel ar wr K k (dot ar wr k) ≡ some (j, dot ar wr j)) × (j ≤ K)
  unfolding checked_fours
  checked_fours-dot zero k h = (k, refl, h)
  checked_fours-dot (suc fuel) k h = elim (Bool-cases (ltb (k + 3) K)) [
    | inl more ↦
        let (j, run, le) = checked_fours-dot fuel (k + 4) (ground (arith, more)) in
        let room : k + 3 < K = ground (arith, more) in
        (
          j,
          rw more (
              add_product-then _ k (k + 1) (omega (arith, room)) refl
              ∙ add_product-then _ (k + 1) (k + 2) (omega (arith, room)) (omega arith)
              ∙ add_product-then _ (k + 2) (k + 3) (omega (arith, room)) (omega arith)
              ∙ add_product-then (λ (s4 : ℤ). checked_fours fuel ar wr K (k + 4) s4) (k + 3) (k + 4)
                  room (omega arith)
              ∙ run),
          le,
        )
    | inr done ↦ (k, rw done refl, h)
  ]

  checked_ones-dot :
      (n k : ℕ) → k + n ≤ K → checked_ones n ar wr k (dot ar wr k) ≡ some (dot ar wr (k + n))
  unfolding checked_ones
  checked_ones-dot zero k h = ap (λ (i : ℕ). some (dot ar wr i)) {x = k} {y = k + 0} (omega arith)
  checked_ones-dot (suc n) k h =
      add_product-then (λ (s : ℤ). checked_ones n ar wr (k + 1) s) k (k + 1) (omega (arith, h)) refl
      ∙ (checked_ones-dot n (k + 1) (omega (arith, h))
          ∙ ap (λ (i : ℕ). some (dot ar wr i)) {x = k + 1 + n} {y = k + suc n} (omega arith))

  -- With activations of magnitude at most DAV2_ACT_QMAX = 8191, weights of at most DAV2_W_QMAX = 127
  -- and K at most 1536, the unrolled loops of the product's inner loop run on int32_t without an
  -- overflow in any product or any running sum, and give the result of the loops on exact integers.
  pub checked_row_dot-row_dot : checked_row_dot ar wr K ≡ some (row_dot ar wr K)
  unfolding checked_row_dot
  checked_row_dot-row_dot =
      let (j, run, le) = checked_fours-dot K 0 (omega arith) in
      ap (λ (o : Option (ℕ × ℤ)). o >>= λ r. checked_ones (K - r.0) ar wr r.0 r.1)
        (ap (λ (s : ℤ). checked_fours K ar wr K 0 s) start ∙ run)
      ∙ checked_ones-dot (K - j) j (omega (arith, le))
      ∙ ap (λ (i : ℕ). some (dot ar wr i)) {x = j + (K - j)} {y = K} (omega (arith, le))
      ∙ ap some (sym (row_dot-dot ar wr K))
    where
      start : pos 0 ≡ dot ar wr 0
      start = unfold dot sum_upto in refl
