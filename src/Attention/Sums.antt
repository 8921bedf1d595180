-- ===== src/Attention/Sums.antt =====
-- The sums of attn_softmax_accel_sums in src/sw/project/dav2_engine.c: the columns of P^T, two
-- queries in a word and four words in registers. Memory is in halfwords, P^T at an index; the four
-- registers T and the four H are maps.
use risc_v_vi_t_accelerator.Base.{
  ℕ, ◌+◌, ◌-◌, ◌*◌, ◌/◌, ◌^◌, ltb, ◌==◌, if◌then◌else◌, u32, for_range,
}
use risc_v_vi_t_accelerator.Copy.Memory.{Halfwords, load32}
use risc_v_vi_t_accelerator.Attention.Softmax.{padded}

abbrev pub Registers : Type 0
Registers = (ℕ → ℕ) × (ℕ → ℕ)

abbrev pub set_at : (ℕ → ℕ) → ℕ → ℕ → ℕ → ℕ
set_at a i v j = if j == i then v else a j

-- `T += w; H += w >> 16` of register i
unfoldable pub add_to : ℕ → ℕ → Registers → Registers
add_to i w (t, h) = (set_at t i (u32 (t i + w)), set_at h i (u32 (h i + w / 2 ^ 16)))

-- `sum[2 * (w0 + i)] = T[i] - (H[i] << 16); sum[2 * (w0 + i) + 1] = H[i];`
unfoldable pub store_sums : ℕ → Registers → ℕ → (ℕ → ℕ) → ℕ → ℕ
store_sums w0 (t, h) i sum =
    set_at (set_at sum (2 * (w0 + i)) (u32 (t i + 2 ^ 32 - u32 (h i * 2 ^ 16)))) (2 * (w0 + i) + 1)
      (h i)

module _ (pt n : ℕ) (mem : Halfwords) where
  -- `ptw[key * Kw + w0 + i]`
  abbrev pub word_of : ℕ → ℕ → ℕ → ℕ
  word_of w0 key i = load32 mem (pt + 2 * (key * (padded n / 2) + w0 + i))

  -- The words of all keys from word w0 on, nw of them.
  unfoldable pub column_words : ℕ → ℕ → Registers
  column_words w0 nw =
      for_range n 0 (λ key. for_range nw 0 (λ i. add_to i (word_of w0 key i))) (λ i. 0, λ i. 0)

  unfoldable pub sums_group : ℕ → (ℕ → ℕ) → ℕ → ℕ
  sums_group w0 sum =
      let nw = if ltb (n / 2 - w0) 4 then n / 2 - w0 else 4 in
      for_range nw 0 (store_sums w0 (column_words w0 nw)) sum

  -- attn_softmax_accel_sums, b->psum being `sum` before
  unfoldable pub accel_sums : (ℕ → ℕ) → ℕ → ℕ
  accel_sums = for_range ((n / 2 + 3) / 4) 0 (λ g. sums_group (4 * g))
