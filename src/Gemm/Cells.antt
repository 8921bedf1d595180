-- ===== src/Gemm/Cells.antt =====
-- A matrix of rows of N cells inside an array, filled cell by cell.
use native.Mathlib.Nat.{mod-lt, div-add-mod'}
use risc_v_vi_t_accelerator.Base.{
  ℕ, ◌+◌, ◌*◌, ◌/◌, ◌%◌, ◌<◌, ◌≡◌, refl, ◌∙◌, ap, arith, Bool, false, ◌||◌, ◌&&◌, ◌==◌,
  if◌then◌else◌, ℤ, div_mod_unique,
}
use risc_v_vi_t_accelerator.Gemm.{Ints, update}

module _ (N : ℕ) (val : ℕ → ℕ → ℤ) (acc0 : Ints) where
  -- The cells (m, n) of the region hold `val m n`, all others what acc0 has.
  abbrev pub Filled : (ℕ → ℕ → Bool) → Ints → Type 0
  Filled region acc =
      (j : ℕ) → acc j ≡ (if region (j / N) (j % N) then val (j / N) (j % N) else acc0 j)

  pub Filled-none : Filled (λ m n. false) acc0
  Filled-none j = refl

  pub Filled-cong :
      (r s : ℕ → ℕ → Bool) (acc : Ints)
      → ((m n : ℕ) → n < N → r m n ≡ s m n)
      → 0 < N
      → Filled r acc
      → Filled s acc
  Filled-cong r s acc same pos h j =
      h j
      ∙ ap (λ b. if b then val (j / N) (j % N) else acc0 j) (same (j / N) (j % N) (mod-lt j pos))

  -- Storing the value of cell (m, n) adds that cell to the region.
  pub Filled-store :
      (r : ℕ → ℕ → Bool) (acc : Ints) (m n : ℕ)
      → n < N
      → Filled r acc
      → Filled (λ a b. r a b || (a == m && b == n)) (update acc (m * N + n) (val m n))
  Filled-store r acc m n h f j = ground (arith, f j, div_mod_unique j N m n h, div-add-mod' j N)
