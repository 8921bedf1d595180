-- ===== src/Base/Loop.antt =====
-- Counted loops over a state, and the rule for their invariants.
use Prim.Native.Nat.{ℕ, zero, suc, ◌+◌, ◌-◌, ◌*◌, ◌≤◌, ◌<◌}
use mathlib.Core.Path.{◌≡◌, ap, ap₂, ◌∙◌, subst}
use native.Mathlib.Omega.{arith}

-- `for (k = i; k < i + n; k++) s = body k s`
unfoldable pub for_range {ℓ} : {S : Type ℓ} → ℕ → ℕ → (ℕ → S → S) → S → S
for_range zero i body s = s
for_range (suc n) i body s = for_range n (suc i) body (body i s)

pub for_range_inv {ℓ κ} :
    {S : Type ℓ} (P : ℕ → S → Type κ) (body : ℕ → S → S) (n i j : ℕ) (s : S)
    → i + n ≡ j
    → ((k : ℕ) (t : S) → i ≤ k → k < j → P k t → P (suc k) (body k t))
    → P i s
    → P j (for_range n i body s)
unfolding for_range
for_range_inv P body zero i j s e keep p = subst (λ k. P k s) (omega arith) p
for_range_inv P body (suc n) i j s e keep p =
    for_range_inv P body n (suc i) j (body i s) (omega arith) (λ k t lo. keep k t (omega arith))
      (keep i s (omega arith) (omega arith) p)

-- A loop in two parts.
for_range-split {ℓ} :
    {S : Type ℓ} (body : ℕ → S → S) (m n k : ℕ) (s : S)
    → for_range n (k + m) body (for_range m k body s) ≡ for_range (m + n) k body s
unfolding for_range
for_range-split body zero n k s =
    ap₂ (λ (i t : ℕ). for_range t i body s) {x = k + zero} {y = k} (omega arith) (zero-first n)
  where
    zero-first : (n : ℕ) → n ≡ zero + n
    zero-first n = omega arith
for_range-split body (suc m) n k s =
    ap (λ (i : ℕ). for_range n i body (for_range m (suc k) body (body k s))) {x = k + suc m}
      {y = suc k + m} (omega arith)
    ∙ for_range-split body m n (suc k) (body k s)
    ∙ ap (λ (t : ℕ). for_range t k body s) {x = suc (m + n)} {y = suc m + n} (omega arith)

pub for_range-meet {ℓ} :
    {S : Type ℓ} (body : ℕ → S → S) (i j k : ℕ) (s : S)
    → i ≤ j
    → j ≤ k
    → for_range (k - j) j body (for_range (j - i) i body s) ≡ for_range (k - i) i body s
for_range-meet body i j k s h h' =
    ap (λ (t : ℕ). for_range (k - j) t body (for_range (j - i) i body s)) {x = j} {y = i + (j - i)}
      (omega arith)
    ∙ for_range-split body (j - i) (k - j) i s
    ∙ ap (λ (t : ℕ). for_range t i body s) {x = j - i + (k - j)} {y = k - i} (omega arith)

-- Two rounds of a loop come first.
pub for_range-two {ℓ} :
    {S : Type ℓ} (one : ℕ → S → S) (n k : ℕ) (s : S)
    → for_range (2 * n) (2 * suc k) one (one (2 * k + 1) (one (2 * k) s))
      ≡ for_range (2 * suc n) (2 * k) one s
unfolding for_range
for_range-two one n k s =
    ap₂ (λ (t q : ℕ). for_range (2 * n) t one (one q (one (2 * k) s))) next second
    ∙ ap (λ (t : ℕ). for_range t (2 * k) one s) count
  where
    next : 2 * suc k ≡ suc (suc (2 * k))
    next = omega arith

    second : 2 * k + 1 ≡ suc (2 * k)
    second = omega arith

    count : suc (suc (2 * n)) ≡ 2 * suc n
    count = omega arith
