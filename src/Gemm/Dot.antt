-- ===== src/Gemm/Dot.antt =====
-- The unrolled inner loop is the dot product.
use risc_v_vi_t_accelerator.Base.{
  ℕ, zero, suc, ◌+◌, ◌*◌, ◌≤◌, ◌<◌, ◌≡◌, refl, ap, sym, ◌∙◌, arith, ltb, Bool-cases, inl, inr, ℤ,
  pos, eq_of_parts, +ℤ_parts, *ℤ_pos, *ℤ_linear, ◌+ℤ◌, ◌*ℤ◌,
}
use mathlib.Core.Path.{ap₂}
use native.Mathlib.Numerals.{add-one}
use risc_v_vi_t_accelerator.Gemm.{Ints, dot_fours, dot_ones, row_dot}

-- The sum of the first n terms.
unfoldable pub sum_upto : (ℕ → ℤ) → ℕ → ℤ
sum_upto f zero = pos 0
sum_upto f (suc n) = sum_upto f n +ℤ f n

unfoldable pub dot : Ints → Ints → ℕ → ℤ
dot a b n = sum_upto (λ k. a k *ℤ b k) n

pub dot-next : (ar wr : Ints) (k : ℕ) → dot ar wr (k + 1) ≡ dot ar wr k +ℤ ar k *ℤ wr k
unfolding dot sum_upto
dot-next ar wr k = rw add-one

-- The terms from k on are added one by one.
dot_ones-sum : (n : ℕ) (ar wr : Ints) (k : ℕ) → dot_ones n ar wr k (dot ar wr k) ≡ dot ar wr (k + n)
unfolding dot_ones
dot_ones-sum zero ar wr k = ap (dot ar wr) {x = k} {y = k + 0} (omega arith)
dot_ones-sum (suc n) ar wr k =
    rw (← dot-next ar wr k)
      (dot_ones-sum n ar wr (k + 1) ∙ ap (dot ar wr) {x = k + 1 + n} {y = k + suc n} (omega arith))

-- A round adds the next four terms.
dot-next-four :
    (ar wr : Ints) (k : ℕ)
    → dot ar wr k
        +ℤ ar k *ℤ wr k
        +ℤ ar (k + 1) *ℤ wr (k + 1)
        +ℤ ar (k + 2) *ℤ wr (k + 2)
        +ℤ ar (k + 3) *ℤ wr (k + 3)
      ≡ dot ar wr (k + 4)
dot-next-four ar wr k = sym (
    next 3
    ∙ ap (λ t. t +ℤ ar (k + 3) *ℤ wr (k + 3))
        (next 2
          ∙ ap (λ t. t +ℤ ar (k + 2) *ℤ wr (k + 2))
              (next 1 ∙ ap (λ t. t +ℤ ar (k + 1) *ℤ wr (k + 1)) (dot-next ar wr k))))
  where
    next : (j : ℕ) → dot ar wr (k + suc j) ≡ dot ar wr (k + j) +ℤ ar (k + j) *ℤ wr (k + j)
    next j = ap (dot ar wr) {x = k + suc j} {y = k + j + 1} (omega arith) ∙ dot-next ar wr (k + j)

-- What the rounds of four leave: the sum of the terms before the index, which is not past the end.
dot_fours-sum :
    (fuel : ℕ) (ar wr : Ints) (len k : ℕ)
    → k ≤ len
    → let r = dot_fours fuel ar wr len k (dot ar wr k) in (r.1 ≡ dot ar wr r.0) × (r.0 ≤ len)
unfolding dot_fours
dot_fours-sum zero ar wr len k h = (refl, h)
dot_fours-sum (suc fuel) ar wr len k h = elim (Bool-cases (ltb (k + 3) len)) [
  | inl more ↦
      rw (more, dot-next-four ar wr k) (dot_fours-sum fuel ar wr len (k + 4) (ground arith))
  | inr done ↦ rw done (refl, h)
]

pub dot_ones-dot : (n : ℕ) (ar wr : Ints) → dot_ones n ar wr 0 (pos 0) ≡ dot ar wr n
dot_ones-dot n ar wr =
    rw start (dot_ones-sum n ar wr 0 ∙ ap (dot ar wr) {x = 0 + n} {y = n} (omega arith))
  where
    start : pos 0 ≡ dot ar wr 0
    start = unfold dot sum_upto in refl

pub row_dot-dot : (ar wr : Ints) (len : ℕ) → row_dot ar wr len ≡ dot ar wr len
unfolding row_dot
row_dot-dot ar wr len =
    let fours = dot_fours-sum len ar wr len 0 (omega arith) in
    rw start (rw fours.0 (dot_ones-sum _ ar wr _ ∙ ap (dot ar wr) (omega (arith, fours.1))))
  where
    start : pos 0 ≡ dot ar wr 0
    start = unfold dot sum_upto in refl

-- Only the first n entries of a row matter.
pub dot_ext : (a b w : Ints) (n : ℕ) → ((k : ℕ) → k < n → a k ≡ b k) → dot a w n ≡ dot b w n
unfolding dot sum_upto
dot_ext a b w zero same = refl
dot_ext a b w (suc n) same =
    ap₂ ◌+ℤ◌ (dot_ext a b w n (λ k h. same k (omega arith)))
      (ap (λ t. t *ℤ w n) (same n (omega arith)))

regroup :
    (x y u v : ℤ) (s : ℕ) → (x +ℤ y) *ℤ pos s +ℤ (u +ℤ v) ≡ (x *ℤ pos s +ℤ u) +ℤ (y *ℤ pos s +ℤ v)
regroup x y u v s = eq_of_parts _ _ (
    omega (
      arith,
      +ℤ_parts ((x +ℤ y) *ℤ pos s) (u +ℤ v),
      +ℤ_parts (x *ℤ pos s +ℤ u) (y *ℤ pos s +ℤ v),
      +ℤ_parts (x *ℤ pos s) u,
      +ℤ_parts (y *ℤ pos s) v,
      +ℤ_parts u v,
      *ℤ_pos (x +ℤ y) s,
      *ℤ_pos x s,
      *ℤ_pos y s,
      ap (λ (t : ℕ). t * s) (+ℤ_parts x y),
    ))

-- A product with weights that are split as hi s + lo.
pub dot_split :
    (a hi lo w : Ints) (s n : ℕ)
    → ((k : ℕ) → k < n → hi k *ℤ pos s +ℤ lo k ≡ w k)
    → dot a hi n *ℤ pos s +ℤ dot a lo n ≡ dot a w n
unfolding dot sum_upto
dot_split a hi lo w s zero same =
    eq_of_parts _ _ (omega (arith, +ℤ_parts (pos 0 *ℤ pos s) (pos 0), *ℤ_pos (pos 0) s))
dot_split a hi lo w s (suc n) same =
    regroup (dot a hi n) (a n *ℤ hi n) (dot a lo n) (a n *ℤ lo n) s
    ∙ ap₂ ◌+ℤ◌ (dot_split a hi lo w s n (λ k h. same k (omega arith)))
        (sym (*ℤ_linear (a n) (hi n) (lo n) s) ∙ ap (λ t. a n *ℤ t) (same n (omega arith)))
