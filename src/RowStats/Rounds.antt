-- ===== src/RowStats/Rounds.antt =====
-- Rounds of the word loops of row_stats against two rounds each of the loop by elements.
use risc_v_vi_t_accelerator.Base.{
  ℕ, zero, suc, ◌+◌, ◌*◌, ◌≤◌, ◌<◌, ◌≡◌, refl, ◌∙◌, ap, arith, Bool, true, false, if◌then◌else◌, ℤ,
  pos, negsuc, mag, ◌+ℤ◌, ◌*ℤ◌, u32, u64, bits32, bits64, mod_ℤ, for_range, +ℤ_parts, eq_of_parts,
}
use mathlib.Core.Path.{subst}
use native.Mathlib.Nat.{mul-le-mul_left, mul-le-mul_right}
use risc_v_vi_t_accelerator.Gemm.{Ints}
use risc_v_vi_t_accelerator.Fixed.Pairs.{pack16-halves}
use risc_v_vi_t_accelerator.RowStats.{Stats, raise, lower, add_value, add_pair, add_word}

+ℤ_assoc : (a b c : ℤ) → a +ℤ (b +ℤ c) ≡ a +ℤ b +ℤ c
+ℤ_assoc a b c =
    eq_of_parts _ _
      (omega (arith, +ℤ_parts a (b +ℤ c), +ℤ_parts b c, +ℤ_parts (a +ℤ b) c, +ℤ_parts a b))

chosen : (ext : Bool) → ext ≡ true → (x y : ℤ) → (if ext then x else y) ≡ x
chosen true e x y = refl
chosen false e x y = absurd (grind arith)

square_lem : (d : ℤ) → d *ℤ d ≡ pos (mag d * mag d)
unfolding ◌*ℤ◌
square_lem (pos n) = ground arith
square_lem (negsuc n) = ground arith

square_bound : (n : ℕ) → n ≤ 8191 → n * n ≤ 8191 * 8191
square_bound n h = omega (arith, mul-le-mul_left n h, mul-le-mul_right 8191 h)

-- The square of an activation, in both widths.
square_bits :
    (d : ℤ) → mag d ≤ 8191 → (bits32 (d *ℤ d) ≡ mag d * mag d) × (bits64 (d *ℤ d) ≡ mag d * mag d)
unfolding mod_ℤ
square_bits d h =
    rw (square_lem d) (omega (arith, square_bound (mag d) h), omega (arith, square_bound (mag d) h))

-- A state t of the loop by words in a block that began with sq = base, k elements ago, and the
-- state p of the loop by elements.
pub record Agrees (ext : Bool) (base k : ℕ) (t p : Stats) : Type 0 where
  pub same_sum : t.sum ≡ p.sum
  pub same_sq : u64 (base + t.sq) ≡ p.sq
  pub bound : t.sq ≤ k * (8191 * 8191)
  pub same_max : ext ≡ true → t.xmax ≡ p.xmax
  pub same_min : ext ≡ true → t.xmin ≡ p.xmin

sq_step :
    (base k t a b : ℕ)
    → k ≤ 62
    → t ≤ k * (8191 * 8191)
    → a ≤ 8191 * 8191
    → b ≤ 8191 * 8191
    → (u32 (t + u32 (a + b)) ≡ t + a + b)
      × (u64 (base + (t + a + b)) ≡ u64 (u64 (u64 (base + t) + a) + b))
sq_step base k t a b hk ht ha hb = (omega arith, omega arith)

add_pair-Agrees :
    (ext : Bool) (row : Ints) (base k c : ℕ) (t p : Stats)
    → mag (row c) ≤ 8191
    → mag (row (suc c)) ≤ 8191
    → k ≤ 62
    → Agrees ext base k t p
    → Agrees ext base
        (k + 2)
        (add_pair ext (row c) (row (suc c)) t)
        (add_value row (suc c) (add_value row c p))
unfolding add_pair add_value
add_pair-Agrees ext row base k c t p h0 h1 hk a =
    let (both, whole) =
      sq_step base k t.sq (mag (row c) * mag (row c)) (mag (row (suc c)) * mag (row (suc c))) hk
        a.bound (square_bound _ h0) (square_bound _ h1) in
    rw
      (
        (square_bits (row c) h0).0,
        (square_bits (row c) h0).1,
        (square_bits (row (suc c)) h1).0,
        (square_bits (row (suc c)) h1).1,
        both,
      )
      (record {
        same_sum =
            ap (λ x. x +ℤ (row c +ℤ row (suc c))) a.same_sum ∙ +ℤ_assoc p.sum (row c) (row (suc c));
        same_sq =
            whole
            ∙ ap
                (λ x.
                  u64 (u64 (x + mag (row c) * mag (row c)) + mag (row (suc c)) * mag (row (suc c))))
                a.same_sq;
        bound = omega (arith, a.bound, square_bound _ h0, square_bound _ h1);
        same_max = λ e.
            chosen ext e (raise _ (raise _ t.xmax)) _
            ∙ ap (λ x. raise (row (suc c)) (raise (row c) x)) (a.same_max e);
        same_min = λ e.
            chosen ext e (lower _ (lower _ t.xmin)) _
            ∙ ap (λ x. lower (row (suc c)) (lower (row c) x)) (a.same_min e);
      })

for_range-two :
    (n c : ℕ) (f : ℕ → Stats → Stats) (s : Stats)
    → for_range (2 * n) (2 * suc c) f (f (suc (2 * c)) (f (2 * c) s))
      ≡ for_range (2 * suc n) (2 * c) f s
unfolding for_range
for_range-two n c f s =
    ap (λ i. for_range (2 * n) i f (f (suc (2 * c)) (f (2 * c) s))) (omega arith)
    ∙ ap (λ m. for_range m (2 * c) f s) {x = suc (suc (2 * n))} {y = 2 * suc n} (omega arith)

pub for_range-append :
    (m n i : ℕ) (f : ℕ → Stats → Stats) (s : Stats)
    → for_range n (i + m) f (for_range m i f s) ≡ for_range (m + n) i f s
unfolding for_range
for_range-append zero n i f s =
    ap (λ j. for_range n j f s) (omega arith)
    ∙ ap (λ m. for_range m i f s) {x = n} {y = 0 + n} (omega arith)
for_range-append (suc m) n i f s =
    ap (λ j. for_range n j f (for_range m (suc i) f (f i s))) {x = i + suc m} {y = suc i + m}
      (omega arith)
    ∙ for_range-append m n (suc i) f (f i s)
    ∙ ap (λ k. for_range k i f s) {x = suc (m + n)} {y = suc m + n} (omega arith)

module _ (row : Ints) (len : ℕ) (small : (i : ℕ) → i < len → mag (row i) ≤ 8191) where
  -- A word holds the two elements.
  add_word-add_pair :
      (ext : Bool) (c : ℕ) (s : Stats)
      → suc (2 * c) < len
      → add_word ext row c s ≡ add_pair ext (row (2 * c)) (row (suc (2 * c))) s
  unfolding add_word
  add_word-add_pair ext c s h =
      let (low, high) =
        pack16-halves (row (2 * c)) (row (2 * c + 1))
          (omega (arith, small (2 * c) (omega arith)), omega (arith, small (2 * c) (omega arith)))
          (
            omega (arith, small (2 * c + 1) (omega arith)),
            omega (arith, small (2 * c + 1) (omega arith)),
          ) in
      rw (low, high) (ap (λ i. add_pair ext (row (2 * c)) (row i) s) (omega arith))

  pub words-Agrees :
      (ext : Bool) (base k n c : ℕ) (t p : Stats)
      → 2 * (c + n) ≤ len
      → k + 2 * n ≤ 64
      → Agrees ext base k t p
      → Agrees ext base
          (k + 2 * n)
          (for_range n c (add_word ext row) t)
          (for_range (2 * n) (2 * c) (add_value row) p)
  unfolding for_range
  words-Agrees ext base k zero c t p h hk a = subst (λ j. Agrees ext base j t p) (omega arith) a
  words-Agrees ext base k (suc n) c t p h hk a =
      subst
        (λ j.
          Agrees ext base j (for_range (suc n) c (add_word ext row) t)
            (for_range (2 * suc n) (2 * c) (add_value row) p))
        {x = k + 2 + 2 * n} {y = k + 2 * suc n} (omega arith)
        (subst (λ q. Agrees ext base (k + 2 + 2 * n) (for_range (suc n) c (add_word ext row) t) q)
          (for_range-two n c (add_value row) p)
          (words-Agrees ext base (k + 2) n (suc c) (add_word ext row c t)
            (add_value row (suc (2 * c)) (add_value row (2 * c) p)) (omega arith) (omega arith)
            (rw (add_word-add_pair ext c t (omega arith)) (
              add_pair-Agrees ext row base k (2 * c) t p (small (2 * c) (omega arith))
                (small (suc (2 * c)) (omega arith)) (omega arith) a))))
