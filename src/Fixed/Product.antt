-- ===== src/Fixed/Product.antt =====
-- The two words of a product of int32 values, and quotients of quotients.
use risc_v_vi_t_accelerator.Base.{
  ℕ, suc, ◌+◌, ◌*◌, ◌/◌, ◌%◌, ◌^◌, ◌≤◌, ◌<◌, ◌≡◌, ap, sym, arith, u32, ℤ, pos, negsuc, pos_part,
  neg_part, mag, ◌+ℤ◌, ◌-ℤ◌, ◌*ℤ◌, ◌/ℤ◌, mod_ℤ, bits32, InInt32, mag-*ℤ, /ℤ_parts, /ℤ_unique,
  +ℤ_parts, -ℤ_parts,
}

-- Two int32 factors have a product of at most 2^62 in magnitude.
pub product_bound : (a b : ℤ) → InInt32 a → InInt32 b → mag (a *ℤ b) ≤ 2 ^ 62
product_bound a b ha hb = rw (mag-*ℤ a b) (grind arith)

-- Complements to D, multiplied.
complement_one : (n m y D : ℕ) → y + suc m ≡ D → n * y + n * suc m ≡ n * D
complement_one n m y D e = omega (arith, ap (λ (t : ℕ). n * t) e)

complement_both :
    (n m x y D : ℕ)
    → x + suc n ≡ D
    → y + suc m ≡ D
    → x * y + (suc n + suc m) * D ≡ D * D + suc n * suc m
complement_both n m x y D e f =
    omega (arith, ap (λ (t : ℕ). t * y) e, ap (λ (t : ℕ). suc n * t) f, ap (λ (t : ℕ). D * t) f)

product_pos_neg :
    (n m : ℕ) → (pos_part (pos n *ℤ negsuc m) ≡ 0) × (neg_part (pos n *ℤ negsuc m) ≡ n * suc m)
unfolding ◌*ℤ◌
product_pos_neg n m = (ground arith, ground arith)

product_neg_pos :
    (n m : ℕ) → (pos_part (negsuc n *ℤ pos m) ≡ 0) × (neg_part (negsuc n *ℤ pos m) ≡ suc n * m)
unfolding ◌*ℤ◌
product_neg_pos n m = (ground arith, ground arith)

product_neg_neg :
    (n m : ℕ)
    → (pos_part (negsuc n *ℤ negsuc m) ≡ suc n * suc m) × (neg_part (negsuc n *ℤ negsuc m) ≡ 0)
unfolding ◌*ℤ◌
product_neg_neg n m = (ground arith, ground arith)

-- The residue of a product with negative factors, from their complements x and y.
residue_pos_neg : (n m y : ℕ) → y + suc m ≡ 2 ^ 32 → bits32 (pos n *ℤ negsuc m) ≡ n * y % 2 ^ 32
residue_pos_neg n m y e =
    (/ℤ_unique (pos n *ℤ negsuc m) (pos (n * y / 2 ^ 32) -ℤ pos n) (2 ^ 32) (n * y % 2 ^ 32)
      (omega arith)
      (omega (
        arith,
        product_pos_neg n m,
        complement_one n m y (2 ^ 32) e,
        -ℤ_parts (pos (n * y / 2 ^ 32)) (pos n),
      ))).1

residue_neg_pos : (n m x : ℕ) → x + suc n ≡ 2 ^ 32 → bits32 (negsuc n *ℤ pos m) ≡ x * m % 2 ^ 32
residue_neg_pos n m x e =
    (/ℤ_unique (negsuc n *ℤ pos m) (pos (x * m / 2 ^ 32) -ℤ pos m) (2 ^ 32) (x * m % 2 ^ 32)
      (omega arith)
      (omega (
        arith,
        product_neg_pos n m,
        complement_one m n x (2 ^ 32) e,
        -ℤ_parts (pos (x * m / 2 ^ 32)) (pos m),
      ))).1

residue_neg_neg :
    (n m x y : ℕ)
    → x + suc n ≡ 2 ^ 32
    → y + suc m ≡ 2 ^ 32
    → bits32 (negsuc n *ℤ negsuc m) ≡ x * y % 2 ^ 32
residue_neg_neg n m x y e f =
    (/ℤ_unique (negsuc n *ℤ negsuc m) (pos (x * y / 2 ^ 32 + suc n + suc m) -ℤ pos (2 ^ 32))
      (2 ^ 32) (x * y % 2 ^ 32) (omega arith)
      (omega (
        arith,
        product_neg_neg n m,
        complement_both n m x y (2 ^ 32) e f,
        -ℤ_parts (pos (x * y / 2 ^ 32 + suc n + suc m)) (pos (2 ^ 32)),
      ))).1

bits_pos : (n : ℕ) → n < 2 ^ 31 → bits32 (pos n) ≡ n
unfolding mod_ℤ
bits_pos n h = omega arith

bits_neg : (n : ℕ) → suc n ≤ 2 ^ 31 → bits32 (negsuc n) + suc n ≡ 2 ^ 32
unfolding mod_ℤ
bits_neg n h = omega arith

-- The 32-bit product of the bit patterns is the low word of the product.
pub low_word : (a b : ℤ) → InInt32 a → InInt32 b → u32 (bits32 a * bits32 b) ≡ bits32 (a *ℤ b)
low_word (pos n) (pos m) ha hb =
    rw (bits_pos n ha.0, bits_pos m hb.0) (unfold ◌*ℤ◌ mod_ℤ in ground arith)
low_word (pos n) (negsuc m) ha hb =
    rw (bits_pos n ha.0) (sym (residue_pos_neg n m (bits32 (negsuc m)) (bits_neg m hb.1)))
low_word (negsuc n) (pos m) ha hb =
    rw (bits_pos m hb.0) (sym (residue_neg_pos n m (bits32 (negsuc n)) (bits_neg n ha.1)))
low_word (negsuc n) (negsuc m) ha hb = sym (
    residue_neg_neg n m (bits32 (negsuc n)) (bits32 (negsuc m)) (bits_neg n ha.1) (bits_neg m hb.1))

-- Two divisions in a row: first by D, then, with c added, by d.
pub nested_floor :
    (z : ℤ) (D d c : ℕ) → 0 < D → 0 < d → (z +ℤ pos (c * D)) /ℤ (d * D) ≡ (z /ℤ D +ℤ pos c) /ℤ d
nested_floor z D d c hD hd =
    (/ℤ_unique (z +ℤ pos (c * D)) q (d * D) (mod_ℤ (z /ℤ D +ℤ pos c) d * D + mod_ℤ z D)
      (grind (arith, (/ℤ_parts z D hD).1, (/ℤ_parts (z /ℤ D +ℤ pos c) d hd).1))
      (omega (
        arith,
        +ℤ_parts z (pos (c * D)),
        +ℤ_parts (z /ℤ D) (pos c),
        (/ℤ_parts z D hD).0,
        ap (λ (t : ℕ). t * D) (/ℤ_parts (z /ℤ D +ℤ pos c) d hd).0,
        ap (λ (t : ℕ). t * D) (+ℤ_parts (z /ℤ D) (pos c)),
      ))).0
  where
    q : ℤ
    q = (z /ℤ D +ℤ pos c) /ℤ d
