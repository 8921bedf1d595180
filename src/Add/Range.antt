-- ===== src/Add/Range.antt =====
-- The word loops of add_range do what the loop by elements does.
use risc_v_vi_t_accelerator.Base.{
  ℕ, zero, suc, ◌+◌, ◌*◌, ◌/◌, ◌%◌, ◌^◌, ◌≤◌, ◌<◌, ◌≡◌, refl, sym, ap, ◌∙◌, arith, ℤ, mag, ◌==◌,
  bits16, signed16, u16, InInt16, for_range, for_range-two, Bool-cases, inl, inr, if-false,
}
use mathlib.Core.Path.{ap₂}
use risc_v_vi_t_accelerator.Copy.Memory.{Halfwords, store16, load32, store32, IsHalfwords}
use risc_v_vi_t_accelerator.Fixed.{lo16, hi16, pack16}
use risc_v_vi_t_accelerator.Fixed.Pairs.{bits16-lt, pack16_sum, signed16-bits16}
use risc_v_vi_t_accelerator.Relu.{larger}
use risc_v_vi_t_accelerator.Add.{add_two, add_one}

-- The value of a halfword.
abbrev pub value_at : Halfwords → ℕ → ℤ
value_at mem j = signed16 (mem j)

pub signed16-InInt16 : (w : ℕ) → w < 2 ^ 16 → InInt16 (signed16 w)
signed16-InInt16 w h = ground arith

pub lo16-load32 : (mem : Halfwords) (p : ℕ) → IsHalfwords mem → lo16 (load32 mem p) ≡ value_at mem p
unfolding lo16
lo16-load32 mem p hw =
    let low = hw p in
    let high = hw (p + 1) in ap signed16 {x = load32 mem p % 2 ^ 16} {y = mem p} (omega arith)

pub hi16-load32 :
    (mem : Halfwords) (p : ℕ) → IsHalfwords mem → hi16 (load32 mem p) ≡ value_at mem (p + 1)
unfolding hi16
hi16-load32 mem p hw =
    let low = hw p in
    let high = hw (p + 1) in
    ap signed16 {x = u16 (load32 mem p / 2 ^ 16)} {y = mem (p + 1)} (omega arith)

-- A word of two values is stored like its halves.
store32-pack16 :
    (mem : Halfwords) (p : ℕ) (lo hi : ℤ)
    → store32 mem p (pack16 lo hi) ≡ store16 (store16 mem p (bits16 lo)) (p + 1) (bits16 hi)
store32-pack16 mem p lo hi =
    let low = bits16-lt lo in
    let high = bits16-lt hi in
    let sum = pack16_sum lo hi in
    let below : pack16 lo hi % 2 ^ 16 ≡ bits16 lo = omega arith in
    let above : pack16 lo hi / 2 ^ 16 ≡ bits16 hi = omega arith in
    ap₂ (λ (s t : ℕ). store16 (store16 mem p s) (p + 1) t) below above

-- The sums agree on int16 values within the limit.
abbrev pub IsSame : ℕ → (ℤ → ℤ → ℤ) → (ℤ → ℤ → ℤ) → Type 0
IsSame limit sum plain =
    (x y : ℤ) → InInt16 x → InInt16 y → mag x ≤ limit → mag y ≤ limit → sum x y ≡ plain x y

module _ (total limit a b : ℕ) where
  -- Memory in halfwords whose first `total` values of both operands are within the limit.
  pub record IsWithin (mem : Halfwords) : Type 0 where
    pub halfwords : IsHalfwords mem
    pub first : (i : ℕ) → i < total → mag (value_at mem (a + i)) ≤ limit
    pub second : (i : ℕ) → i < total → mag (value_at mem (b + i)) ≤ limit

  store-limit :
      (mem : Halfwords) (p j : ℕ) (v : ℤ)
      → mag v ≤ 8191
      → 8191 ≤ limit
      → mag (value_at mem j) ≤ limit
      → mag (value_at (store16 mem p (bits16 v)) j) ≤ limit
  store-limit mem p j v hv hl before =
      let stored = signed16-bits16 v (omega arith, omega arith) in
      let low = bits16-lt v in
      let whole : bits16 v % 2 ^ 16 ≡ bits16 v = omega arith in
      let stored' : signed16 (bits16 v % 2 ^ 16) ≡ v = ap signed16 whole ∙ stored in
      elim (Bool-cases (p == j)) [ inl e ↦ rw (e, stored') (omega arith) | inr e ↦ rw e before ]

  store-IsWithin :
      (mem : Halfwords) (p : ℕ) (v : ℤ)
      → mag v ≤ 8191
      → 8191 ≤ limit
      → IsWithin mem
      → IsWithin (store16 mem p (bits16 v))
  store-IsWithin mem p v hv hl w = record {
    halfwords = λ j. ground (arith, w.halfwords j);
    first = λ i h. store-limit mem p (a + i) v hv hl (w.first i h);
    second = λ i h. store-limit mem p (b + i) v hv hl (w.second i h);
  }

  module _ (sum plain : ℤ → ℤ → ℤ) (out : ℕ) where
    -- A word is two elements, where no element lies across two words.
    add_two-add_one :
        (i : ℕ) (mem : Halfwords) (omax : ℕ)
        → IsSame limit sum plain
        → 2 * i + 1 < total
        → a % 2 ≡ 0
        → b % 2 ≡ 0
        → out % 2 ≡ 0
        → IsWithin mem
        → add_two sum a b out i (mem, omax)
          ≡ add_one plain a b out (2 * i + 1) (add_one plain a b out (2 * i) (mem, omax))
    unfolding add_two add_one
    add_two-add_one i mem omax same hi ea eb eo w =
        let k = 2 * i + 1 in
        let p = out + 2 * i in
        let x0 = value_at mem (a + 2 * i) in
        let y0 = value_at mem (b + 2 * i) in
        let x1 = value_at mem (a + k) in
        let y1 = value_at mem (b + k) in
        let r0 : sum (lo16 (load32 mem (a + 2 * i))) (lo16 (load32 mem (b + 2 * i))) ≡ plain x0 y0 =
          ap₂ sum (lo16-load32 mem (a + 2 * i) w.halfwords)
            (lo16-load32 mem (b + 2 * i) w.halfwords)
          ∙ same x0 y0 (fits (a + 2 * i)) (fits (b + 2 * i)) (w.first (2 * i) (omega arith))
              (w.second (2 * i) (omega arith)) in
        let r1 : sum (hi16 (load32 mem (a + 2 * i))) (hi16 (load32 mem (b + 2 * i))) ≡ plain x1 y1 =
          ap₂ sum (hi16-load32 mem (a + 2 * i) w.halfwords ∙ at_k a)
            (hi16-load32 mem (b + 2 * i) w.halfwords ∙ at_k b)
          ∙ same x1 y1 (fits (a + k)) (fits (b + k)) (w.first k hi) (w.second k hi) in
        let mem1 = store16 mem p (bits16 (plain x0 y0)) in
        let place : p + 1 ≡ out + k = omega arith in
        let kept_a : value_at mem1 (a + k) ≡ x1 =
          ap signed16 (if-false (p == a + k) _ _ (ground arith)) in
        let kept_b : value_at mem1 (b + k) ≡ y1 =
          ap signed16 (if-false (p == b + k) _ _ (ground arith)) in
        let omax1 = larger (mag (plain x0 y0)) omax in
        ap₂ (λ u v. (store32 mem p (pack16 u v), larger (mag v) (larger (mag u) omax))) r0 r1
        ∙ ap (λ (m : Halfwords). (m, larger (mag (plain x1 y1)) omax1))
            (store32-pack16 mem p (plain x0 y0) (plain x1 y1))
        ∙ ap (λ (q : ℕ). (store16 mem1 q (bits16 (plain x1 y1)), larger (mag (plain x1 y1)) omax1))
            place
        ∙ ap (λ v. (store16 mem1 (out + k) (bits16 v), larger (mag v) omax1))
            (sym (ap₂ plain kept_a kept_b))
      where
        fits : (j : ℕ) → InInt16 (value_at mem j)
        fits j = signed16-InInt16 (mem j) (w.halfwords j)

        at_k : (q : ℕ) → value_at mem (q + 2 * i + 1) ≡ value_at mem (q + (2 * i + 1))
        at_k q = ap (value_at mem) {x = q + 2 * i + 1} {y = q + (2 * i + 1)} (omega arith)

    add_one-IsWithin :
        (i : ℕ) (s : Halfwords × ℕ)
        → ((x y : ℤ) → mag (plain x y) ≤ 8191)
        → 8191 ≤ limit
        → IsWithin s.0
        → IsWithin (add_one plain a b out i s).0
    unfolding add_one
    add_one-IsWithin i s bound hl w =
        store-IsWithin s.0 (out + i) (plain (value_at s.0 (a + i)) (value_at s.0 (b + i)))
          (bound _ _) hl w

    -- n words from word k on are the elements of these words.
    pub for_range-add_two :
        (n k : ℕ) (s : Halfwords × ℕ)
        → IsSame limit sum plain
        → ((x y : ℤ) → mag (plain x y) ≤ 8191)
        → 8191 ≤ limit
        → 2 * (k + n) ≤ total
        → a % 2 ≡ 0
        → b % 2 ≡ 0
        → out % 2 ≡ 0
        → IsWithin s.0
        → for_range n k (add_two sum a b out) s
          ≡ for_range (2 * n) (2 * k) (add_one plain a b out) s
    unfolding for_range
    for_range-add_two zero k s same bound hl hi ea eb eo w = refl
    for_range-add_two (suc n) k s same bound hl hi ea eb eo w =
        let first = add_two-add_one k s.0 s.1 same (omega arith) ea eb eo w in
        let s1 = add_one plain a b out (2 * k) s in
        let s2 = add_one plain a b out (2 * k + 1) s1 in
        let w1 = add_one-IsWithin (2 * k) s bound hl w in
        let w2 = add_one-IsWithin (2 * k + 1) s1 bound hl w1 in
        let rest = for_range-add_two n (suc k) s2 same bound hl (omega arith) ea eb eo w2 in
        ap (for_range n (suc k) (add_two sum a b out)) first
        ∙ rest
        ∙ for_range-two (add_one plain a b out) n k s
