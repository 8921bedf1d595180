-- ===== src/Add/Elements.antt =====
-- dav2_add is the addition element by element.
use risc_v_vi_t_accelerator.Base.{
  ℕ, ◌+◌, ◌-◌, ◌*◌, ◌/◌, ◌%◌, ◌^◌, ◌≤◌, ◌<◌, ◌≡◌, refl, ap, ◌∙◌, arith, Bool, true, false, leb,
  ◌&&◌, if◌then◌else◌, pos, pos_part, mag, signed16, bit_or, bit_or_step, for_range, Bool-cases,
  inl, inr,
}
use risc_v_vi_t_accelerator.Copy.Memory.{Halfwords, IsHalfwords}
use risc_v_vi_t_accelerator.Xf.{leb_ℤ}
use risc_v_vi_t_accelerator.Fixed.{apply_multiplier, words_ok}
use risc_v_vi_t_accelerator.Add.{
  Factors, Operand, add_params, sum_by, add_one, add_range, scan_one, find_amax, add_begin, add,
}
use risc_v_vi_t_accelerator.Add.Range.{signed16-InInt16, value_at, IsWithin}
use risc_v_vi_t_accelerator.Add.Scan.{for_range-scan_words, scan-bounds}
use risc_v_vi_t_accelerator.Add.Sum.{
  IsFactors, IsShifts, add_params-IsFactors, limit_of, add_range-elements,
}

both_true : (x y : Bool) → (x && y) ≡ true → (x ≡ true) × (y ≡ true)
both_true x y h = ground arith

-- What the test of the addresses says.
multiples : (p q : ℕ) → bit_or p q % 4 ≡ 0 → (p % 4 ≡ 0) × (q % 4 ≡ 0)
multiples p q h = omega (arith, bit_or_step p q, bit_or_step (p / 2) (q / 2))

pub words_ok-even :
    (a b out total : ℕ)
    → words_ok (2 * a) (2 * b) (2 * out) total ≡ true
    → ((a % 2 ≡ 0) × (b % 2 ≡ 0) × (out % 2 ≡ 0)) × (total % 2 ≡ 0)
unfolding words_ok
words_ok-even a b out total h =
    let all : bit_or (bit_or (2 * a) (2 * b)) (2 * out) % 4 ≡ 0 = ground arith in
    let (both, third) = multiples (bit_or (2 * a) (2 * b)) (2 * out) all in
    let (one, two) = multiples (2 * a) (2 * b) both in ground arith

-- A recorded largest |value| is one.
abbrev pub IsRecorded : Operand → ℕ → Halfwords → Type 0
IsRecorded x total mem =
    leb_ℤ (pos 0) x.amax_q ≡ true
    → (i : ℕ) → i < total
    → mag (value_at mem (x.v + i)) ≤ pos_part x.amax_q

module _ (a b : Operand) (total : ℕ) (mem : Halfwords) where
  find_amax-elements :
      (wide : Bool)
      → (wide ≡ true → total % 2 ≡ 0)
      → IsHalfwords mem
      → find_amax wide a b total mem ≡ find_amax false a b total mem
  unfolding find_amax
  find_amax-elements false even hw = refl
  find_amax-elements true even hw =
      ap
        (λ (r : ℕ × ℕ).
          if leb_ℤ (pos 0) a.amax_q && leb_ℤ (pos 0) b.amax_q
          then (pos_part a.amax_q, pos_part b.amax_q)
          else r)
        (for_range-scan_words a.v b.v mem (total / 2) 0 (0, 0) hw
          ∙ ap (λ (t : ℕ). for_range t 0 (scan_one a.v b.v mem) (0, 0)) twice)
    where
      twice : 2 * (total / 2) ≡ total
      twice = omega (arith, even refl)

  find_amax-bounds :
      IsRecorded a total mem
      → IsRecorded b total mem
      → (i : ℕ) → i < total
      → (mag (value_at mem (a.v + i)) ≤ (find_amax false a b total mem).0)
        × (mag (value_at mem (b.v + i)) ≤ (find_amax false a b total mem).1)
  unfolding find_amax
  find_amax-bounds ra rb i h =
      elim (Bool-cases (leb_ℤ (pos 0) a.amax_q && leb_ℤ (pos 0) b.amax_q)) [
        | inl e ↦ rw e (ra (both_true _ _ e).0 i h, rb (both_true _ _ e).1 i h)
        | inr e ↦ rw e (scan-bounds a.v b.v total mem i h)
      ]

add_range-plain :
    (small : Bool) (f : Factors) (a b out total : ℕ) (s : Halfwords × ℕ)
    → add_range false small f a b out 0 total s
      ≡ for_range total 0 (add_one (sum_by apply_multiplier f) a b out) s
unfolding add_range
add_range-plain small f a b out total s =
    ap (λ (t : ℕ). for_range t 0 (add_one (sum_by apply_multiplier f) a b out) s) {x = total - 0}
      {y = total} (omega arith)

-- The factors of the sum with the operands' largest |values| by elements.
abbrev pub plain_factors : Operand → Operand → Halfwords → Factors
plain_factors a b mem =
    let amax = find_amax false a b (a.n * a.c) mem in (add_params amax.0 a.scale amax.1 b.scale).1

within :
    (a b : Operand) (total : ℕ) (mem : Halfwords)
    → IsHalfwords mem
    → IsRecorded a total mem
    → IsRecorded b total mem
    → (let amax = find_amax false a b total mem in
        IsWithin total (limit_of (leb amax.0 16_383 && leb amax.1 16_383)) a.v b.v mem)
within a b total mem hw ra rb =
    let amax = find_amax false a b total mem in
    let bounds = find_amax-bounds a b total mem ra rb in
    record {
      halfwords = hw;
      first = λ i h. limited (mem (a.v + i)) amax.0 amax.1 (hw (a.v + i)) (bounds i h).0;
      second = λ i h. limited' (mem (b.v + i)) amax.0 amax.1 (hw (b.v + i)) (bounds i h).1;
    }
  where
    limited :
        (w x y : ℕ)
        → w < 2 ^ 16
        → mag (signed16 w) ≤ x
        → mag (signed16 w) ≤ limit_of (leb x 16_383 && leb y 16_383)
    limited w x y hw h = ground (arith, signed16-InInt16 w hw)

    limited' :
        (w x y : ℕ)
        → w < 2 ^ 16
        → mag (signed16 w) ≤ y
        → mag (signed16 w) ≤ limit_of (leb x 16_383 && leb y 16_383)
    limited' w x y hw h = ground (arith, signed16-InInt16 w hw)

-- Memory in halfwords, largest |values| that are right where they are recorded, scales with mantissas
-- below 2^31, and shifts of at most 47 where both are 17 and more: dav2_add leaves the memory and the
-- largest |value| of the loop that adds element by element with apply_multiplier, whatever the
-- alignment, the path, and the overlap of the tensors.
pub add-elements :
    (a b : Operand) (out : ℕ) (mem : Halfwords)
    → IsHalfwords mem
    → IsRecorded a (a.n * a.c) mem
    → IsRecorded b (a.n * a.c) mem
    → (mag a.scale.m < 2 ^ 31) × (mag b.scale.m < 2 ^ 31)
    → IsShifts (plain_factors a b mem)
    → add a b out mem
      ≡ for_range
          (a.n * a.c)
          0
          (add_one (sum_by apply_multiplier (plain_factors a b mem)) a.v b.v out)
          (mem, 0)
unfolding add add_begin
add-elements a b out mem hw ra rb (ha, hb) shifts =
    let total = a.n * a.c in
    let wide = words_ok (2 * a.v) (2 * b.v) (2 * out) total in
    let amax = find_amax false a b total mem in
    let small = leb amax.0 16_383 && leb amax.1 16_383 in
    let f = plain_factors a b mem in
    ap
      (λ (r : ℕ × ℕ).
        add_range wide (leb r.0 16_383 && leb r.1 16_383) (add_params r.0 a.scale r.1 b.scale).1 a.v
          b.v out 0 total (mem, 0))
      (find_amax-elements a b total mem wide (λ w. (words_ok-even a.v b.v out total w).1) hw)
    ∙ chosen wide (λ w. words_ok-even a.v b.v out total w)
    ∙ add_range-plain small f a.v b.v out total (mem, 0)
  where
    g : IsFactors (plain_factors a b mem)
    g =
        let amax = find_amax false a b (a.n * a.c) mem in
        add_params-IsFactors amax.0 a.scale amax.1 b.scale ha hb shifts

    chosen :
        (wide : Bool)
        → (wide ≡ true → ((a.v % 2 ≡ 0) × (b.v % 2 ≡ 0) × (out % 2 ≡ 0)) × (a.n * a.c % 2 ≡ 0))
        → (let amax = find_amax false a b (a.n * a.c) mem in
            let small = leb amax.0 16_383 && leb amax.1 16_383 in
            add_range wide small (plain_factors a b mem) a.v b.v out 0 (a.n * a.c) (mem, 0)
            ≡ add_range false small (plain_factors a b mem) a.v b.v out 0 (a.n * a.c) (mem, 0))
    chosen false even = refl
    chosen true even =
        add_range-elements (plain_factors a b mem) a.v b.v out 0 (a.n * a.c) (a.n * a.c) _ (mem, 0)
          g (omega arith, (even refl).1) (omega arith, omega arith) (even refl).0
          (within a b (a.n * a.c) mem hw ra rb)
