-- ===== src/Attention/Shift.antt =====
-- The shift that brings a head's q to 11 bits, and the values after it.
use risc_v_vi_t_accelerator.Base.{
  ℕ, zero, suc, ◌+◌, ◌*◌, ◌/◌, ◌^◌, ◌≤◌, ◌<◌, ◌≡◌, ap, arith, ltb, Bool-cases, inl, inr, bit_or,
  bit_or_above, bit_or_below, pow_add, pow_pos, ℤ, pos, negsuc, pos_part, neg_part, mag, ◌>>ℤ◌,
  ◌/ℤ◌, for_range, for_range_inv,
}
use native.Mathlib.Decide.{dec_le}
use native.Mathlib.Nat.{div-add-mod, mod-lt, mul-le-mul_left}
use risc_v_vi_t_accelerator.Gemm.{Ints}
use risc_v_vi_t_accelerator.Attention.Halves.{head_dim, qk_qmax, q_shift, q_at, q_max, q_sh}

below_of_div : (m d n : ℕ) → 0 < d → m / d ≤ n → m < suc n * d
below_of_div m d n h le = omega (arith, div-add-mod m d, mod-lt m {m = d} h, mul-le-mul_left d le)

div_of_below : (m d n : ℕ) → 0 < d → m < suc n * d → m / d ≤ n
div_of_below m d n h below = elim (dec_le (m / d) n) [
  | yes p ↦ p
  | no p ↦
      let more : d * suc n ≤ d * (m / d) = mul-le-mul_left d (omega arith) in
      absurd (omega (arith, div-add-mod m d))
]

-- The loop ends below 2^11, if the fuel covers the bits above.
q_shift-ends : (fuel m sh : ℕ) → m < 2 ^ (11 + sh + fuel) → m / 2 ^ q_shift fuel m sh ≤ 2047
unfolding q_shift
q_shift-ends zero m sh h = div_of_below m (2 ^ sh) 2047 (pow_pos sh) (
    omega
      (arith, pow_add 11 sh, ap (λ (t : ℕ). 2 ^ t) {x = 11 + sh + 0} {y = 11 + sh} (omega arith)))
q_shift-ends (suc fuel) m sh h = elim (Bool-cases (ltb qk_qmax (m / 2 ^ sh))) [
  | inl more ↦ rw more (
      q_shift-ends fuel m (sh + 1) (
        omega (
          arith,
          ap (λ (t : ℕ). 2 ^ t) {x = 11 + sh + suc fuel} {y = 11 + (sh + 1) + fuel} (omega arith),
        )))
  | inr done ↦ rw done (ground arith)
]

-- What qmax covers of the values seen so far.
record Covers (x : ℕ → ℕ → ℤ) (rows d m : ℕ) : Type 0 where
  all : (t i : ℕ) → t < rows → i < head_dim → mag (x t i) ≤ m
  row : (i : ℕ) → i < 2 * d → mag (x rows i) ≤ m
  bits : m < 2 ^ 16

pair-Covers :
    (x : ℕ → ℕ → ℤ) (rows d m : ℕ)
    → mag (x rows (2 * d)) < 2 ^ 16
    → mag (x rows (2 * d + 1)) < 2 ^ 16
    → Covers x rows d m
    → Covers x rows (suc d) (bit_or m (bit_or (mag (x rows (2 * d))) (mag (x rows (2 * d + 1)))))
pair-Covers x rows d m hx hy c = record {
  all = λ t i ht hi. omega (arith, c.all t i ht hi, bit_or_above m both);
  row = covered;
  bits = bit_or_below 16 m both c.bits (bit_or_below 16 a b hx hy);
}
  where
    a : ℕ
    a = mag (x rows (2 * d))

    b : ℕ
    b = mag (x rows (2 * d + 1))

    both : ℕ
    both = bit_or a b

    at : (i j : ℕ) → i ≡ j → mag (x rows i) ≡ mag (x rows j)
    at i j e = ap (λ (k : ℕ). mag (x rows k)) e

    covered : (i : ℕ) → i < 2 * suc d → mag (x rows i) ≤ bit_or m both
    covered i hi = elim (dec_le (suc i) (2 * d)) [
      | yes before ↦ omega (arith, c.row i before, bit_or_above m both)
      | no now ↦ elim (dec_le i (2 * d)) [
        | yes first ↦
            omega (arith, at i (2 * d) (omega arith), bit_or_above m both, bit_or_above a b)
        | no second ↦
            omega (arith, at i (2 * d + 1) (omega arith), bit_or_above m both, bit_or_above a b)
      ]
    ]

shifted :
    (v : ℤ) (m sh : ℕ)
    → mag v ≤ m
    → m / 2 ^ sh ≤ 2047
    → (pos_part (v >>ℤ sh) ≤ 2047) × (neg_part (v >>ℤ sh) ≤ 2048)
unfolding ◌/ℤ◌
shifted (pos n) m sh h le =
    let below = below_of_div m (2 ^ sh) 2047 (pow_pos sh) le in
    (omega (arith, div_of_below n (2 ^ sh) 2047 (pow_pos sh) (omega arith)), omega arith)
shifted (negsuc n) m sh h le =
    let below = below_of_div m (2 ^ sh) 2047 (pow_pos sh) le in
    (omega arith, omega (arith, div_of_below n (2 ^ sh) 2047 (pow_pos sh) (omega arith)))

module _ (qkv : Ints) (c head n : ℕ) (fits : (i : ℕ) → mag (qkv i) ≤ 2 ^ 15) where
  row-Covers :
      (t m : ℕ)
      → Covers (q_at qkv c head n) t 0 m
      → Covers (q_at qkv c head n) (suc t) 0 (
          for_range
            (head_dim / 2)
            0
            (λ d m.
              bit_or m (
                bit_or (mag (q_at qkv c head n t (2 * d))) (mag (q_at qkv c head n t (2 * d + 1)))))
            m)
  unfolding q_at
  row-Covers t m start =
      let done =
        for_range_inv (λ d k. Covers (q_at qkv c head n) t d k)
          (λ d m.
            bit_or m
              (bit_or (mag (q_at qkv c head n t (2 * d))) (mag (q_at qkv c head n t (2 * d + 1)))))
          32 0 32 m (omega arith)
          (λ d k lo hi.
            pair-Covers (q_at qkv c head n) t d k
              (omega (arith, fits (t * c + head * head_dim + 2 * d)))
              (omega (arith, fits (t * c + head * head_dim + (2 * d + 1)))))
          start in
      record {
        all = λ i j hi hj. elim (dec_le (suc i) t) [
          | yes earlier ↦ done.all i j earlier hj
          | no this ↦ omega (
            arith,
            done.row j (omega arith),
            ap (λ (k : ℕ). mag (q_at qkv c head n k j)) {x = i} {y = t} (omega arith),
          )
        ];
        row = λ i hi. absurd (omega arith);
        bits = done.bits;
      }

  q_max-Covers : Covers (q_at qkv c head n) n 0 (q_max qkv c head n)
  unfolding q_max
  q_max-Covers =
      for_range_inv (λ t m. Covers (q_at qkv c head n) t 0 m)
        (λ t m.
          for_range (head_dim / 2) 0
            (λ d m.
              bit_or m (
                bit_or (mag (q_at qkv c head n t (2 * d))) (mag (q_at qkv c head n t (2 * d + 1)))))
            m)
        n 0 n 0 (omega arith) (λ t m lo hi. row-Covers t m)
        (record {
          all = λ t i ht hi. absurd (omega arith);
          row = λ i hi. absurd (omega arith);
          bits = omega arith;
        })

  -- After the shift q has 12 bits with its sign.
  pub q_at-shifted :
      (t d : ℕ)
      → t < n
      → d < head_dim
      → (pos_part (q_at qkv c head n t d >>ℤ q_sh qkv c head n) ≤ 2047)
        × (neg_part (q_at qkv c head n t d >>ℤ q_sh qkv c head n) ≤ 2048)
  unfolding q_sh
  q_at-shifted t d ht hd =
      let ends = q_shift-ends 32 (q_max qkv c head n) 0 (omega (arith, q_max-Covers.bits)) in
      shifted (q_at qkv c head n t d) (q_max qkv c head n) (q_shift 32 (q_max qkv c head n) 0)
        (q_max-Covers.all t d ht hd) ends
