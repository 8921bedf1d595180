-- ===== src/Relu/Words.antt =====
-- The bit mask clears exactly the negative halves of a word.
use risc_v_vi_t_accelerator.Base.{
  ℕ, zero, suc, ◌+◌, ◌*◌, ◌/◌, ◌%◌, ◌^◌, ◌<◌, ◌≡◌, ap, ◌∙◌, arith, bit_and, bit_or, bit_xor,
  bit_and_step, bit_and_mask, pow_suc_two, ltb, if◌then◌else◌, Bool-cases, inl, inr,
}
use mathlib.Core.Path.{ap₂}
use native.Mathlib.Nat.{div-div-eq-div-mul}
use risc_v_vi_t_accelerator.Relu.{sign_mask, clear_signs}

-- A mask that starts at bit k reads the number shifted right by k.
and_shifted : (k a m : ℕ) → bit_and a (m * 2 ^ k) ≡ bit_and (a / 2 ^ k) m * 2 ^ k
and_shifted zero a m =
    ap (λ (t : ℕ). bit_and a t) {x = m * 2 ^ 0} {y = m} (omega arith)
    ∙ ap (λ (t : ℕ). bit_and t m) {x = a} {y = a / 2 ^ 0} (omega arith)
    ∙ omega arith
and_shifted (suc k) a m = omega (
  arith,
  bit_and_step a (m * 2 ^ suc k),
  ap (λ (t : ℕ). m * t) (pow_suc_two k),
  ap (λ (t : ℕ). bit_and (a / 2) t) {x = m * 2 ^ suc k / 2} {y = m * 2 ^ k}
      (omega (arith, ap (λ (t : ℕ). m * t) (pow_suc_two k))),
  and_shifted k (a / 2) m,
  ap (λ (t : ℕ). bit_and t m * 2 ^ k) quotient,
  ap (λ (t : ℕ). bit_and (a / 2 ^ suc k) m * t) (pow_suc_two k),
)
  where
    quotient : a / 2 / 2 ^ k ≡ a / 2 ^ suc k
    quotient =
        div-div-eq-div-mul a 2 (2 ^ k)
        ∙ ap (λ (t : ℕ). a / t) {x = 2 * 2 ^ k} {y = 2 ^ suc k} (omega (arith, pow_suc_two k))

-- The high half of a word.
keep_high : (x : ℕ) → x < 2 ^ 32 → bit_and x 0xffff_0000 ≡ x / 2 ^ 16 * 2 ^ 16
keep_high x h = omega (arith, and_shifted 16 x 0xffff, bit_and_mask 16 (x / 2 ^ 16))

keep_none : (x : ℕ) → bit_and x 0 ≡ 0
keep_none x = omega (arith, bit_and_mask 0 x)

-- The halves of a word with the negative ones replaced by 0.
pub clear_signs_lem :
    (lo hi : ℕ)
    → lo < 2 ^ 16
    → hi < 2 ^ 16
    → clear_signs (lo + 2 ^ 16 * hi)
      ≡ (if ltb lo (2 ^ 15) then lo else 0) + 2 ^ 16 * (if ltb hi (2 ^ 15) then hi else 0)
unfolding clear_signs sign_mask
clear_signs_lem lo hi hl hh = elim (Bool-cases (ltb lo (2 ^ 15))) [
  | inl l ↦ elim (Bool-cases (ltb hi (2 ^ 15))) [
    | inl h ↦
        rw (l, h) (masked 0 0 (ground arith) (ground arith) ∙ omega (arith, bit_and_mask 32 word))
    | inr h ↦
        rw (l, h) (masked 0 1 (ground arith) (ground arith) ∙ omega (arith, bit_and_mask 16 word))
  ]
  | inr l ↦ elim (Bool-cases (ltb hi (2 ^ 15))) [
    | inl h ↦ rw (l, h) (masked 1 0 (ground arith) (ground arith) ∙ omega (arith, keep_high word))
    | inr h ↦ rw (l, h) (masked 1 1 (ground arith) (ground arith) ∙ omega (arith, keep_none word))
  ]
]
  where
    word : ℕ
    word = lo + 2 ^ 16 * hi

    masked :
        (a b : ℕ)
        → word / 2 ^ 15 % 2 ≡ a
        → word / 2 ^ 31 % 2 ≡ b
        → bit_and word (
            bit_xor
              (bit_or (word / 2 ^ 15 % 2 * 0xffff) (word / 2 ^ 31 % 2 * 0xffff_0000))
              0xffff_ffff)
          ≡ bit_and word (bit_xor (bit_or (a * 0xffff) (b * 0xffff_0000)) 0xffff_ffff)
    masked a b ha hb =
        ap₂
          (λ (s t : ℕ). bit_and word (bit_xor (bit_or (s * 0xffff) (t * 0xffff_0000)) 0xffff_ffff))
          ha hb
