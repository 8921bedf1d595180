-- ===== src/Relu/Laws.antt =====
-- Both paths of the ReLU replace exactly the negative values of the range by 0.
use risc_v_vi_t_accelerator.Base.{
  ℕ, zero, suc, ◌+◌, ◌*◌, ◌/◌, ◌%◌, ◌^◌, ◌<◌, ◌≡◌, sym, ap, ◌∙◌, arith, bit_and_mask, leb, ltb,
  if◌then◌else◌, Bool-cases, inl, inr, ◌==◌, ◌&&◌, true,
}
use risc_v_vi_t_accelerator.Copy.Memory.{Halfwords, store16, load32, store32, IsHalfwords}
use risc_v_vi_t_accelerator.Relu.{sign_mask, clear_signs, relu_words, relu_halves, relu, larger}
use risc_v_vi_t_accelerator.Relu.Words.{clear_signs_lem}

-- max(h, 0) of an int16 in its bit pattern.
unfoldable pub rectified : ℕ → ℕ
rectified h = if ltb h (2 ^ 15) then h else 0

abbrev pub IsRelu : ℕ → ℕ → Halfwords → Halfwords → Type 0
IsRelu v n mem out =
    (j : ℕ) → out j ≡ (if leb v j && ltb j (v + n) then rectified (mem j) else mem j)

-- The word that dav2_relu goes on with.
abbrev next_word : ℕ → ℕ
next_word x = if sign_mask x == 0 then x else clear_signs x

abbrev next_mem : ℕ → Halfwords → Halfwords
next_mem d mem =
    let x = load32 mem d in if sign_mask x == 0 then mem else store32 mem d (next_word x)

no_sign : (x : ℕ) → x < 2 ^ 32 → (sign_mask x == 0) ≡ true → clear_signs x ≡ x
unfolding clear_signs
no_sign x h e =
    let none : sign_mask x ≡ 0 = ground arith in rw none (omega (arith, bit_and_mask 32 x))

next_word_lem :
    (lo hi : ℕ)
    → lo < 2 ^ 16
    → hi < 2 ^ 16
    → next_word (lo + 2 ^ 16 * hi) ≡ rectified lo + 2 ^ 16 * rectified hi
unfolding rectified
next_word_lem lo hi hl hh = elim (Bool-cases (sign_mask (lo + 2 ^ 16 * hi) == 0)) [
  | inl e ↦ rw e (sym (no_sign (lo + 2 ^ 16 * hi) (omega arith) e) ∙ clear_signs_lem lo hi hl hh)
  | inr e ↦ rw e (clear_signs_lem lo hi hl hh)
]

-- The two values of the word at d, and every other place.
next_mem_lem :
    (d j : ℕ) (mem : Halfwords)
    → IsHalfwords mem
    → next_mem d mem j ≡ (
        if d == j then rectified (mem d) else if d + 1 == j then rectified (mem (d + 1)) else mem j)
unfolding rectified
next_mem_lem d j mem hw =
    let lo = hw d in
    let hi = hw (d + 1) in
    let word = next_word_lem (mem d) (mem (d + 1)) lo hi in
    let here = λ (e : d ≡ j). ap mem e in
    let above = λ (e : d + 1 ≡ j). ap mem e in
    elim (Bool-cases (sign_mask (load32 mem d) == 0)) [
      | inl e ↦
          let same : mem d + 2 ^ 16 * mem (d + 1)
              ≡ rectified (mem d) + 2 ^ 16 * rectified (mem (d + 1)) =
            rw e at word in
          rw e (ground arith)
      | inr e ↦
          let changed : clear_signs (load32 mem d)
              ≡ rectified (mem d) + 2 ^ 16 * rectified (mem (d + 1)) =
            rw e at word in
          rw e (ground arith)
    ]

next_mem-IsRelu : (d : ℕ) (mem : Halfwords) → IsHalfwords mem → IsRelu d 2 mem (next_mem d mem)
next_mem-IsRelu d mem hw j =
    let here = λ (e : d ≡ j). ap (λ (t : ℕ). rectified (mem t)) e in
    let above = λ (e : d + 1 ≡ j). ap (λ (t : ℕ). rectified (mem t)) e in
    next_mem_lem d j mem hw ∙ ground arith

IsRelu-IsHalfwords :
    (v n : ℕ) (mem out : Halfwords) → IsHalfwords mem → IsRelu v n mem out → IsHalfwords out
unfolding rectified
IsRelu-IsHalfwords v n mem out hw r j = ground (arith, r j, hw j)

IsRelu-join :
    (v k n : ℕ) (mem mid out : Halfwords)
    → IsRelu v k mem mid
    → IsRelu (v + k) n mid out
    → IsRelu v (k + n) mem out
IsRelu-join v k n mem mid out p q j = ground (arith, p j, q j)

relu_words-IsRelu :
    (n d : ℕ) (mem : Halfwords) (omax : ℕ)
    → IsHalfwords mem
    → IsRelu d (2 * n) mem (relu_words n d (mem, omax)).0
unfolding relu_words
relu_words-IsRelu zero d mem omax hw j = ground arith
relu_words-IsRelu (suc n) d mem omax hw j =
    let first = next_mem-IsRelu d mem hw in
    let y = next_word (load32 mem d) in
    let rest =
      relu_words-IsRelu n (d + 2) (next_mem d mem) (larger (y / 2 ^ 16) (larger (y % 2 ^ 16) omax))
        (IsRelu-IsHalfwords d 2 mem (next_mem d mem) hw first) in
    IsRelu-join d 2 (2 * n) mem (next_mem d mem) _ first rest j
    ∙ ap (λ (t : ℕ). if leb d j && ltb j (d + t) then rectified (mem j) else mem j) {x = 2 + 2 * n}
        {y = 2 * suc n} (omega arith)

abbrev next_half : ℕ → Halfwords → Halfwords
next_half d mem = if ltb (mem d) (2 ^ 15) then mem else store16 mem d 0

next_half-IsRelu : (d : ℕ) (mem : Halfwords) → IsRelu d 1 mem (next_half d mem)
unfolding rectified
next_half-IsRelu d mem j =
    let here = λ (e : d ≡ j). ap mem e in
    elim (Bool-cases (ltb (mem d) (2 ^ 15))) [
      | inl e ↦ rw e (ground arith)
      | inr e ↦ rw e (ground arith)
    ]

relu_halves-IsRelu :
    (n d : ℕ) (mem : Halfwords) (omax : ℕ) → IsRelu d n mem (relu_halves n d (mem, omax)).0
unfolding relu_halves
relu_halves-IsRelu zero d mem omax j = ground arith
relu_halves-IsRelu (suc n) d mem omax j =
    let first = next_half-IsRelu d mem in
    let rest = relu_halves-IsRelu n (d + 1) (next_half d mem) (larger (next_half d mem d) omax) in
    IsRelu-join d 1 n mem (next_half d mem) _ first rest j
    ∙ ap (λ (t : ℕ). if leb d j && ltb j (d + t) then rectified (mem j) else mem j) {x = 1 + n}
        {y = suc n} (omega arith)

-- Whatever the alignment and the count, dav2_relu replaces the negative ones of the values at v by 0,
-- and leaves the others and the rest of memory as they were.
pub relu-IsRelu :
    (v total : ℕ) (mem : Halfwords) → IsHalfwords mem → IsRelu v total mem (relu v total mem).0
unfolding relu
relu-IsRelu v total mem hw j = elim (Bool-cases ((v % 2 == 0) && (total % 2 == 0))) [
  | inl words ↦ rw words (
      relu_words-IsRelu (total / 2) v mem 0 hw j
      ∙ ap (λ (t : ℕ). if leb v j && ltb j (v + t) then rectified (mem j) else mem j)
          {x = 2 * (total / 2)} {y = total} (ground arith))
  | inr halves ↦ rw halves (relu_halves-IsRelu total v mem 0 j)
]
