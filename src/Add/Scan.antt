-- ===== src/Add/Scan.antt =====
-- The scan of dav2_add_begin for the largest |value| of both operands.
use risc_v_vi_t_accelerator.Base.{
  ℕ, zero, suc, ◌+◌, ◌*◌, ◌≤◌, ◌<◌, ◌≡◌, refl, ap, ◌∙◌, arith, mag, for_range, for_range-two,
  for_range_inv,
}
use mathlib.Core.Path.{ap₂}
use native.Mathlib.Decide.{dec_le}
use risc_v_vi_t_accelerator.Copy.Memory.{Halfwords, load32, IsHalfwords}
use risc_v_vi_t_accelerator.Fixed.{hi16}
use risc_v_vi_t_accelerator.Relu.{larger}
use risc_v_vi_t_accelerator.Add.{scan_words, scan_one}
use risc_v_vi_t_accelerator.Add.Range.{value_at, lo16-load32, hi16-load32}

-- The scan by words is the scan by elements.
scan_words-scan_one :
    (a b i : ℕ) (mem : Halfwords) (s : ℕ × ℕ)
    → IsHalfwords mem
    → scan_words a b mem i s ≡ scan_one a b mem (2 * i + 1) (scan_one a b mem (2 * i) s)
unfolding scan_words scan_one
scan_words-scan_one a b i mem s hw =
    ap₂
      (λ u v. (
        larger (mag (hi16 (load32 mem (a + 2 * i)))) (larger (mag u) s.0),
        larger (mag (hi16 (load32 mem (b + 2 * i)))) (larger (mag v) s.1),
      ))
      (lo16-load32 mem (a + 2 * i) hw) (lo16-load32 mem (b + 2 * i) hw)
    ∙ ap₂
        (λ u v. (
          larger (mag u) (larger (mag (value_at mem (a + 2 * i))) s.0),
          larger (mag v) (larger (mag (value_at mem (b + 2 * i))) s.1),
        ))
        (hi16-load32 mem (a + 2 * i) hw ∙ at_next a) (hi16-load32 mem (b + 2 * i) hw ∙ at_next b)
  where
    at_next : (q : ℕ) → value_at mem (q + 2 * i + 1) ≡ value_at mem (q + (2 * i + 1))
    at_next q = ap (value_at mem) {x = q + 2 * i + 1} {y = q + (2 * i + 1)} (omega arith)

pub for_range-scan_words :
    (a b : ℕ) (mem : Halfwords) (n k : ℕ) (s : ℕ × ℕ)
    → IsHalfwords mem
    → for_range n k (scan_words a b mem) s ≡ for_range (2 * n) (2 * k) (scan_one a b mem) s
unfolding for_range
for_range-scan_words a b mem zero k s hw = refl
for_range-scan_words a b mem (suc n) k s hw =
    ap (for_range n (suc k) (scan_words a b mem)) (scan_words-scan_one a b k mem s hw)
    ∙ for_range-scan_words a b mem n (suc k)
        (scan_one a b mem (2 * k + 1) (scan_one a b mem (2 * k) s)) hw
    ∙ for_range-two (scan_one a b mem) n k s

-- The scan finds an upper bound of every |value|.
abbrev IsScanned : ℕ → ℕ → Halfwords → ℕ → ℕ × ℕ → Type 0
IsScanned a b mem k s =
    (i : ℕ) → i < k → (mag (value_at mem (a + i)) ≤ s.0) × (mag (value_at mem (b + i)) ≤ s.1)

pub scan-bounds :
    (a b total : ℕ) (mem : Halfwords)
    → IsScanned a b mem total (for_range total 0 (scan_one a b mem) (0, 0))
unfolding scan_one
scan-bounds a b total mem =
    for_range_inv (IsScanned a b mem) (scan_one a b mem) total 0 total (0, 0) (omega arith)
      (λ k s lo hi before i h. elim (dec_le (suc i) k) [
        | yes earlier ↦
            let (p, q) = before i earlier in
            (
              larger-upper (mag (value_at mem (a + k))) s.0 _ p,
              larger-upper (mag (value_at mem (b + k))) s.1 _ q,
            )
        | no now ↦
            let here : i ≡ k = omega arith in
            (
              larger-first (mag (value_at mem (a + k))) s.0 _
                  (ap (λ (t : ℕ). mag (value_at mem (a + t))) here),
              larger-first (mag (value_at mem (b + k))) s.1 _
                  (ap (λ (t : ℕ). mag (value_at mem (b + t))) here),
            )
      ])
      (λ i h. absurd (omega arith))
  where
    larger-upper : (v m x : ℕ) → x ≤ m → x ≤ larger v m
    larger-upper v m x h = ground arith

    larger-first : (v m x : ℕ) → x ≡ v → x ≤ larger v m
    larger-first v m x h = ground arith
