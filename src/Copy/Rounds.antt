-- ===== src/Copy/Rounds.antt =====
-- The unrolled loop of copy16, four words in a round.
use risc_v_vi_t_accelerator.Base.{
  Bool-cases, inl, inr, ℕ, zero, suc, ◌+◌, ◌-◌, ◌*◌, ◌≤◌, ◌<◌, ◌≡◌, arith, leb,
}
use risc_v_vi_t_accelerator.Copy.{copy_fours}
use risc_v_vi_t_accelerator.Copy.Memory.{Halfwords, load32, store32, IsHalfwords}
use risc_v_vi_t_accelerator.Copy.Regions.{
  IsCopied, Apart, IsCopied-join, copy_word-IsCopied, store32-IsHalfwords, IsCopied-extend,
}

-- A round of the unrolled loop.
abbrev four_words : ℕ → ℕ → Halfwords → Halfwords
four_words d q mem =
    store32
      (store32 (store32 (store32 mem d (load32 mem q)) (d + 2) (load32 mem (q + 2))) (d + 4)
        (load32 mem (q + 4)))
      (d + 6) (load32 mem (q + 6))

pub four_words-IsCopied :
    (d q : ℕ) (mem : Halfwords) → IsHalfwords mem → IsCopied d q 8 mem (four_words d q mem)
four_words-IsCopied d q mem hw =
    extend 6 _ (extend 4 _ (extend 2 _ (copy_word-IsCopied d q mem hw)))
  where
    extend :
        (k : ℕ) (mid : Halfwords)
        → IsCopied d q k mem mid
        → IsCopied d q (k + 2) mem (store32 mid (d + k) (load32 mem (q + k)))
    extend k mid p = IsCopied-extend d q k mem mid hw p

pub four_words-IsHalfwords :
    (d q : ℕ) (mem : Halfwords) → IsHalfwords mem → IsHalfwords (four_words d q mem)
four_words-IsHalfwords d q mem hw = store32-IsHalfwords _ _ _ (
    store32-IsHalfwords _ _ _
      (store32-IsHalfwords _ _ _ (store32-IsHalfwords mem d (load32 mem q) hw)))

-- What the unrolled loop leaves: fewer than four words to go, the pointers moved by what is done.
pub record Fours (d q w : ℕ) (mem : Halfwords) (r : ℕ × ℕ × ℕ × Halfwords) : Type 0 where
  pub left : r.2 < 4
  pub fewer : r.2 ≤ w
  pub dst_moved : r.0 ≡ d + (w - r.2) * 2
  pub src_moved : r.1 ≡ q + (w - r.2) * 2
  pub halves : IsHalfwords r.3
  pub copied : IsCopied d q ((w - r.2) * 2) mem r.3

-- A round followed by the rounds after it.
pub Fours-round :
    (fuel d q w : ℕ) (mem : Halfwords)
    → 4 ≤ w
    → IsHalfwords mem
    → Apart d q (w * 2)
    → Fours
        (d + 8)
        (q + 8)
        (w - 4)
        (four_words d q mem)
        (copy_fours fuel (d + 8) (q + 8) (w - 4) (four_words d q mem))
    → Fours d q w mem (copy_fours fuel (d + 8) (q + 8) (w - 4) (four_words d q mem))
Fours-round fuel d q w mem more hw apart rest = record {
  left = rest.left;
  fewer = omega (arith, rest.fewer);
  dst_moved = omega (arith, rest.dst_moved, rest.fewer);
  src_moved = omega (arith, rest.src_moved, rest.fewer);
  halves = rest.halves;
  copied = λ j. ground (arith, rest.fewer, joined j);
}
  where
    r : ℕ × ℕ × ℕ × Halfwords
    r = copy_fours fuel (d + 8) (q + 8) (w - 4) (four_words d q mem)

    joined : IsCopied d q (8 + (w - 4 - r.2) * 2) mem r.3
    joined =
        IsCopied-join d q 8 ((w - 4 - r.2) * 2) mem (four_words d q mem) r.3
          (omega (arith, rest.fewer)) (four_words-IsCopied d q mem hw) rest.copied

pub copy_fours-Fours :
    (fuel d q w : ℕ) (mem : Halfwords)
    → w ≤ fuel
    → IsHalfwords mem
    → Apart d q (w * 2)
    → Fours d q w mem (copy_fours fuel d q w mem)
unfolding copy_fours
copy_fours-Fours zero d q w mem enough hw apart = record {
  left = omega arith;
  fewer = omega arith;
  dst_moved = omega arith;
  src_moved = omega arith;
  halves = hw;
  copied = λ j. ground arith;
}
copy_fours-Fours (suc fuel) d q w mem enough hw apart = elim (Bool-cases (leb 4 w)) [
  | inl more ↦ rw more (
      Fours-round fuel d q w mem (ground arith) hw apart (
        copy_fours-Fours fuel (d + 8) (q + 8) (w - 4) (four_words d q mem) (omega arith)
          (four_words-IsHalfwords d q mem hw) (ground arith)))
  | inr done ↦ rw done (record {
    left = ground arith;
    fewer = omega arith;
    dst_moved = omega arith;
    src_moved = omega arith;
    halves = hw;
    copied = λ j. ground arith;
  })
]
