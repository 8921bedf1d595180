-- ===== src/RowStats.antt =====
-- A row's sum, sum of squares and extremes: row_stats of src/sw/project/dav2_ops.c. The row is a map
-- from indices to int16 values; the sum that C keeps in an int32_t is exact.
pub mod Rounds
pub mod Laws
pub mod Tests
use risc_v_vi_t_accelerator.Base.{
  ℕ, zero, suc, ◌+◌, ◌-◌, ◌*◌, ◌/◌, ◌^◌, Bool, true, false, ltb, if◌then◌else◌, Option, none, some,
  ℤ, pos, negsuc, ◌+ℤ◌, ◌*ℤ◌, ltb_ℤ, u32, u64, bits32, bits64, signed32, for_range,
}
use risc_v_vi_t_accelerator.Gemm.{Ints}
use risc_v_vi_t_accelerator.Fixed.{lo16, hi16, pack16}

pub record Stats : Type 0 where
  pub sum : ℤ
  pub sq : ℕ
  pub xmax : ℤ
  pub xmin : ℤ

-- The values before the first element.
abbrev pub no_stats : Stats
no_stats = record { sum = pos 0; sq = 0; xmax = negsuc 32_767; xmin = pos 32_767 }

-- `if (d > xmax) xmax = d;` and `if (d < xmin) xmin = d;`
unfoldable pub raise : ℤ → ℤ → ℤ
raise d x = if ltb_ℤ x d then d else x

unfoldable pub lower : ℤ → ℤ → ℤ
lower d x = if ltb_ℤ d x then d else x

-- The loop by elements.
unfoldable pub add_value : Ints → ℕ → Stats → Stats
add_value row c s = record {
  sum = s.sum +ℤ row c;
  sq = u64 (s.sq + bits64 (row c *ℤ row c));
  xmax = raise (row c) s.xmax;
  xmin = lower (row c) s.xmin;
}

-- rw[c]: two elements as a word.
abbrev pub word_at : Ints → ℕ → ℕ
word_at row c = pack16 (row (2 * c)) (row (2 * c + 1))

-- A round of the loops by words, with the extremes (ext) and without; sq is sq32.
unfoldable pub add_pair : Bool → ℤ → ℤ → Stats → Stats
add_pair ext d0 d1 s = record {
  sum = s.sum +ℤ (d0 +ℤ d1);
  sq = u32 (s.sq + u32 (bits32 (d0 *ℤ d0) + bits32 (d1 *ℤ d1)));
  xmax = if ext then raise d1 (raise d0 s.xmax) else s.xmax;
  xmin = if ext then lower d1 (lower d0 s.xmin) else s.xmin;
}

unfoldable pub add_word : Bool → Ints → ℕ → Stats → Stats
add_word ext row c = add_pair ext (lo16 (word_at row c)) (hi16 (word_at row c))

-- The words from c0 to c1: sq32 starts at 0 and is added to sq.
unfoldable pub add_words : Bool → Ints → ℕ → ℕ → Stats → Stats
add_words ext row c0 c1 s =
    let t = for_range (c1 - c0) c0 (add_word ext row) (record s { sq = 0 }) in
    record t { sq = u64 (s.sq + t.sq) }

-- `for (int c0 = 0; c0 < C / 2; c0 += 32)`, for `half` words.
unfoldable pub word_loop : ℕ → Bool → Ints → ℕ → ℕ → Stats → Stats
word_loop zero ext row half c0 s = s
word_loop (suc fuel) ext row half c0 s =
    let c1 = if ltb (c0 + 32) half then c0 + 32 else half in
    let rest = word_loop fuel ext row half (c0 + 32) (add_words ext row c0 c1 s) in
    if ltb c0 half then rest else s

-- The extremes from *rst.
unfoldable pub with_extremes : ℕ → Stats → Stats
with_extremes rst s = record s { xmax = hi16 rst; xmin = lo16 rst }

-- row_stats, with the words of rsum.
unfoldable pub row_stats : Ints → ℕ → Bool → Option ℕ → Option (ℕ × ℕ × ℕ) → Stats
row_stats row len wide (some rst) (some (r0, r1, r2)) =
    with_extremes rst (record no_stats { sum = signed32 r0; sq = r2 * 2 ^ 32 + r1 })
row_stats row len true (some rst) none =
    with_extremes rst (word_loop (len / 2) false row (len / 2) 0 no_stats)
row_stats row len true none rsum = word_loop (len / 2) true row (len / 2) 0 no_stats
row_stats row len false (some rst) none = for_range len 0 (add_value row) no_stats
row_stats row len false none rsum = for_range len 0 (add_value row) no_stats
