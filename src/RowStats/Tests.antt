-- ===== src/RowStats/Tests.antt =====
-- A row of activations, with and without the word that reports its extremes.
use risc_v_vi_t_accelerator.Base.{
  ◌≡◌, refl, arith, true, false, none, some, pos, negsuc, ◌==◌, if◌then◌else◌, mod_ℤ, for_range,
}
use risc_v_vi_t_accelerator.Gemm.{Ints}
use risc_v_vi_t_accelerator.Fixed.{pack16, hi16, lo16}
use risc_v_vi_t_accelerator.RowStats.{row_stats, raise, lower, add_value}
use risc_v_vi_t_accelerator.RowStats.Laws.{row_stats-wide}

-- -8000, 5, 5, 5
abbrev values : Ints
values i = if i == 0 then negsuc 7999 else pos 5

row_stats-wide_example :
    row_stats values 4 true (some (pack16 (negsuc 7999) (pos 5))) none
    ≡ row_stats values 4 false none none
unfolding row_stats pack16 hi16 lo16 raise lower add_value mod_ℤ for_range
row_stats-wide_example =
    row_stats-wide values 4 (some (pack16 (negsuc 7999) (pos 5))) refl (λ i h. ground arith)
      (refl, refl)
