-- ===== src/Columns/Tests.antt =====
-- A column of three sums, and its extremes as qgemm_colext finds them.
use risc_v_vi_t_accelerator.Base.{
  ℕ, ◌*◌, ◌<◌, ◌≡◌, refl, arith, some, pos, negsuc, ◌==◌, if◌then◌else◌, ◌*ℤ◌, ◌/ℤ◌, ◌+ℤ◌,
}
use mathlib.Core.Path.{subst}
use risc_v_vi_t_accelerator.Gemm.{Ints}
use risc_v_vi_t_accelerator.Emulator.Round.{apply_mult}
use risc_v_vi_t_accelerator.Columns.{channel, qgemm_colext}
use risc_v_vi_t_accelerator.Columns.Laws.{IsScaled, IsExtremes, qgemm_colext-IsExtremes}

-- -300, 7 and 14.
abbrev sums : Ints
sums i = if i == 0 then negsuc 299 else pos (i * 7)

-- Half the sum, and 9: {2^30, 31, 9}.
abbrev params : Ints
params i = if i == 0 then pos 1_073_741_824 else if i == 1 then pos 31 else pos 9

abbrev nothing : Ints
nothing i = pos 0

params-IsScaled : (m : ℕ) → m < 1 → IsScaled params m (negsuc 299) (pos 14)
unfolding apply_mult ◌*ℤ◌ ◌/ℤ◌ ◌+ℤ◌
params-IsScaled m h =
    subst (λ i. IsScaled params i (negsuc 299) (pos 14)) {x = 0} {y = m} (omega arith)
      (record {
        mult = 1_073_741_824;
        mult_eq = refl;
        mult_fits = omega arith;
        shift = omega arith;
        lo_fits = ((omega arith, omega arith), (omega arith, omega arith));
        hi_fits = ((omega arith, omega arith), (omega arith, omega arith));
      })

sums-IsExtremes : IsExtremes 3 sums (negsuc 299) (pos 14)
sums-IsExtremes = record {
  bounds = λ i h. (ground arith, ground arith);
  least = (0, omega arith, refl);
  greatest = (2, omega arith, refl);
}

qgemm_colext-IsExtremes_example :
    (found : Ints × Ints) × (qgemm_colext
        (some ((λ m. pos 14), λ m. negsuc 299))
        params
        1
        (some (nothing, nothing))
      ≡ some found)
    × ((m : ℕ) → m < 1 → IsExtremes 3 (λ i. channel params m (sums i)) (found.1 m) (found.0 m))
qgemm_colext-IsExtremes_example =
    qgemm_colext-IsExtremes (λ m. pos 14) (λ m. negsuc 299) params (nothing, nothing) 1 3
      (λ m. sums) params-IsScaled (λ m h. sums-IsExtremes)
