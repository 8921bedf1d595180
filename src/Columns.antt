-- ===== src/Columns.antt =====
-- The column extremes of a product: dav2_qgemm_colext and the loops over a row's parameters in
-- src/sw/project/dav2_ops.c. An array is a map from indices to values, `none` is a null pointer.
pub mod Laws
pub mod Tests
use risc_v_vi_t_accelerator.Base.{ℕ, ◌+◌, ◌*◌, Option, none, some, ℤ, pos_part, ◌+ℤ◌, for_range}
use risc_v_vi_t_accelerator.Gemm.{Ints, update}
use risc_v_vi_t_accelerator.Fixed.{apply_multiplier, sat_act}

-- `sat_act(apply_multiplier(v, par[3 * m], par[3 * m + 1]) + par[3 * m + 2])`
unfoldable pub channel : Ints → ℕ → ℤ → ℤ
channel par m v =
    sat_act (apply_multiplier v (par (3 * m)) (pos_part (par (3 * m + 1))) +ℤ par (3 * m + 2))

-- One round of the loop on (g_cext_max, g_cext_min).
unfoldable pub colext_step : Ints × Ints → Ints → ℕ → Ints × Ints → Ints × Ints
colext_step (rmax, rmin) par m (cmax, cmin) =
    (update cmax m (channel par m (rmax m)), update cmin m (channel par m (rmin m)))

-- qgemm_colext: g_cext_max and g_cext_min are null together, as rmax and rmin are.
unfoldable pub qgemm_colext :
    Option (Ints × Ints) → Ints → ℕ → Option (Ints × Ints) → Option (Ints × Ints)
qgemm_colext rows par count none = none
qgemm_colext none par count (some ext) = some ext
qgemm_colext (some rows) par count (some ext) = some (for_range count 0 (colext_step rows par) ext)
