-- ===== src/Gemm/Tests.antt =====
-- Runs of the matrix product, and instances of its theorems.
use risc_v_vi_t_accelerator.Base.{
  ◌+◌, ◌≡◌, refl, arith, pos, negsuc, ◌+ℤ◌, ◌*ℤ◌, for_range, some, none,
}
use risc_v_vi_t_accelerator.Gemm.{
  Ints, dot_fours, dot_ones, tile_products, tile_round, tile_loop, row_dot, qgemm_cpu, checked,
  add_product, checked_fours, checked_ones, checked_row_dot,
}
use risc_v_vi_t_accelerator.Gemm.Dot.{dot}
use risc_v_vi_t_accelerator.Gemm.Product.{qgemm_cpu-dot}
use risc_v_vi_t_accelerator.Gemm.Bounds.{checked_row_dot-row_dot}

abbrev ramp : Ints
ramp i = pos (i + 1)

-- 1 + 4 + 9 + 16 + 25
five : row_dot ramp ramp 5 ≡ pos 55
unfolding row_dot dot_fours dot_ones ◌+ℤ◌ ◌*ℤ◌
five = refl

-- Row 1 of a 3 x 2 matrix against row 1 of a 2 x 2 matrix: (3, 4) (3, 4).
cell : (qgemm_cpu ramp ramp 3 2 2 (ramp, ramp)).1 4 ≡ pos 25
unfolding qgemm_cpu tile_loop tile_round tile_products row_dot dot_fours dot_ones for_range ◌+ℤ◌
    ◌*ℤ◌
cell = refl

qgemm_cpu-dot_example :
    (qgemm_cpu ramp ramp 3 2 2 (ramp, ramp)).1 4 ≡ dot (λ k. ramp (2 + k)) (λ k. ramp (2 + k)) 2
qgemm_cpu-dot_example = qgemm_cpu-dot ramp ramp 3 2 2 ramp ramp 4 (omega arith) (omega arith)

checked_row_dot-row_dot_example :
    checked_row_dot (λ k. negsuc 8190) (λ k. pos 127) 1535
    ≡ some (row_dot (λ k. negsuc 8190) (λ k. pos 127) 1535)
checked_row_dot-row_dot_example =
    checked_row_dot-row_dot (λ k. negsuc 8190) (λ k. pos 127) 1535 (omega arith)
      (λ k h. omega arith) (λ k h. omega arith)

-- Two products of the largest int16 values do not fit.
overflows : checked_row_dot (λ k. negsuc 32767) (λ k. negsuc 32767) 2 ≡ none
unfolding checked_row_dot checked_fours checked_ones add_product checked ◌+ℤ◌ ◌*ℤ◌
overflows = refl
