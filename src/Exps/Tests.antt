-- ===== src/Exps/Tests.antt =====
-- A weight that is looked up twice, so that the second time finds it in the cache.
use risc_v_vi_t_accelerator.Base.{ℕ, ◌+◌, for_range, ◌≡◌, refl, arith, none, pos}
use risc_v_vi_t_accelerator.Exps.{Weight, Cache, exps, qgemm_exps, lower_exp, lower_bias}
use risc_v_vi_t_accelerator.Exps.Laws.{IsFilled, qgemm_exps-exps}

-- Three scales with the exponents 40, 41 and 42, and no biases.
abbrev weight_at : ℕ → ℕ → Weight
weight_at s m = record {
  s = s;
  m = m;
  scales = λ i. record { m = pos 1_200_000_000; sh = pos (40 + i) };
  biases = none;
}

abbrev empty : Cache
empty i = record { s = 0; m = 0; es = pos 0; eb = pos 0 }

empty-IsFilled : IsFilled weight_at empty
empty-IsFilled = record { holds = λ i h. absurd (h refl) }

exps_run : exps (weight_at 4096 3) ≡ (pos 40, pos 1_073_741_824)
unfolding exps for_range lower_exp lower_bias
exps_run = refl

qgemm_exps-exps_example :
    ((qgemm_exps (qgemm_exps empty (weight_at 4096 3)).1 (weight_at 4096 3)).0
      ≡ exps (weight_at 4096 3))
    × IsFilled weight_at (qgemm_exps (qgemm_exps empty (weight_at 4096 3)).1 (weight_at 4096 3)).1
qgemm_exps-exps_example =
    qgemm_exps-exps weight_at (qgemm_exps empty (weight_at 4096 3)).1 (weight_at 4096 3) refl
      (λ e. absurd (omega arith))
      (qgemm_exps-exps weight_at empty (weight_at 4096 3) refl (λ e. absurd (omega arith))
        empty-IsFilled).1
