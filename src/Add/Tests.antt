-- ===== src/Add/Tests.antt =====
-- Two tensors of two rows and two channels.
use risc_v_vi_t_accelerator.Base.{
  ◌*◌, ◌%◌, ◌≡◌, refl, arith, pos, negsuc, ◌+ℤ◌, ◌-ℤ◌, ◌*ℤ◌, ◌/ℤ◌, mod_ℤ, neg_ℤ, ap, for_range,
  some,
}
use risc_v_vi_t_accelerator.Copy.Memory.{Halfwords}
use risc_v_vi_t_accelerator.Fixed.{apply_multiplier}
use risc_v_vi_t_accelerator.Producer.{producer_complete}
use risc_v_vi_t_accelerator.Xf
use risc_v_vi_t_accelerator.Xf.{
  mul, div, recip, norm, norm_parts, clz64, from_int, to_mult, add_ordered, align_addend,
}
use risc_v_vi_t_accelerator.Add.{
  Factors, Operand, AddState, add_params, find_amax, scan_one, sum_by, add_one, add_producer,
  add_begin, add,
}
use risc_v_vi_t_accelerator.Add.Sum.{IsShifts}
use risc_v_vi_t_accelerator.Add.Elements.{plain_factors, add-elements}
use risc_v_vi_t_accelerator.Add.Parts.{producer_complete-add}

abbrev first : Operand
first = record {
  v = 0;
  n = 2;
  c = 2;
  scale = record { m = pos 1_500_000_000; sh = pos 40 };
  amax_q = pos 100;
}

abbrev second : Operand
second = record {
  v = 4;
  n = 2;
  c = 2;
  scale = record { m = pos 1_800_000_000; sh = pos 41 };
  amax_q = negsuc 0;
}

abbrev counting : Halfwords
counting j = j % 60

abbrev factors_of : Factors
factors_of = plain_factors first second counting

factors_of-value :
    factors_of ≡ record { ma = pos 1_192_900_836; sa = 20; mb = pos 1_431_481_003; sb = 21 }
unfolding add_params find_amax scan_one for_range Xf.add mul div recip norm norm_parts clz64
    from_int to_mult add_ordered align_addend ◌/ℤ◌ ◌+ℤ◌ ◌-ℤ◌ ◌*ℤ◌ mod_ℤ neg_ℤ
factors_of-value = refl

factors_of-IsShifts : IsShifts factors_of
factors_of-IsShifts la lb = (
  omega (arith, ap (λ (f : Factors). f.sa) factors_of-value),
  omega (arith, ap (λ (f : Factors). f.sb) factors_of-value),
)

add-elements_example :
    add first second 8 counting
    ≡ for_range (2 * 2) 0 (add_one (sum_by apply_multiplier factors_of) 0 4 8) (counting, 0)
add-elements_example =
    add-elements first second 8 counting (λ j. omega arith) (λ e i h. ground arith)
      (λ e. absurd (ground arith)) (omega arith, omega arith) factors_of-IsShifts

producer_complete-add_example :
    (s : AddState) × (producer_complete add_producer (some (add_begin first second 8 1 counting))
      ≡ some s)
    × (s.mem ≡ (add first second 8 counting).0)
    × (s.out_amax ≡ pos (add first second 8 counting).1)
producer_complete-add_example =
    producer_complete-add first second 8 1 counting (omega arith) (omega arith)
