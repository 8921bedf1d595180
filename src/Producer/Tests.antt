-- ===== src/Producer/Tests.antt =====
-- A producer that counts to eight, and instances of the theorems.
use risc_v_vi_t_accelerator.Base.{
  ℕ, ◌+◌, ◌≤◌, ◌≡◌, refl, arith, false, none, some, ltb, if◌then◌else◌,
}
use risc_v_vi_t_accelerator.Producer.{
  Producer, IsStepped, IsProducer, run_until, step_left, producer_need, producer_complete,
  background_set, producer_idle,
}
use risc_v_vi_t_accelerator.Producer.Laws.{
  has_left, producer_need-made, producer_complete-made, background_set-made, producer_idle-finished,
}

abbrev counter : Producer
counter = record {
  State = ℕ;
  done_pix = λ s. s;
  total_pix = λ s. 8;
  step = λ s. (ltb s 8, if ltb s 8 then s + 1 else s);
  need = none;
}

counter-IsStepped : IsStepped counter
counter-IsStepped = record {
  step_total = λ s. refl;
  step_more = λ s h. ground arith;
  step_end = λ s h. ground arith;
}

counter-IsProducer : IsProducer counter
counter-IsProducer = record {
  stepped = λ _. counter-IsStepped;
  need_total = λ f e s n. refl;
  need_made = λ f e s n h. absurd (grind arith);
}

stepped : producer_need counter 5 (some 2) ≡ some 5
unfolding producer_need run_until
stepped = refl

producer_need-made_example :
    (r : ℕ) × (producer_need counter 5 (some 2) ≡ some r) × (5 ≤ r) × (◌≡◌ {A = ℕ} 8 8)
producer_need-made_example = producer_need-made counter counter-IsProducer 5 2

producer_complete-made_example : (r : ℕ) × (producer_complete counter (some 2) ≡ some r) × (8 ≤ r)
producer_complete-made_example = producer_complete-made counter counter-IsProducer 2

background_set-made_example :
    (r : ℕ) × (background_set counter (some 0) (some 3) ≡ (some r, some 0)) × (8 ≤ r)
background_set-made_example = background_set-made counter counter-IsStepped (some 0) 3

producer_idle-finished_example :
    (has_left counter (producer_idle counter counter (some 8) none).1 ≡ false)
    × (has_left counter (producer_idle counter counter (some 8) none).2 ≡ false)
producer_idle-finished_example =
    producer_idle-finished counter counter counter-IsProducer refl counter-IsStepped (some 8) none
      idle
  where
    idle : (producer_idle counter counter (some 8) none).0 ≡ false
    idle = unfold producer_idle step_left in refl
