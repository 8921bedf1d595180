-- ===== src/Producer.antt =====
-- The producers of src/sw/project/dav2_ops.c (dav2_producer_*, dav2_background_*): the input of a
-- product is made part by part while the accelerator works. A producer's callbacks are fields of an
-- interface; g_producer and g_background are the states below, `none` for a null pointer. The
-- cycle counter and DAV2_PRODUCER_NO_IDLE, a test build, are left out.
pub mod Laws
pub mod Tests
use risc_v_vi_t_accelerator.Base.{
  ℕ, zero, suc, ◌+◌, ◌-◌, ◌≤◌, ◌<◌, ◌≡◌, Bool, true, false, Option, none, some, ltb, if◌then◌else◌,
}

-- dav2_producer_t: its fields and callbacks over the state that they share.
pub record Producer : Type 1 where
  pub State : Type 0
  pub done_pix : State → ℕ
  pub total_pix : State → ℕ
  pub step : State → Bool × State
  pub need : Option (State → ℕ → State)

-- What src/sw/project/dav2.h says of a step: it makes the next part, and returns 0 when all is made.
pub record IsStepped (p : Producer) : Type 0 where
  pub step_total : (s : p.State) → p.total_pix (p.step s).1 ≡ p.total_pix s
  pub step_more : (s : p.State) → (p.step s).0 ≡ true → p.done_pix s < p.done_pix (p.step s).1
  pub step_end : (s : p.State) → (p.step s).0 ≡ false → p.total_pix s ≤ p.done_pix (p.step s).1

-- A producer without need is stepped. One with need makes at least npix when asked for them; its step
-- only does work of the processor while the accelerator computes, as interp_lerp_step does, and
-- nothing is said of its result.
pub record IsProducer (p : Producer) : Type 0 where
  pub stepped : p.need ≡ none → IsStepped p
  pub need_total :
      (f : p.State → ℕ → p.State)
      → p.need ≡ some f
      → (s : p.State) (n : ℕ) → p.total_pix (f s n) ≡ p.total_pix s
  pub need_made :
      (f : p.State → ℕ → p.State)
      → p.need ≡ some f
      → (s : p.State) (n : ℕ) → n ≤ p.total_pix s
      → n ≤ p.done_pix (f s n)

module _ (p : Producer) where
  open p use {State, done_pix, total_pix, step, need}

  -- `while (p->done_pix < npix && p->step(p));`
  unfoldable pub run_until : ℕ → ℕ → State → State
  run_until zero npix s = s
  run_until (suc fuel) npix s =
      let (more, s') = step s in
      let rest = run_until fuel npix s' in
      if ltb (done_pix s) npix then (if more then rest else s') else s

  -- Each round makes a pixel or is the last.
  abbrev pub rounds : ℕ → State → ℕ
  rounds npix s = npix - done_pix s + 1

  pub producer_need : ℕ → Option State → Option State
  producer_need npix none = none
  producer_need npix (some s) =
      let n = if ltb (total_pix s) npix then total_pix s else npix in
      elim need [ some f ↦ some (f s n) | none ↦ some (run_until (rounds n s) n s) ]

  unfoldable pub producer_complete : Option State → Option State
  producer_complete none = none
  producer_complete (some s) = elim need [
    | some f ↦ some (f s (total_pix s))
    | none ↦ some (run_until (rounds (total_pix s) s) (total_pix s) s)
  ]

  -- What the background producer is when it is finished; g_background itself is cleared.
  pub background_complete : Option State → Option State × Option State
  background_complete none = (none, none)
  background_complete (some s) = (some (run_until (rounds (total_pix s) s) (total_pix s) s), none)

  -- The old producer's last state, and the new g_background.
  pub background_set : Option State → Option State → Option State × Option State
  background_set next g = ((background_complete g).0, next)

  -- One step of a producer that has parts left: whether it was called, what it returned.
  pub step_left : Option State → Bool × Bool × Option State
  step_left none = (false, false, none)
  step_left (some s) =
      let (more, s') = step s in
      if ltb (done_pix s) (total_pix s) then (true, more, some s') else (false, false, some s)

-- dav2_producer_idle, with a foreground and a background producer.
pub producer_idle :
    (p q : Producer) → Option p.State → Option q.State → Bool × Option p.State × Option q.State
producer_idle p q g b =
    let (called, more, g') = step_left p g in
    let (called', more', b') = step_left q b in if more then (true, g', b) else (called', g', b')
