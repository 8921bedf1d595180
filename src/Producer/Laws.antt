-- ===== src/Producer/Laws.antt =====
-- What is made when a call returns.
use risc_v_vi_t_accelerator.Base.{
  ℕ, zero, suc, ◌+◌, ◌≤◌, ◌<◌, ◌≡◌, refl, ◌∙◌, arith, Bool, true, false, Bool-cases, inl, inr,
  Option, none, some, Option-cases, ltb, if◌then◌else◌,
}
use risc_v_vi_t_accelerator.Producer.{
  Producer, IsStepped, IsProducer, run_until, rounds, producer_need, producer_complete,
  background_complete, background_set, step_left, producer_idle,
}

-- `p && p->done_pix < p->total_pix`
unfoldable pub has_left : (p : Producer) → Option p.State → Bool
has_left p none = false
has_left p (some s) = ltb (p.done_pix s) (p.total_pix s)

module _ (p : Producer) (laws : IsStepped p) where
  open p use {State, done_pix, total_pix, step, need}

  -- With a round for every pixel that is missing and one more, the loop ends with npix made.
  pub run_until-made :
      (fuel npix : ℕ) (s : State)
      → npix ≤ total_pix s
      → npix < done_pix s + fuel
      → (npix ≤ done_pix (run_until p fuel npix s))
        × (total_pix (run_until p fuel npix s) ≡ total_pix s)
  unfolding run_until
  run_until-made zero npix s le enough = (omega arith, refl)
  run_until-made (suc fuel) npix s le enough = elim (Bool-cases (ltb (done_pix s) npix)) [
    | inl left ↦ elim (Bool-cases (step s).0) [
      | inl more ↦
          let rest =
            run_until-made fuel npix (step s).1 (omega (arith, laws.step_total s))
              (omega (arith, laws.step_more s more)) in
          rw (left, more) (rest.0, rest.1 ∙ laws.step_total s)
      | inr last ↦ rw (left, last) (omega (arith, laws.step_end s last), laws.step_total s)
    ]
    | inr enough' ↦ rw enough' (ground arith, refl)
  ]

  -- Setting a background producer first finishes the one before it, and then installs the new one.
  pub background_set-made :
      (next : Option State) (s : State)
      → (r : State) × (background_set p next (some s) ≡ (some r, next)) × (total_pix r ≤ done_pix r)
  unfolding background_set background_complete
  background_set-made next s =
      let made =
        run_until-made (rounds p (total_pix s) s) (total_pix s) s (omega arith) (omega arith) in
      (run_until p (rounds p (total_pix s) s) (total_pix s) s, refl, omega (arith, made.0, made.1))

module _ (p : Producer) (laws : IsProducer p) where
  open p use {State, done_pix, total_pix, step, need}

  -- When dav2_producer_need(npix) returns, npix pixels or all of them are made.
  pub producer_need-made :
      (npix : ℕ) (s : State)
      → (r : State) × (producer_need p npix (some s) ≡ some r)
        × ((if ltb (total_pix s) npix then total_pix s else npix) ≤ done_pix r)
        × (total_pix r ≡ total_pix s)
  unfolding producer_need
  producer_need-made npix s = elim (Option-cases need) [
    | inl null ↦
        let made =
          run_until-made p (laws.stepped null) (rounds p n s) n s (ground arith) (omega arith) in
        (run_until p (rounds p n s) n s, rw null refl, made.0, made.1)
    | inr (f, e) ↦
        (f s n, rw e refl, laws.need_made f e s n (ground arith), laws.need_total f e s n)
  ]
    where
      n : ℕ
      n = if ltb (total_pix s) npix then total_pix s else npix

  -- When dav2_producer_complete returns, every pixel is made.
  pub producer_complete-made :
      (s : State)
      → (r : State) × (producer_complete p (some s) ≡ some r) × (total_pix r ≤ done_pix r)
  unfolding producer_complete
  producer_complete-made s = elim (Option-cases need) [
    | inl null ↦
        let made =
          run_until-made p (laws.stepped null) (rounds p (total_pix s) s) (total_pix s) s
            (omega arith) (omega arith) in
        (
          run_until p (rounds p (total_pix s) s) (total_pix s) s,
          rw null refl,
          omega (arith, made.0, made.1),
        )
    | inr (f, e) ↦ (
      f s (total_pix s),
      rw e refl,
      omega (
        arith,
        laws.need_made f e s (total_pix s) (omega arith),
        laws.need_total f e s (total_pix s),
      ),
    )
  ]

step_left-cases :
    (p : Producer)
    → IsStepped p
    → (g : Option p.State) → (step_left p g).1 ≡ false
    → has_left p (step_left p g).2 ≡ false
unfolding step_left has_left
step_left-cases p laws none h = refl
step_left-cases p laws (some s) h = elim (Bool-cases (ltb (p.done_pix s) (p.total_pix s))) [
  | inl left ↦
      let last : (p.step s).0 ≡ false = rw left at h in
      let made = laws.step_end s last in let same = laws.step_total s in rw left (ground arith)
  | inr none_left ↦ rw none_left none_left
]

step_left-called :
    (p : Producer) (g : Option p.State)
    → (step_left p g).0 ≡ false
    → has_left p (step_left p g).2 ≡ false
unfolding step_left has_left
step_left-called p none h = refl
step_left-called p (some s) h = elim (Bool-cases (ltb (p.done_pix s) (p.total_pix s))) [
  | inl left ↦ let called : true ≡ false = rw left at h in absurd (grind arith)
  | inr none_left ↦ rw none_left none_left
]

-- When dav2_producer_idle returns 0, for a foreground producer without need and a background producer
-- that makes a part in every step, neither of the two has a part left to make. (The step of a
-- foreground producer with need may return 0 with pixels left, and is not included.)
pub producer_idle-finished :
    (p q : Producer)
    → IsProducer p
    → p.need ≡ none
    → IsStepped q
    → (g : Option p.State) (b : Option q.State) → (producer_idle p q g b).0 ≡ false
    → (has_left p (producer_idle p q g b).1 ≡ false)
      × (has_left q (producer_idle p q g b).2 ≡ false)
unfolding producer_idle
producer_idle-finished p q lp null lq g b h = elim (Bool-cases (step_left p g).1) [
  | inl more ↦ let called : true ≡ false = rw more at h in absurd (grind arith)
  | inr last ↦
      let idle : (step_left q b).0 ≡ false = rw last at h in
      rw last (step_left-cases p (lp.stepped null) g last, step_left-called q b idle)
]
