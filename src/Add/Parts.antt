-- ===== src/Add/Parts.antt =====
-- The sum made part by part is the sum made in one go.
use risc_v_vi_t_accelerator.Base.{
  ℕ, zero, suc, ◌+◌, ◌-◌, ◌*◌, ◌/◌, ◌%◌, ◌≤◌, ◌<◌, ◌≡◌, refl, sym, ap, ◌∙◌, arith, Bool, false, ltb,
  leb, ◌==◌, ◌&&◌, if◌then◌else◌, ℤ, pos, negsuc, for_range, for_range-meet, some, Bool-cases, inl,
  inr, if-true, if-false, lt→ltb, not_ltb, not_leb, le→leb,
}
use mathlib.Core.Path.{ap₂}
use native.Mathlib.Decide.{dec_le}
use risc_v_vi_t_accelerator.Copy.Memory.{Halfwords}
use risc_v_vi_t_accelerator.Producer.{run_until, producer_complete}
use risc_v_vi_t_accelerator.Add.{
  Factors, Operand, AddState, add_range, add_step, add_producer, add_begin, add, in_range,
}

-- Two ranges that meet are one, on each path.
pub add_range-meet :
    (wide small : Bool) (f : Factors) (a b out e0 e1 e2 : ℕ) (s : Halfwords × ℕ)
    → e0 ≤ e1
    → e1 ≤ e2
    → add_range wide small f a b out e1 e2 (add_range wide small f a b out e0 e1 s)
      ≡ add_range wide small f a b out e0 e2 s
unfolding add_range
add_range-meet wide small f a b out e0 e1 e2 s h h' =
    elim (Bool-cases (wide && (in_range f && small))) [
      | inl e ↦ rw e (for_range-meet _ (e0 / 2) (e1 / 2) (e2 / 2) s (omega arith) (omega arith))
      | inr e ↦ elim (Bool-cases (wide && (leb 17 f.sa && leb 17 f.sb))) [
        | inl g ↦
            rw (e, g) (for_range-meet _ (e0 / 2) (e1 / 2) (e2 / 2) s (omega arith) (omega arith))
        | inr g ↦ elim (Bool-cases wide) [
          | inl w ↦
              rw (e, g, w)
                (for_range-meet _ (e0 / 2) (e1 / 2) (e2 / 2) s (omega arith) (omega arith))
          | inr w ↦ rw (e, g, w) (for_range-meet _ e0 e1 e2 s h h')
        ]
      ]
    ]

-- The state when the first e elements are made.
pub at_part : AddState → ℕ → AddState
at_part s e =
    let r = add_range s.wide s.small s.factors s.a s.b s.out 0 e (s.mem, 0) in
    record s {
      mem = r.0;
      omax = r.1;
      e = e;
      done_pix = e / s.out_c;
      out_amax = if leb s.total e then pos r.1 else s.out_amax;
    }

-- The next part's end.
abbrev next_end : AddState → ℕ → ℕ
next_end s e = if ltb s.total (e + s.step_elems) then s.total else e + s.step_elems

below_end : (e c n : ℕ) → 0 < c → e < n * c → e / c < n
below_end e c n hc h = grind arith

one_more : (e c d : ℕ) → 0 < c → c ≤ d → suc (e / c) ≤ (e + d) / c
one_more e c d hc h = grind arith

module _ (s : AddState) where
  -- A step from one part to the next.
  step-at_part :
      (e : ℕ)
      → e < s.total
      → add_step (at_part s e) ≡ (ltb (next_end s e) s.total, at_part s (next_end s e))
  unfolding add_step at_part
  step-at_part e h =
      let e1 = next_end s e in
      let range = add_range s.wide s.small s.factors s.a s.b s.out in
      let grown : e ≤ e1 = ground arith in
      let shut : leb s.total e ≡ false = not_leb s.total e h in
      rw shut (
        ap
          (λ (r : Halfwords × ℕ). (
            ltb e1 s.total,
            record s {
              mem = r.0;
              omax = r.1;
              e = e1;
              done_pix = e1 / s.out_c;
              out_amax = if leb s.total e1 then pos r.1 else s.out_amax;
            },
          ))
          (add_range-meet s.wide s.small s.factors s.a s.b s.out 0 e e1 (s.mem, 0) (omega arith)
            grown))

  -- Steps until all pixels are made.
  run-at_part :
      (n fuel e : ℕ)
      → 0 < s.out_c
      → s.total ≡ n * s.out_c
      → s.out_c ≤ s.step_elems
      → e < s.total
      → n ≤ e / s.out_c + fuel
      → run_until add_producer fuel n (at_part s e) ≡ at_part s s.total
  unfolding run_until at_part
  run-at_part n zero e hc ht hs he hf =
      absurd (omega (arith, below_end e s.out_c n hc (omega arith)))
  run-at_part n (suc fuel) e hc ht hs he hf =
      let more = lt→ltb (e / s.out_c) n (below_end e s.out_c n hc (omega arith)) in
      let step = step-at_part e he in
      let rest = one_more e s.out_c s.step_elems hc hs in
      rw (more, step)
        (elim (dec_le (suc (e + s.step_elems)) s.total) [
          | yes inside ↦
              let end : next_end s e ≡ e + s.step_elems =
                if-false _ s.total (e + s.step_elems)
                  (not_ltb s.total (e + s.step_elems) (omega arith)) in
              rw (end, lt→ltb (e + s.step_elems) s.total inside)
                (run-at_part n fuel (e + s.step_elems) hc ht hs inside (omega arith))
          | no past ↦
              let end : next_end s e ≡ s.total = ground arith in
              rw (end, not_ltb s.total s.total (omega arith)) refl
        ])

add_range-empty :
    (wide small : Bool) (f : Factors) (a b out : ℕ) (s : Halfwords × ℕ)
    → add_range wide small f a b out 0 0 s ≡ s
unfolding add_range for_range
add_range-empty wide small f a b out s = elim (Bool-cases (wide && (in_range f && small))) [
  | inl e ↦ rw e refl
  | inr e ↦ elim (Bool-cases (wide && (leb 17 f.sa && leb 17 f.sb))) [
    | inl g ↦ rw (e, g) refl
    | inr g ↦ elim (Bool-cases wide) [ inl w ↦ rw (e, g, w) refl | inr w ↦ rw (e, g, w) refl ]
  ]
]

step_fits :
    (step_pix n c : ℕ)
    → 0 < n
    → (let step = (if ltb 0 step_pix then step_pix else n) * c in
        c ≤ (if step % 2 == 1 then step * 2 else step))
step_fits step_pix n c hn =
    let steps = if ltb 0 step_pix then step_pix else n in
    let some_steps : 0 < steps = ground arith in
    let fits : c ≤ steps * c = grind arith in ground arith

start-at_part :
    (a b : Operand) (out step_pix : ℕ) (mem : Halfwords)
    → 0 < a.n
    → 0 < a.c
    → add_begin a b out step_pix mem ≡ at_part (add_begin a b out step_pix mem) 0
unfolding add_begin at_part
start-at_part a b out step_pix mem hn hc =
    let s = add_begin a b out step_pix mem in
    let none_made : 0 / a.c ≡ 0 = grind arith in
    let some_elements : 0 < a.n * a.c = grind arith in
    let shut =
      if-false (leb (a.n * a.c) 0) (pos 0) (negsuc 0) (not_leb (a.n * a.c) 0 some_elements) in
    sym (
      ap
        (λ (r : Halfwords × ℕ). record s {
          mem = r.0;
          omax = r.1;
          e = 0;
          done_pix = 0 / a.c;
          out_amax = if leb (a.n * a.c) 0 then pos r.1 else negsuc 0;
        })
        (add_range-empty s.wide s.small s.factors s.a s.b s.out (mem, 0))
      ∙ ap₂ (λ (d : ℕ) (m : ℤ). record s { mem = mem; omax = 0; e = 0; done_pix = d; out_amax = m })
          none_made shut)

-- With at least one row and one channel, dav2_producer_complete on the sum that dav2_add_begin started
-- leaves the memory and, in the output, the largest |value| that dav2_add leaves, however many
-- pixels a step makes.
pub producer_complete-add :
    (a b : Operand) (out step_pix : ℕ) (mem : Halfwords)
    → 0 < a.n
    → 0 < a.c
    → (s : AddState) × (producer_complete add_producer (some (add_begin a b out step_pix mem))
        ≡ some s)
      × (s.mem ≡ (add a b out mem).0)
      × (s.out_amax ≡ pos (add a b out mem).1)
unfolding producer_complete add add_begin at_part
producer_complete-add a b out step_pix mem hn hc =
    let s = add_begin a b out step_pix mem in
    let total = a.n * a.c in
    let some_elements : 0 < total = grind arith in
    let start = start-at_part a b out step_pix mem hn hc in
    (
      at_part s total,
      ap some (
          ap (run_until add_producer (a.n - 0 + 1) a.n) start
          ∙ run-at_part s a.n (a.n - 0 + 1) 0 hc refl (step_fits step_pix a.n a.c hn) some_elements
              (omega arith)),
      refl,
      if-true (leb total total) _ _ (le→leb total total (omega arith)),
    )
