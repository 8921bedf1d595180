-- ===== src/Arena/Blocks.antt =====
-- Sequences of allocations: the granted blocks do not overlap, a mark takes them all back, and the
-- failure flag tells whether a request was refused.
use risc_v_vi_t_accelerator.Base.{
  ℕ, ◌+◌, ◌^◌, ◌≤◌, ◌<◌, ◌≡◌, sym, ◌∙◌, ◌↔◌, inl, inr, arith, true, false, none, some, Option-cases,
  List, [], ◌∷◌, length,
}
use mathlib.Core.Path.{subst}
use native.Mathlib.Decide.{dec_lt}
use risc_v_vi_t_accelerator.Arena.{Arena, arena_alloc, alloc_all}
use risc_v_vi_t_accelerator.Arena.Invariant.{IsSound, round_up_lem, arena_alloc-IsSound}

-- Blocks (address, size) from lo to hi, each beginning at or after the end of the one before.
abbrev pub Laid : ℕ → List (ℕ × ℕ) → ℕ → Type 0
Laid lo [] hi = lo ≤ hi
Laid lo ((p, n) ∷ bs) hi = (lo ≤ p) × Laid (p + n) bs hi

abbrev pub AllSmall : List ℕ → Type 0
AllSmall [] = Unit
AllSmall (r ∷ rs) = (r < 2 ^ 31) × AllSmall rs

-- What one allocation leaves alone, and where its block lies.
record Granted (a : Arena) (r : ℕ) : Type 0 where
  base_same : (arena_alloc r a).1.base ≡ a.base
  size_same : (arena_alloc r a).1.size ≡ a.size
  grows : a.used ≤ (arena_alloc r a).1.used
  peak_grows : a.high ≤ (arena_alloc r a).1.high
  block :
      (p : ℕ)
      → (arena_alloc r a).0 ≡ some p
      → (p ≡ a.base + a.used)
        × (p + r ≤ a.base + (arena_alloc r a).1.used)
        × ((arena_alloc r a).1.failed ≡ a.failed)
  refused : (arena_alloc r a).0 ≡ none → (arena_alloc r a).1.failed ≡ true

arena_alloc-Granted : (a : Arena) (r : ℕ) → r < 2 ^ 31 → IsSound a → Granted a r
unfolding arena_alloc
arena_alloc-Granted a r h s = record {
  base_same = ground (arith, round_up_lem r);
  size_same = ground (arith, round_up_lem r);
  grows = ground (arith, round_up_lem r);
  peak_grows = ground (arith, round_up_lem r);
  block = λ p e. ground (arith, round_up_lem r);
  refused = λ e. ground (arith, round_up_lem r);
}

Laid-widen :
    (lo lo' hi hi' : ℕ) (bs : List (ℕ × ℕ)) → lo' ≤ lo → hi ≤ hi' → Laid lo bs hi → Laid lo' bs hi'
Laid-widen lo lo' hi hi' [] h k l = omega arith
Laid-widen lo lo' hi hi' ((p, n) ∷ bs) h k l =
    (omega arith, Laid-widen (p + n) (p + n) hi hi' bs (omega arith) k l.1)

-- What a sequence of requests does to the state, with the granted blocks.
record Run (rs : List ℕ) (a : Arena) (result : List (ℕ × ℕ) × Arena) : Type 0 where
  sound : IsSound result.1
  base_same : result.1.base ≡ a.base
  size_same : result.1.size ≡ a.size
  grows : a.used ≤ result.1.used
  peak_grows : a.high ≤ result.1.high
  laid : Laid (a.base + a.used) result.0 (a.base + result.1.used)
  at_most : length result.0 ≤ length rs
  kept : length result.0 ≡ length rs → result.1.failed ≡ a.failed
  flagged : length result.0 < length rs → result.1.failed ≡ true
  sticky : a.failed ≡ true → result.1.failed ≡ true

module _ (r : ℕ) (rs : List ℕ) (a : Arena) where
  abbrev after : Arena
  after = (arena_alloc r a).1

  refused_step : (arena_alloc r a).0 ≡ none → alloc_all (r ∷ rs) a ≡ alloc_all rs after
  unfolding alloc_all
  refused_step e = rw (e, alloc_all)

  granted_step :
      (p : ℕ)
      → (arena_alloc r a).0 ≡ some p
      → alloc_all (r ∷ rs) a ≡ ((p, r) ∷ (alloc_all rs after).0, (alloc_all rs after).1)
  unfolding alloc_all
  granted_step p e = rw (e, alloc_all)

  refused-Run :
      Granted a r
      → (arena_alloc r a).0 ≡ none
      → Run rs after (alloc_all rs after)
      → Run (r ∷ rs) a (alloc_all rs after)
  refused-Run g e rest = record {
    sound = rest.sound;
    base_same = rest.base_same ∙ g.base_same;
    size_same = rest.size_same ∙ g.size_same;
    grows = omega (arith, g.grows, rest.grows);
    peak_grows = omega (arith, g.peak_grows, rest.peak_grows);
    laid =
        Laid-widen (after.base + after.used) (a.base + a.used)
          (after.base + (alloc_all rs after).1.used) (a.base + (alloc_all rs after).1.used)
          (alloc_all rs after).0 (omega (arith, g.base_same, g.grows)) (omega (arith, g.base_same))
          rest.laid;
    at_most = omega (arith, rest.at_most);
    kept = λ h. absurd (omega (arith, rest.at_most));
    flagged = λ h. rest.sticky (g.refused e);
    sticky = λ h. rest.sticky (g.refused e);
  }

  Granted-Run :
      Granted a r
      → (p : ℕ) → (arena_alloc r a).0 ≡ some p
      → Run rs after (alloc_all rs after)
      → Run (r ∷ rs) a ((p, r) ∷ (alloc_all rs after).0, (alloc_all rs after).1)
  Granted-Run g p e rest = record {
    sound = rest.sound;
    base_same = rest.base_same ∙ g.base_same;
    size_same = rest.size_same ∙ g.size_same;
    grows = omega (arith, g.grows, rest.grows);
    peak_grows = omega (arith, g.peak_grows, rest.peak_grows);
    laid = (
      omega (arith, g.block p e),
      Laid-widen (after.base + after.used) (p + r) (after.base + (alloc_all rs after).1.used)
          (a.base + (alloc_all rs after).1.used) (alloc_all rs after).0
          (omega (arith, g.block p e, g.base_same)) (omega (arith, g.base_same)) rest.laid,
    );
    at_most = omega (arith, rest.at_most);
    kept = λ h. rest.kept (omega arith) ∙ (g.block p e).2;
    flagged = λ h. rest.flagged (omega arith);
    sticky = λ h. rest.sticky ((g.block p e).2 ∙ h);
  }

alloc_all-Run : (rs : List ℕ) (a : Arena) → AllSmall rs → IsSound a → Run rs a (alloc_all rs a)
unfolding alloc_all
alloc_all-Run [] a small s = ground arith
alloc_all-Run (r ∷ rs) a small s =
    let g = arena_alloc-Granted a r small.0 s in
    let rest = alloc_all-Run rs (arena_alloc r a).1 small.1 (arena_alloc-IsSound r a small.0 s) in
    elim (Option-cases (arena_alloc r a).0) [
      | inl e ↦ subst (Run (r ∷ rs) a) (sym (refused_step r rs a e)) (refused-Run r rs a g e rest)
      | inr (p, e) ↦
          subst (Run (r ∷ rs) a) (sym (granted_step r rs a p e)) (Granted-Run r rs a g p e rest)
    ]

-- From a sound state, and for requests below 2^31 bytes, the blocks that a sequence of allocations
-- is granted lie one after the other, each at least as long as asked for, between the first free
-- byte and the end of the arena; so no two of them overlap. The state stays sound.
pub alloc_all-Laid :
    (rs : List ℕ) (a : Arena)
    → AllSmall rs
    → IsSound a
    → Laid (a.base + a.used) (alloc_all rs a).0 (a.base + a.size) × IsSound (alloc_all rs a).1
alloc_all-Laid rs a small s =
    let run = alloc_all-Run rs a small s in
    (
      Laid-widen (a.base + a.used) (a.base + a.used) (a.base + (alloc_all rs a).1.used)
          (a.base + a.size) (alloc_all rs a).0 (omega arith)
          (omega (arith, run.size_same, run.sound.used_fits, run.sound.high_fits)) run.laid,
      run.sound,
    )

-- From a sound state with the failure flag clear, the flag after a sequence of allocations is set
-- exactly when some request was refused.
pub alloc_all-failed :
    (rs : List ℕ) (a : Arena)
    → AllSmall rs
    → IsSound a
    → a.failed ≡ false
    → ((alloc_all rs a).1.failed ≡ true) ↔ (length (alloc_all rs a).0 < length rs)
alloc_all-failed rs a small s clear =
    let run = alloc_all-Run rs a small s in
    (
      λ h. elim (dec_lt (length (alloc_all rs a).0) (length rs)) [
        | yes p ↦ p
        | no p ↦ cc (run.kept (omega (arith, run.at_most)))
      ],
      run.flagged,
    )
