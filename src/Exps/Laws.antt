-- ===== src/Exps/Laws.antt =====
-- The cache of qgemm_exps does not show.
use risc_v_vi_t_accelerator.Base.{
  ℕ, zero, suc, ◌+◌, ◌%◌, ◌≡◌, ◌≢◌, refl, sym, ap, ◌∙◌, arith, Bool, true, false, ◌==◌, ◌&&◌,
  if◌then◌else◌, ℤ,
}
use risc_v_vi_t_accelerator.Exps.{
  Weight, Cached, Cache, exps, first_place, is_hit, search_from, remember, qgemm_exps,
}

-- Every place in use holds the exponents of the weight at its address, as `blob` gives it.
pub record IsFilled (blob : ℕ → ℕ → Weight) (cache : Cache) : Type 0 where
  pub holds :
      (i : ℕ) → (cache i).s ≢ 0 → ((cache i).es, (cache i).eb) ≡ exps (blob (cache i).s (cache i).m)

-- One round of the search, for a property of the places that it ends at.
search_round :
    (found free : Bool) (h : ℕ) (rest : ℕ × Bool) (P : ℕ → Type 0)
    → (found ≡ true → P h)
    → (rest.1 ≡ true → P rest.0)
    → (if found then (h, true) else if free then (h, false) else rest).1 ≡ true
    → P (if found then (h, true) else if free then (h, false) else rest).0
search_round true free h rest P here there e = here refl
search_round false true h rest P here there e = absurd (grind arith)
search_round false false h rest P here there e = there e

search_from-is_hit :
    (left : ℕ) (cache : Cache) (w : Weight) (h : ℕ)
    → (search_from left cache w h).1 ≡ true
    → is_hit w (cache (search_from left cache w h).0) ≡ true
unfolding search_from
search_from-is_hit zero cache w h e = absurd (grind arith)
search_from-is_hit (suc left) cache w h e =
    search_round (is_hit w (cache h)) ((cache h).s == 0) h
      (search_from left cache w ((h + 1) % 256)) (λ i. is_hit w (cache i) ≡ true) (λ found. found)
      (search_from-is_hit left cache w ((h + 1) % 256)) e

remember-IsFilled :
    (blob : ℕ → ℕ → Weight) (cache : Cache) (w : Weight) (h : ℕ)
    → blob w.s w.m ≡ w
    → IsFilled blob cache
    → IsFilled blob (remember cache w h)
unfolding remember
remember-IsFilled blob cache w h known ok = record {
  holds = λ i. choose ((i == h) && ((cache h).s == 0)) (cache i) (ok.holds i);
}
  where
    choose :
        (b : Bool) (c : Cached)
        → (c.s ≢ 0 → (c.es, c.eb) ≡ exps (blob c.s c.m))
        → let r = if b then record { s = w.s; m = w.m; es = (exps w).0; eb = (exps w).1 } else c in
          r.s ≢ 0 → (r.es, r.eb) ≡ exps (blob r.s r.m)
    choose true c held used = ap exps (sym known)
    choose false c held used = held used

-- A weight found has its exponents there.
hit-exps :
    (blob : ℕ → ℕ → Weight) (w : Weight) (c : Cached)
    → blob w.s w.m ≡ w
    → w.s ≢ 0
    → (c.s ≢ 0 → (c.es, c.eb) ≡ exps (blob c.s c.m))
    → is_hit w c ≡ true
    → (c.es, c.eb) ≡ exps w
hit-exps blob w c known used held hit =
    held (ground arith) ∙ ap exps (ap (λ a. blob a c.m) same.0 ∙ ap (blob w.s) same.1 ∙ known)
  where
    same : (c.s ≡ w.s) × (c.m ≡ w.m)
    same = ground arith

outcome :
    (blob : ℕ → ℕ → Weight) (cache : Cache) (w : Weight) (h : ℕ) (hit : Bool)
    → blob w.s w.m ≡ w
    → w.s ≢ 0
    → IsFilled blob cache
    → (hit ≡ true → is_hit w (cache h) ≡ true)
    → let r =
        if◌then◌else◌ {A = (ℤ × ℤ) × Cache} hit
          (((cache h).es, (cache h).eb), cache)
          (exps w, remember cache w h) in
      (r.0 ≡ exps w) × IsFilled blob r.1
outcome blob cache w h true known used ok found =
    (hit-exps blob w (cache h) known used (ok.holds h) (found refl), ok)
outcome blob cache w h false known used ok found = (refl, remember-IsFilled blob cache w h known ok)

-- For a weight of the blob, whose address is not null, and a cache that holds only exponents of
-- weights of the blob: qgemm_exps gives the exponents that its loop computes for the weight, whether
-- it finds them in the cache or not, and leaves such a cache, also when the cache is full.
pub qgemm_exps-exps :
    (blob : ℕ → ℕ → Weight) (cache : Cache) (w : Weight)
    → blob w.s w.m ≡ w
    → w.s ≢ 0
    → IsFilled blob cache
    → ((qgemm_exps cache w).0 ≡ exps w) × IsFilled blob (qgemm_exps cache w).1
unfolding qgemm_exps
qgemm_exps-exps blob cache w known used ok =
    outcome blob cache w (search_from 256 cache w (first_place w)).0
      (search_from 256 cache w (first_place w)).1 known used ok
      (search_from-is_hit 256 cache w (first_place w))
