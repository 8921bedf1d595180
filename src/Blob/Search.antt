-- ===== src/Blob/Search.antt =====
-- The search from the previous hit finds what a scan of the whole directory finds.
use risc_v_vi_t_accelerator.Base.{
  ℕ, zero, suc, ◌+◌, ◌-◌, ◌≤◌, ◌<◌, ◌≡◌, ◌≢◌, sym, ◌∙◌, ap, inl, inr, arith, true, false,
  Bool-cases, none, some, ltb, ltb→lt, ◌==◌, if◌then◌else◌,
}
use risc_v_vi_t_accelerator.Blob.{Names, Blob, scan}

module _ (names : Names) where
  open names use {Name, same, same_iff}

  -- An entry below n_tensors has the name.
  abbrev pub Holds : Blob Name → Name → ℕ → Type 0
  Holds blob name i = (i < blob.n_tensors) × ((blob.dir i).name ≡ name)

  abbrev pub Missing : Blob Name → Name → Type 0
  Missing blob name = (i : ℕ) → i < blob.n_tensors → (blob.dir i).name ≢ name

  -- The index after r rounds from i.
  abbrev pub round_index : ℕ → ℕ → ℕ → ℕ
  round_index n i r = if ltb (i + r) n then i + r else i + r - n

  next_index : (n i : ℕ) → i < n → (if i + 1 == n then 0 else i + 1) < n
  next_index n i hi = ground arith

  round_index-zero : (n i : ℕ) → i < n → round_index n i 0 ≡ i
  round_index-zero n i hi = ground arith

  round_index-suc :
      (n i r : ℕ)
      → i < n
      → suc r < n + 1
      → round_index n i (suc r) ≡ round_index n (if i + 1 == n then 0 else i + 1) r
  round_index-suc n i r hi hr = ground arith

  scan_hit :
      (blob : Blob Name) (name : Name) (left i : ℕ)
      → same (blob.dir i).name name ≡ true
      → scan names blob name (suc left) i ≡ some i
  unfolding scan
  scan_hit blob name left i h = rw h

  scan_miss :
      (blob : Blob Name) (name : Name) (left i : ℕ)
      → same (blob.dir i).name name ≡ false
      → scan names blob name (suc left) i
        ≡ scan names blob name left (if i + 1 == blob.n_tensors then 0 else i + 1)
  unfolding scan
  scan_miss blob name left i h = rw h

  pub scan-Holds :
      (blob : Blob Name) (name : Name) (left i j : ℕ)
      → i < blob.n_tensors
      → scan names blob name left i ≡ some j
      → Holds blob name j
  unfolding scan
  scan-Holds blob name zero i j hi e = absurd (grind arith)
  scan-Holds blob name (suc left) i j hi e = elim (Bool-cases (same (blob.dir i).name name)) [
    | inl h ↦
        let found = scan_hit blob name left i h in
        let i≡j : i ≡ j = grind arith in
        (
          omega arith,
          ap (λ (t : ℕ). (blob.dir t).name) (sym i≡j) ∙ (same_iff (blob.dir i).name name).0 h,
        )
    | inr h ↦
        let missed = scan_miss blob name left i h in
        scan-Holds blob name left _ j (next_index blob.n_tensors i hi) (sym missed ∙ e)
  ]

  -- A scan that fails has compared every index on its way.
  pub scan-none :
      (blob : Blob Name) (name : Name) (left i r : ℕ)
      → i < blob.n_tensors
      → left ≤ blob.n_tensors
      → r < left
      → scan names blob name left i ≡ none
      → same (blob.dir (round_index blob.n_tensors i r)).name name ≡ false
  scan-none blob name zero i r hi hl hr e = absurd (omega arith)
  scan-none blob name (suc left) i zero hi hl hr e =
      elim (Bool-cases (same (blob.dir i).name name)) [
        | inl h ↦ let found = scan_hit blob name left i h in absurd (grind arith)
        | inr h ↦
            let here = round_index-zero blob.n_tensors i hi in
            ap (λ (t : ℕ). same (blob.dir t).name name) here ∙ h
      ]
  scan-none blob name (suc left) i (suc r) hi hl hr e =
      elim (Bool-cases (same (blob.dir i).name name)) [
        | inl h ↦ let found = scan_hit blob name left i h in absurd (grind arith)
        | inr h ↦
            let missed = scan_miss blob name left i h in
            let rest =
              scan-none blob name left _ r (next_index blob.n_tensors i hi) (omega arith)
                (omega arith) (sym missed ∙ e) in
            let moved = round_index-suc blob.n_tensors i r hi (omega arith) in
            ap (λ (t : ℕ). same (blob.dir t).name name) moved ∙ rest
      ]

  -- The round at which the scan from i meets j.
  pub meets : (n i j : ℕ) → i < n → j < n → (r : ℕ) × (r < n) × (round_index n i r ≡ j)
  meets n i j hi hj = elim (Bool-cases (ltb j i)) [
    | inl h ↦ let lt = ltb→lt j i h in (j + n - i, omega arith, ground arith)
    | inr h ↦ (j - i, ground arith, ground arith)
  ]
