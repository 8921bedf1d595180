-- ===== src/Blob/Lookup.antt =====
-- What a lookup returns: find_index with its remembered position, and the retry of dav2_find.
use risc_v_vi_t_accelerator.Base.{
  ℕ, zero, suc, ◌+◌, ◌<◌, ◌≡◌, ◌↔◌, sym, ◌∙◌, ap, ◌⊎◌, inl, inr, arith, Option, none, some,
  Option-cases, ltb, if◌then◌else◌,
}
use mathlib.Core.Path.{subst}
use risc_v_vi_t_accelerator.Blob.{Names, Blob, scan, find_index, find}
use risc_v_vi_t_accelerator.Blob.Search.{Holds, Missing, meets, scan-Holds, scan-none}

module _ (names : Names) where
  open names use {Name, same, same_iff}

  -- `if (last >= n) last = 0;`
  abbrev start_of : Blob Name → ℕ → ℕ
  start_of blob last = if ltb last blob.n_tensors then last else 0

  find_index-some :
      (blob : Blob Name) (name : Name) (last i : ℕ)
      → scan names blob name blob.n_tensors (start_of blob last) ≡ some i
      → find_index names blob name last ≡ (some i, i)
  unfolding find_index
  find_index-some blob name last i h = rw (h, find_index)

  find_index-none :
      (blob : Blob Name) (name : Name) (last : ℕ)
      → scan names blob name blob.n_tensors (start_of blob last) ≡ none
      → find_index names blob name last ≡ (none, start_of blob last)
  unfolding find_index
  find_index-none blob name last h = rw (h, find_index)

  scan-some :
      (blob : Blob Name) (name : Name) (left s i : ℕ)
      → scan names blob name left s ≡ some i
      → 0 < left
  unfolding scan
  scan-some blob name zero s i h = absurd (grind arith)
  scan-some blob name (suc left) s i h = omega arith

  start-lt :
      (blob : Blob Name) (last i : ℕ) → i < blob.n_tensors → start_of blob last < blob.n_tensors
  start-lt blob last i hi = ground arith

  -- scan from any start in range returns an index that holds the name, and nothing only when no
  -- index holds it.
  find_index-cases :
      (blob : Blob Name) (name : Name) (last : ℕ)
      → ((i : ℕ) × (find_index names blob name last ≡ (some i, i)) × Holds names blob name i)
        ⊎ ((find_index names blob name last ≡ (none, start_of blob last)) × Missing names blob name)
  find_index-cases blob name last =
      elim (Option-cases (scan names blob name blob.n_tensors (start_of blob last))) [
        | inl h ↦
            let missed = find_index-none blob name last h in
            inr (
              missed,
              λ i hi named.
                  let (r, hr, met) =
                    meets names blob.n_tensors (start_of blob last) i (start-lt blob last i hi)
                      hi in
                  let off =
                    scan-none names blob name blob.n_tensors (start_of blob last) r
                      (start-lt blob last i hi) (omega arith) hr h in
                  let on = (same_iff (blob.dir i).name name).1 named in grind arith,
            )
        | inr (i, h) ↦ inl (
          i,
          find_index-some blob name last i h,
          scan-Holds names blob name blob.n_tensors (start_of blob last) i
              (start-lt blob last 0 (scan-some blob name blob.n_tensors (start_of blob last) i h))
              h,
        )
      ]

  -- With distinct names, find_index returns i exactly when entry i of the directory has the name,
  -- whatever position it remembers from the lookups before.
  pub find_index-Holds :
      (blob : Blob Name) (name : Name) (last i : ℕ)
      → ((j k : ℕ)
          → j < blob.n_tensors
          → k < blob.n_tensors
          → (blob.dir j).name ≡ (blob.dir k).name
          → j ≡ k)
      → ((find_index names blob name last).0 ≡ some i) ↔ Holds names blob name i
  find_index-Holds blob name last i distinct = elim (find_index-cases blob name last) [
    | inl (k, e, (lt, named)) ↦ (
      λ found.
          let same_index : k ≡ i = grind arith in
          subst (λ (t : ℕ). Holds names blob name t) same_index (lt, named),
      λ (hi, named').
          ap (λ (r : Option ℕ × ℕ). r.0) e ∙ ap some (distinct k i lt hi (named ∙ sym named')),
    )
    | inr (e, missing) ↦ (λ found. absurd (grind arith), λ (hi, named). absurd (missing i hi named))
  ]

  -- dav2_find returns the data of an entry that has the name, as the attempt that found it read the
  -- directory, and nothing only when neither read shows such an entry.
  pub find-Holds :
      (views : ℕ → Blob Name) (name : Name) (last : ℕ)
      → ((a i : ℕ) × (((find names views name last).0
              ≡ some ((views a).base + ((views a).dir i).offset, ((views a).dir i).nbytes))
            × (a < 2)
            × Holds names (views a) name i))
        ⊎ (((find names views name last).0 ≡ none)
            × Missing names (views 0) name
            × Missing names (views 1) name)
  unfolding find
  find-Holds views name last = elim (find_index-cases (views 0) name last) [
    | inl (i, e, held) ↦ inl (0, i, (rw (e, find), omega arith, held))
    | inr (e, missing) ↦
        elim (find_index-cases (views 1) name (find_index names (views 0) name last).1) [
          | inl (i, e', held) ↦ inl (1, i, (rw (e, e', find), omega arith, held))
          | inr (e', missing') ↦ inr (rw (e, e', find), missing, missing')
        ]
  ]
