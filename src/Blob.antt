-- ===== src/Blob.antt =====
-- The directory of the weight blob: src/sw/project/dav2_blob.c. `strcmp` is the C library's; it is
-- taken as a test of names that succeeds exactly on equal names.
pub mod Search
pub mod Lookup
pub mod Tests
use risc_v_vi_t_accelerator.Base.{
  ℕ, zero, suc, ◌+◌, ◌<◌, ◌≡◌, ◌↔◌, Bool, true, false, Option, none, some, ltb, ◌==◌, if◌then◌else◌,
}

-- strcmp(a, b) == 0
pub record Names : Type 1 where
  pub Name : Type 0
  pub same : Name → Name → Bool
  pub same_iff : (a b : Name) → (same a b ≡ true) ↔ (a ≡ b)

-- dav2_record_t, the fields that the lookups use.
pub record Entry (Name : Type 0) : Type 0 where
  pub name : Name
  pub nbytes : ℕ
  pub offset : ℕ
  pub dims : ℕ → ℕ

-- The header and the directory as one read of memory shows them.
pub record Blob (Name : Type 0) : Type 0 where
  pub base : ℕ
  pub magic : ℕ
  pub version : ℕ
  pub n_tensors : ℕ
  pub dir : ℕ → Entry Name

-- DAV2_MAGIC, DAV2_VERSION
abbrev pub blob_magic : ℕ
blob_magic = 0x32564144

abbrev pub blob_version : ℕ
blob_version = 4

module _ (names : Names) where
  open names use {Name, same}

  -- The int result of dav2_blob_check: 0 when the header fits the engine.
  pub blob_check : Blob Name → ℕ
  blob_check blob =
      if blob.magic == blob_magic then if blob.version == blob_version then 0 else 1 else 1

  -- `for (k = 0, i = last; k < n; k++, i = (i + 1 == n) ? 0 : i + 1)`, with n - k rounds left.
  pub scan : Blob Name → Name → ℕ → ℕ → Option ℕ
  scan blob name zero i = none
  scan blob name (suc left) i =
      let rest = scan blob name left (if i + 1 == blob.n_tensors then 0 else i + 1) in
      if same (blob.dir i).name name then some i else rest

  -- find_index: the index, and the new value of its static `last`.
  pub find_index : Blob Name → Name → ℕ → Option ℕ × ℕ
  find_index blob name last =
      let start = if ltb last blob.n_tensors then last else 0 in
      elim (scan blob name blob.n_tensors start) [ some i ↦ (some i, i) | none ↦ (none, start) ]

  -- dav2_find: two attempts, each of which reads the directory anew. The result is the address and
  -- the size of the data.
  pub find : (ℕ → Blob Name) → Name → ℕ → Option (ℕ × ℕ) × ℕ
  find views name last =
      let (first, last1) = find_index (views 0) name last in
      elim first [
        | some i ↦
            (some ((views 0).base + ((views 0).dir i).offset, ((views 0).dir i).nbytes), last1)
        | none ↦
            let (second, last2) = find_index (views 1) name last1 in
            elim second [
              | some i ↦ (
                some ((views 1).base + ((views 1).dir i).offset, ((views 1).dir i).nbytes),
                last2,
              )
              | none ↦ (none, last2)
            ]
      ]

  pub find_quiet : Blob Name → Name → ℕ → Option ℕ × ℕ
  find_quiet blob name last =
      let (hit, last') = find_index blob name last in
      elim hit [ some i ↦ (some (blob.base + (blob.dir i).offset), last') | none ↦ (none, last') ]

  pub find_dims : Blob Name → Name → ℕ → Option (ℕ → ℕ) × ℕ
  find_dims blob name last =
      let (hit, last') = find_index blob name last in
      elim hit [ some i ↦ (some (blob.dir i).dims, last') | none ↦ (none, last') ]
