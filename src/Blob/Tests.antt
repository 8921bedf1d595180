-- ===== src/Blob/Tests.antt =====
-- Runs of the lookups, and instances of their theorems: names are numbers.
use risc_v_vi_t_accelerator.Base.{
  ℕ, ◌+◌, ◌*◌, ◌<◌, if◌then◌else◌, ◌≡◌, ◌↔◌, ◌⊎◌, refl, arith, none, some, ◌==◌, ==_iff,
}
use risc_v_vi_t_accelerator.Blob.{
  Names, Blob, blob_magic, blob_version, blob_check, scan, find_index, find, find_quiet,
}
use risc_v_vi_t_accelerator.Blob.Search.{Holds, Missing}
use risc_v_vi_t_accelerator.Blob.Lookup.{find_index-Holds, find-Holds}

abbrev numbers : Names
numbers = record { Name = ℕ; same = λ a b. a == b; same_iff = ==_iff }

-- Five tensors, named 10 to 14.
abbrev five : Blob ℕ
five = record {
  base = 4096;
  magic = blob_magic;
  version = blob_version;
  n_tensors = 5;
  dir = λ i. record { name = 10 + i; nbytes = 8 * i; offset = 64 * i; dims = λ d. d };
}

abbrev empty : Blob ℕ
empty = record five { n_tensors = 0 }

checked : blob_check numbers five ≡ 0
unfolding blob_check
checked = refl

-- The search starts at the previous hit and wraps around.
wrapped : find_index numbers five 11 3 ≡ (some 1, 1)
unfolding find_index scan
wrapped = refl

absent : find_quiet numbers five 20 3 ≡ (none, 3)
unfolding find_quiet find_index scan
absent = refl

find_index-Holds_example : ((find_index numbers five 11 3).0 ≡ some 1) ↔ Holds numbers five 11 1
find_index-Holds_example = find_index-Holds numbers five 11 3 1 (λ j k hj hk e. omega arith)

-- A first read that shows an empty directory, and a second that shows the five.
abbrev views : ℕ → Blob ℕ
views attempt = if attempt == 0 then empty else five

find-Holds_example :
    ((a i : ℕ) × (((find numbers views 11 3).0
          ≡ some ((views a).base + ((views a).dir i).offset, ((views a).dir i).nbytes))
        × (a < 2)
        × Holds numbers (views a) 11 i))
    ⊎ (((find numbers views 11 3).0 ≡ none)
        × Missing numbers (views 0) 11
        × Missing numbers (views 1) 11)
find-Holds_example = find-Holds numbers views 11 3
