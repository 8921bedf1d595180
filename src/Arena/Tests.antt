-- ===== src/Arena/Tests.antt =====
-- Runs of the allocator, and instances of its theorems.
use risc_v_vi_t_accelerator.Base.{ℕ, ◌<◌, ◌≡◌, ◌↔◌, refl, arith, true, false, [], ◌∷◌, length}
use risc_v_vi_t_accelerator.Arena.{
  Arena, round_up, arena_alloc, arena_mark, arena_release, alloc_all,
}
use risc_v_vi_t_accelerator.Arena.Invariant.{IsSound}
use risc_v_vi_t_accelerator.Arena.Blocks.{Laid, alloc_all-Laid, alloc_all-failed}

abbrev small : Arena
small = record { base = 4096; size = 100; used = 0; high = 0; failed = false }

small-IsSound : IsSound small
small-IsSound = record {
  used_fits = omega arith;
  high_fits = omega arith;
  size_fits = omega arith;
  aligned = refl;
}

-- The second request takes 48 bytes and no longer fits after 64.
two_blocks : (alloc_all (50 ∷ 40 ∷ 20 ∷ []) small).0 ≡ (4096, 50) ∷ (4160, 20) ∷ []
unfolding alloc_all arena_alloc round_up
two_blocks = refl

alloc_all-Laid_example :
    Laid 4096 (alloc_all (50 ∷ 40 ∷ 20 ∷ []) small).0 4196
    × IsSound (alloc_all (50 ∷ 40 ∷ 20 ∷ []) small).1
alloc_all-Laid_example =
    alloc_all-Laid (50 ∷ 40 ∷ 20 ∷ []) small (omega arith, (omega arith, (omega arith, tt)))
      small-IsSound

alloc_all-failed_example :
    ((alloc_all (50 ∷ 40 ∷ 20 ∷ []) small).1.failed ≡ true)
    ↔ (length (alloc_all (50 ∷ 40 ∷ 20 ∷ []) small).0 < length {A = ℕ} (50 ∷ 40 ∷ 20 ∷ []))
alloc_all-failed_example =
    alloc_all-failed (50 ∷ 40 ∷ 20 ∷ []) small (omega arith, (omega arith, (omega arith, tt)))
      small-IsSound refl

-- A release of a mark gives back what the requests after it took.
released : (arena_release (arena_mark small) (alloc_all (50 ∷ 20 ∷ []) small).1).used ≡ 0
unfolding arena_release arena_mark
released = refl
