-- ===== src/Arena/Invariant.antt =====
-- The allocator's invariant, and the behaviour of one allocation on both branches.
use risc_v_vi_t_accelerator.Base.{
  ℕ, ◌+◌, ◌*◌, ◌/◌, ◌%◌, ◌^◌, ◌≤◌, ◌<◌, ◌≡◌, arith, bit_and, bit_and_step, bit_and_mask, true, none,
  some, u32,
}
use risc_v_vi_t_accelerator.Arena.{Arena, arena_init, round_up, arena_alloc}

-- Clearing the four low bits of a word.
clear_low : (x : ℕ) → x < 2 ^ 32 → bit_and x 0xfffffff0 ≡ x / 16 * 16
clear_low x h = omega (
  arith,
  bit_and_step x 0xfffffff0,
  bit_and_step (x / 2) 0x7ffffff8,
  bit_and_step (x / 2 / 2) 0x3ffffffc,
  bit_and_step (x / 2 / 2 / 2) 0x1ffffffe,
  bit_and_mask 28 (x / 2 / 2 / 2 / 2),
)

-- Below 2^32 - 15 the rounded size is the next multiple of 16.
pub round_up_lem : (bytes : ℕ) → bytes + 15 < 2 ^ 32 → round_up bytes ≡ (bytes + 15) / 16 * 16
unfolding round_up
round_up_lem bytes h = omega (arith, clear_low (u32 (bytes + 15)) (omega arith))

-- The allocator's state between calls.
pub record IsSound (a : Arena) : Type 0 where
  pub used_fits : a.used ≤ a.high
  pub high_fits : a.high ≤ a.size
  pub size_fits : a.size < 2 ^ 31
  pub aligned : a.used % 16 ≡ 0

pub arena_init-IsSound : (base bytes : ℕ) → bytes < 2 ^ 31 → IsSound (arena_init base bytes)
unfolding arena_init
arena_init-IsSound base bytes h = omega arith

-- A request below 2^31 bytes leaves a sound state sound, whether it is granted or refused.
pub arena_alloc-IsSound :
    (bytes : ℕ) (a : Arena) → bytes < 2 ^ 31 → IsSound a → IsSound (arena_alloc bytes a).1
unfolding arena_alloc
arena_alloc-IsSound bytes a h s = ground (arith, round_up_lem bytes)

-- From a sound state, a request below 2^31 bytes whose size rounded up to 16 fits the free part
-- returns the first free address, and takes exactly the rounded size.
arena_alloc-fits :
    (bytes : ℕ) (a : Arena)
    → bytes < 2 ^ 31
    → IsSound a
    → a.used + (bytes + 15) / 16 * 16 ≤ a.size
    → ((arena_alloc bytes a).0 ≡ some (a.base + a.used))
      × ((arena_alloc bytes a).1.used ≡ a.used + (bytes + 15) / 16 * 16)
      × ((arena_alloc bytes a).1.failed ≡ a.failed)
unfolding arena_alloc
arena_alloc-fits bytes a h s f = ground (arith, round_up_lem bytes)

-- From a sound state, a request below 2^31 bytes that does not fit returns no address, and changes
-- nothing but the failure flag, which it sets.
arena_alloc-full :
    (bytes : ℕ) (a : Arena)
    → bytes < 2 ^ 31
    → IsSound a
    → a.size < a.used + (bytes + 15) / 16 * 16
    → arena_alloc bytes a ≡ (none, record a { failed = true })
unfolding arena_alloc
arena_alloc-full bytes a h s f = ground (arith, round_up_lem bytes)
