-- ===== src/Arena.antt =====
-- The bump allocator of src/sw/project/dav2_ops.c (dav2_arena_*, dav2_tensor_new). `size_t` is the
-- target's 32-bit type, and addresses are numbers.
pub mod Invariant
pub mod Blocks
pub mod Tests
use risc_v_vi_t_accelerator.Base.{
  ℕ, ◌+◌, ◌*◌, bit_and, Bool, true, false, Option, none, some, List, [], ◌∷◌, ltb, if◌then◌else◌,
  u32, ℤ, negsuc,
}
use risc_v_vi_t_accelerator.Xf.{Scale, xf_one}

-- arena_base, arena_size, arena_used, arena_high and dav2_arena_failed
pub record Arena : Type 0 where
  pub base : ℕ
  pub size : ℕ
  pub used : ℕ
  pub high : ℕ
  pub failed : Bool

pub arena_init : ℕ → ℕ → Arena
arena_init base bytes = record { base = base; size = bytes; used = 0; high = 0; failed = false }

-- The size rounded up to 16 bytes: `(bytes + 15u) & ~(size_t)15u`.
pub round_up : ℕ → ℕ
round_up bytes = bit_and (u32 (bytes + 15)) 0xfffffff0

-- `none` is the null pointer.
pub arena_alloc : ℕ → Arena → Option ℕ × Arena
arena_alloc request a =
    let bytes = round_up request in
    if ltb a.size (u32 (a.used + bytes))
    then (none, record a { failed = true })
    else (let p = a.base + a.used in
        let used = u32 (a.used + bytes) in
        (some p, record a { used = used; high = if ltb a.high used then used else a.high }))

pub arena_mark : Arena → ℕ
arena_mark a = a.used

pub arena_release : ℕ → Arena → Arena
arena_release m a = record a { used = m }

pub arena_peak : Arena → ℕ
arena_peak a = a.high

-- dav2_tensor_t: n rows of c channels at address v.
pub record Tensor : Type 0 where
  pub v : Option ℕ
  pub scale : Scale
  pub n : ℕ
  pub c : ℕ
  pub amax_q : ℤ
  pub rst : Option ℕ
  pub rsum : Option ℕ

pub tensor_new : ℕ → ℕ → Arena → Tensor × Arena
tensor_new n c a =
    let (v, a') = arena_alloc (u32 (u32 (n * c) * 2)) a in
    (record { v = v; scale = xf_one; n = n; c = c; amax_q = negsuc 0; rst = none; rsum = none }, a')

-- A sequence of requests, with the blocks that were granted: (address, bytes asked for).
pub alloc_all : List ℕ → Arena → List (ℕ × ℕ) × Arena
alloc_all [] a = ([], a)
alloc_all (r ∷ rs) a =
    let (p, a') = arena_alloc r a in
    let (ps, a'') = alloc_all rs a' in elim p [ none ↦ (ps, a'') | some q ↦ ((q, r) ∷ ps, a'') ]
