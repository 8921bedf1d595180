-- ===== src/Exps.antt =====
-- The common exponents of a weight's scales and biases: qgemm_exps of src/sw/project/dav2_ops.c, with
-- its cache.
pub mod Laws
pub mod Tests
use risc_v_vi_t_accelerator.Base.{
  ℕ, zero, suc, ◌+◌, ◌*◌, ◌/◌, ◌%◌, ◌^◌, bit_xor, Bool, true, false, not, ◌&&◌, ltb, ◌==◌,
  if◌then◌else◌, Option, none, some, ℤ, pos, ltb_ℤ, eqb_ℤ, for_range,
}
use risc_v_vi_t_accelerator.Xf.{Scale}

-- What qgemm_exps reads of a dav2_qw_t: the address s and what is there, the biases unless b is null.
pub record Weight : Type 0 where
  pub s : ℕ
  pub m : ℕ
  pub scales : ℕ → Scale
  pub biases : Option (ℕ → Scale)

pub record Cached : Type 0 where
  pub s : ℕ
  pub m : ℕ
  pub es : ℤ
  pub eb : ℤ

abbrev pub Cache : Type 0
Cache = ℕ → Cached

-- `if (x.m && x.sh < e) e = x.sh;`
unfoldable pub lower_exp : Scale → ℤ → ℤ
lower_exp x e = if not (eqb_ℤ x.m (pos 0)) && ltb_ℤ x.sh e then x.sh else e

unfoldable pub lower_bias : Option (ℕ → Scale) → ℕ → ℤ → ℤ
lower_bias none i e = e
lower_bias (some b) i e = lower_exp (b i) e

-- The loop over the scales and the biases, from 1 << 30 on.
unfoldable pub exps : Weight → ℤ × ℤ
exps w =
    for_range w.m 0 (λ i (es, eb). (lower_exp (w.scales i) es, lower_bias w.biases i eb))
      (pos (2 ^ 30), pos (2 ^ 30))

-- The first place h; NE is 256 and a pointer has 32 bits.
unfoldable pub first_place : Weight → ℕ
first_place w = bit_xor (w.s / 2 ^ 3) w.m % 256

abbrev pub is_hit : Weight → Cached → Bool
is_hit w c = (c.s == w.s) && (c.m == w.m)

-- The search from place h on, of `left` rounds: where it ended, and whether the weight is there.
unfoldable pub search_from : ℕ → Cache → Weight → ℕ → ℕ × Bool
search_from zero cache w h = (h, false)
search_from (suc left) cache w h =
    let rest = search_from left cache w ((h + 1) % 256) in
    if is_hit w (cache h) then (h, true) else if (cache h).s == 0 then (h, false) else rest

-- The free place h takes the weight; a full cache stays as it is.
unfoldable pub remember : Cache → Weight → ℕ → Cache
remember cache w h i =
    if (i == h) && ((cache h).s == 0)
    then record { s = w.s; m = w.m; es = (exps w).0; eb = (exps w).1 }
    else cache i

-- qgemm_exps: (*es_out, *eb_out) and the cache.
unfoldable pub qgemm_exps : Cache → Weight → (ℤ × ℤ) × Cache
qgemm_exps cache w =
    let (h, hit) = search_from 256 cache w (first_place w) in
    if hit then (((cache h).es, (cache h).eb), cache) else (exps w, remember cache w h)
