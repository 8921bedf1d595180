-- ===== src/Attention/Softmax.antt =====
-- The softmax of a head in fixed point: exp2_tab_init, softmax_p and attn_softmax of
-- src/sw/project/dav2_engine.c. Memory is in halfwords, as for the copies: a row of probabilities is
-- at an index, and its words are pairs of halfwords.
use risc_v_vi_t_accelerator.Base.{
  ℕ, zero, suc, ◌+◌, ◌-◌, ◌*◌, ◌/◌, ◌%◌, ◌^◌, bit_or, ltb, leb, ◌==◌, if◌then◌else◌, Option, none,
  some, u16, u32, u64, ℤ, pos, negsuc, ◌+ℤ◌, ◌-ℤ◌, ◌*ℤ◌, ltb_ℤ, bits32, for_range,
}
use risc_v_vi_t_accelerator.Xf.{Scale, mul, div, round, from_int, from_f32_bits}
use risc_v_vi_t_accelerator.Copy.Memory.{Halfwords, store16, load32, store32}
use risc_v_vi_t_accelerator.Gemm.{Ints}

-- A table of uint16_t.
abbrev pub Table : Type 0
Table = ℕ → ℕ

-- `t = (uint32_t)(((uint64_t)t * 2146030505u + (1u << 30)) >> 31)`
unfoldable pub next_power : ℕ → ℕ
next_power t = u32 (u64 (t * 2_146_030_505 + 2 ^ 30) / 2 ^ 31)

-- A round of exp2_tab_init on (t, exp2_tab).
unfoldable pub exp2_round : ℕ → ℕ × Table → ℕ × Table
exp2_round k (t, tab) =
    (next_power t, λ i. if i == k then u16 (u32 (t + 2 ^ 14) / 2 ^ 15) else tab i)

-- exp2_tab_init
unfoldable pub exp2_tab_init : Table → Table
exp2_tab_init tab = if tab 0 == 0 then (for_range 1024 0 exp2_round (2 ^ 30, tab)).1 else tab

-- softmax_p(d, cutoff, j, K, e)
unfoldable pub softmax_p : ℕ → ℕ → ℕ → ℕ → Table → ℕ
softmax_p d cutoff j factor e =
    let u = u32 (d / 2 ^ j * factor) / 2 ^ 17 in
    let p = e (u % 2 ^ 10) / 2 ^ (u / 2 ^ 10) in
    if leb cutoff d
    then 0
    else if leb (16 * 2 ^ 10) u
    then 0
    else if ltb 32_767 p
    then 32_767
    else p

-- What attn_softmax computes once: cutoff, j and K.
pub record Consts : Type 0 where
  pub cutoff : ℕ
  pub j : ℕ
  pub factor : ℕ

-- `while ((cutoff >> j) > 0xffffu) j++;`
unfoldable pub drop_bits : ℕ → ℕ → ℕ → ℕ
drop_bits zero cutoff j = j
drop_bits (suc fuel) cutoff j =
    let rest = drop_bits fuel cutoff (j + 1) in if ltb 0xffff (cutoff / 2 ^ j) then rest else j

-- The exponent's factor kf for q shifted by q_sh.
unfoldable pub exponent_factor : Scale → ℕ → Scale
exponent_factor scale q_sh =
    let s = mul scale scale in mul (record s { sh = s.sh -ℤ pos q_sh }) (from_f32_bits 0x3fb8_aa3b)

unfoldable pub softmax_consts : Scale → ℕ → Consts
softmax_consts scale q_sh =
    let kf = exponent_factor scale q_sh in
    let c = round (div (from_int (pos 16)) kf) (pos 0) +ℤ pos 1 in
    let cutoff = if ltb_ℤ c (pos 0xffff_ffff) then bits32 c else 0xffff_ffff in
    let j = drop_bits 32 cutoff 0 in
    let kr = round (record kf { sh = kf.sh -ℤ pos (16 + j + 11) }) (pos 0) in
    if ltb_ℤ (pos 0) kf.m
    then record {
      cutoff = cutoff;
      j = j;
      factor = if ltb_ℤ (pos 0xffff) kr then 0xffff else bits32 kr;
    }
    else record { cutoff = 0xffff_ffff; j = 0; factor = 0 }

-- The scores of a head: one matrix (b->s) with each query's statistics if b->sst is there, or two
-- for the halves of q (b->s_hi and b->s_lo).
pub data Scores : Type 0 where
  whole : Ints → Option Ints → Scores
  split : Ints → Ints → Scores

-- The score of query t and key m, in rows of n.
unfoldable pub score : Scores → ℕ → ℕ → ℕ → ℤ
score (whole s sst) n t m = s (t * n + m)
score (split hi lo) n t m = hi (t * n + m) *ℤ pos 16 +ℤ lo (t * n + m)

-- `for (int m = 0; m < n; m++) if (s[m] > smax) smax = s[m];` from -2147483647 - 1 on
unfoldable pub row_max : (ℕ → ℤ) → ℕ → ℤ
row_max s n =
    for_range n 0 (λ m smax. if ltb_ℤ smax (s m) then s m else smax) (negsuc 2_147_483_647)

unfoldable pub smax_of : Scores → ℕ → ℕ → ℤ
smax_of (whole s (some sst)) n t = sst (2 * t)
smax_of (whole s none) n t = row_max (score (whole s none) n t) n
smax_of (split hi lo) n t = row_max (score (split hi lo) n t) n

-- `(uint32_t)smax - (uint32_t)s`
unfoldable pub distance : ℤ → ℤ → ℕ
distance smax s = u32 (bits32 smax + 2 ^ 32 - bits32 s)

-- (n + 3) & ~3
abbrev pub padded : ℕ → ℕ
padded n = (n + 3) / 4 * 4

-- The element of the loop over two score matrices: t in Q16.
unfoldable pub half_p : ℕ → Consts → Table → ℕ
half_p d k e =
    let over = 16 * 2 ^ 16 in
    let t = if ltb d k.cutoff then u32 (d / 2 ^ k.j * k.factor) / 2 ^ 11 else over in
    let p = if leb over t then 0 else e (t / 2 ^ 6 % 2 ^ 10) / 2 ^ (t / 2 ^ 16) in
    if ltb 32_767 p then 32_767 else p

-- Two scores in a step, on (memory, sum); pr is the row's index.
unfoldable pub pair_step : ℕ → (ℕ → ℕ) → ℕ → Halfwords × ℕ → Halfwords × ℕ
pair_step pr p i (mem, sum) = (
  store32 mem (pr + 2 * i) (bit_or (p (2 * i)) (u32 (p (2 * i + 1) * 2 ^ 16))),
  u32 (sum + u32 (p (2 * i) + p (2 * i + 1))),
)

unfoldable pub one_step : ℕ → (ℕ → ℕ) → ℕ → Halfwords × ℕ → Halfwords × ℕ
one_step pr p m (mem, sum) = (store16 mem (pr + m) (p m), u32 (sum + p m))

-- The probabilities of query t in Q15, and their sum.
unfoldable pub row_probs : Scores → ℕ → ℕ → Consts → Table → ℕ → Halfwords → Halfwords × ℕ
row_probs (whole s sst) n t k e pr mem =
    let p = λ (m : ℕ).
      softmax_p (distance (smax_of (whole s sst) n t) (score (whole s sst) n t m)) k.cutoff k.j
        k.factor e in
    let r = for_range (n / 2) 0 (pair_step pr p) (mem, 0) in
    if n % 2 == 1 then one_step pr p (n - 1) r else r
row_probs (split hi lo) n t k e pr mem =
    let p =
      λ (m : ℕ). half_p (distance (smax_of (split hi lo) n t) (score (split hi lo) n t m)) k e in
    for_range n 0 (one_step pr p) (mem, 0)

-- inv: the sum's reciprocal in Q31, rounded.
unfoldable pub inverse : ℕ → ℕ
inverse sum = u32 (0x8000_0000 + sum / 2) / sum

-- `q = (p * inv + 32768u) >> 16; q -= q >> 15;`
unfoldable pub norm_p : ℕ → ℕ → ℕ
norm_p inv p = let q = u32 (p * inv + 32_768) / 2 ^ 16 in q - q / 2 ^ 15

unfoldable pub norm_step : ℕ → ℕ → ℕ → Halfwords → Halfwords
norm_step pr inv i mem =
    let w = load32 mem (pr + 2 * i) in
    store32 mem (pr + 2 * i)
      (bit_or (norm_p inv (w % 2 ^ 16)) (u32 (norm_p inv (w / 2 ^ 16) * 2 ^ 16)))

-- The loop body of attn_softmax for query t, whose row of probabilities is at pr.
unfoldable pub softmax_row : Scores → ℕ → ℕ → Consts → Table → ℕ → Halfwords → Halfwords
softmax_row sc n t k e pr mem =
    let (mem1, sum) = row_probs sc n t k e pr mem in
    let mem2 = for_range (padded n - n) n (λ m. λ (b : Halfwords). store16 b (pr + m) 0) mem1 in
    for_range (padded n / 2) 0 (norm_step pr (inverse sum)) mem2

-- attn_softmax: n queries, the probabilities at p16 in rows of `padded n`.
unfoldable pub attn_softmax : Scale → ℕ → Scores → ℕ → Table → ℕ → Halfwords → Halfwords
attn_softmax scale q_sh sc n e p16 mem =
    let k = softmax_consts scale q_sh in
    for_range n 0 (λ t. softmax_row sc n t k e (p16 + t * padded n)) mem
