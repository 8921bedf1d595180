-- ===== src/Add.antt =====
-- The residual sum of src/sw/project/dav2_ops.c: add_params, add_range, add_step, dav2_add_begin and
-- dav2_add, and dav2_add_t of src/sw/project/dav2.h. Memory is in halfwords, as for the copies; a
-- tensor is at an index. The 32-bit operations of the two short forms wrap around; they have shifts
-- of 31 bits at most in C, and are meant here for those.
pub mod Scaled
pub mod Range
pub mod Scan
pub mod Sum
pub mod Elements
pub mod Parts
pub mod Tests
use risc_v_vi_t_accelerator.Base.{
  ℕ, ◌+◌, ◌-◌, ◌*◌, ◌/◌, ◌%◌, ◌^◌, Bool, true, false, ltb, leb, ◌==◌, ◌&&◌, if◌then◌else◌, ℤ, pos,
  negsuc, pos_part, mag, ◌+ℤ◌, ◌*ℤ◌, ◌>>ℤ◌, ltb_ℤ, mod_ℤ, bits16, signed16, i32, for_range, none,
}
use risc_v_vi_t_accelerator.Xf.{Scale, xf_one, mul, from_int, div, recip, to_mult, leb_ℤ}
use risc_v_vi_t_accelerator.Copy.Memory.{Halfwords, store16, load32, store32}
use risc_v_vi_t_accelerator.Fixed.{apply_multiplier, sat_act, mulh32, lo16, hi16, pack16, words_ok}
use risc_v_vi_t_accelerator.Relu.{larger}
use risc_v_vi_t_accelerator.Producer.{Producer}
use risc_v_vi_t_accelerator.Xf

-- The multipliers and shifts of the two operands.
pub record Factors : Type 0 where
  pub ma : ℤ
  pub sa : ℕ
  pub mb : ℤ
  pub sb : ℕ

-- A tensor's fields that the sum reads: its index, rows, channels, scale and largest |value|.
pub record Operand : Type 0 where
  pub v : ℕ
  pub n : ℕ
  pub c : ℕ
  pub scale : Scale
  pub amax_q : ℤ

-- add_params
unfoldable pub add_params : ℕ → Scale → ℕ → Scale → Scale × Factors
add_params amax_a sa amax_b sb =
    let bound = Xf.add (mul (from_int (pos amax_a)) sa) (mul (from_int (pos amax_b)) sb) in
    let out_scale =
      if leb_ℤ bound.m (pos 0) && leb_ℤ (pos 0) bound.m
      then xf_one
      else div bound (from_int (pos 8191)) in
    let inv = recip out_scale in
    let (ma, ka) = to_mult (mul sa inv) in
    let (mb, kb) = to_mult (mul sb inv) in
    (out_scale, record { ma = ma; sa = ka; mb = mb; sb = kb })

-- `(x * mh + ((x * ml) >> 16) + (1 << (s - 17))) >> (s - 16)`, m = mh 2^16 + ml
unfoldable pub scaled_small : ℤ → ℤ → ℕ → ℤ
scaled_small x m s =
    i32 (
      i32 (i32 (x *ℤ (m >>ℤ 16)) +ℤ (i32 (x *ℤ pos (mod_ℤ m (2 ^ 16))) >>ℤ 16))
      +ℤ pos (2 ^ (s - 17)))
    >>ℤ (s - 16)

-- `(mulh32(x << 16, m) + (1 << (s + 16 - 33))) >> (s + 16 - 32)`
unfoldable pub scaled_high : ℤ → ℤ → ℕ → ℤ
scaled_high x m s =
    i32 (mulh32 (i32 (x *ℤ pos (2 ^ 16))) m +ℤ pos (2 ^ (s + 16 - 33))) >>ℤ (s + 16 - 32)

-- The sum of two values in the output's scale, with one of the three ways to scale a value.
unfoldable pub sum_by : (ℤ → ℤ → ℕ → ℤ) → Factors → ℤ → ℤ → ℤ
sum_by scaled f x y = sat_act (scaled x f.ma f.sa +ℤ scaled y f.mb f.sb)

-- Word i of the sum, on (memory, omax).
unfoldable pub add_two : (ℤ → ℤ → ℤ) → ℕ → ℕ → ℕ → ℕ → Halfwords × ℕ → Halfwords × ℕ
add_two sum a b out i (mem, omax) =
    let x = load32 mem (a + 2 * i) in
    let y = load32 mem (b + 2 * i) in
    let r0 = sum (lo16 x) (lo16 y) in
    let r1 = sum (hi16 x) (hi16 y) in
    (store32 mem (out + 2 * i) (pack16 r0 r1), larger (mag r1) (larger (mag r0) omax))

-- Element i of the sum.
unfoldable pub add_one : (ℤ → ℤ → ℤ) → ℕ → ℕ → ℕ → ℕ → Halfwords × ℕ → Halfwords × ℕ
add_one sum a b out i (mem, omax) =
    let v = sum (signed16 (mem (a + i))) (signed16 (mem (b + i))) in
    (store16 mem (out + i) (bits16 v), larger (mag v) omax)

-- sa >= 17 && sa <= 47 && sb >= 17 && sb <= 47
abbrev pub in_range : Factors → Bool
in_range f = leb 17 f.sa && (leb f.sa 47 && (leb 17 f.sb && leb f.sb 47))

-- add_range, elements e0 .. e1 - 1
unfoldable pub add_range : Bool → Bool → Factors → ℕ → ℕ → ℕ → ℕ → ℕ → Halfwords × ℕ → Halfwords × ℕ
add_range wide small f a b out e0 e1 =
    let words = λ (sum : ℤ → ℤ → ℤ). for_range (e1 / 2 - e0 / 2) (e0 / 2) (add_two sum a b out) in
    if wide && (in_range f && small)
    then words (sum_by scaled_small f)
    else if wide && (leb 17 f.sa && leb 17 f.sb)
    then words (sum_by scaled_high f)
    else if wide
    then words (sum_by apply_multiplier f)
    else for_range (e1 - e0) e0 (add_one (sum_by apply_multiplier f) a b out)

-- dav2_add_t with the memory, out's channels and out->amax_q.
pub record AddState : Type 0 where
  pub done_pix : ℕ
  pub total_pix : ℕ
  pub a : ℕ
  pub b : ℕ
  pub out : ℕ
  pub out_c : ℕ
  pub out_amax : ℤ
  pub total : ℕ
  pub step_elems : ℕ
  pub e : ℕ
  pub wide : Bool
  pub small : Bool
  pub factors : Factors
  pub omax : ℕ
  pub out_scale : Scale
  pub mem : Halfwords

-- add_step: whether parts are left, and the state.
unfoldable pub add_step : AddState → Bool × AddState
add_step s =
    let e1 = if ltb s.total (s.e + s.step_elems) then s.total else s.e + s.step_elems in
    let r = add_range s.wide s.small s.factors s.a s.b s.out s.e e1 (s.mem, s.omax) in
    if leb s.total s.e then (false, s) else (
      ltb e1 s.total,
      record s {
        mem = r.0;
        omax = r.1;
        e = e1;
        done_pix = e1 / s.out_c;
        out_amax = if leb s.total e1 then pos r.1 else s.out_amax;
      },
    )

-- The sum as a producer for the next convolution.
abbrev pub add_producer : Producer
add_producer = record {
  State = AddState;
  done_pix = λ (s : AddState). s.done_pix;
  total_pix = λ (s : AddState). s.total_pix;
  step = add_step;
  need = none;
}

-- The scan for the largest |value| of both operands, a word or an element of each in a round.
unfoldable pub scan_words : ℕ → ℕ → Halfwords → ℕ → ℕ × ℕ → ℕ × ℕ
scan_words a b mem i (amax_a, amax_b) =
    let x = load32 mem (a + 2 * i) in
    let y = load32 mem (b + 2 * i) in
    (
      larger (mag (hi16 x)) (larger (mag (lo16 x)) amax_a),
      larger (mag (hi16 y)) (larger (mag (lo16 y)) amax_b),
    )

unfoldable pub scan_one : ℕ → ℕ → Halfwords → ℕ → ℕ × ℕ → ℕ × ℕ
scan_one a b mem i (amax_a, amax_b) =
    (larger (mag (signed16 (mem (a + i)))) amax_a, larger (mag (signed16 (mem (b + i)))) amax_b)

-- amax_a and amax_b of dav2_add_begin.
unfoldable pub find_amax : Bool → Operand → Operand → ℕ → Halfwords → ℕ × ℕ
find_amax wide a b total mem =
    if leb_ℤ (pos 0) a.amax_q && leb_ℤ (pos 0) b.amax_q
    then (pos_part a.amax_q, pos_part b.amax_q)
    else if wide
    then for_range (total / 2) 0 (scan_words a.v b.v mem) (0, 0)
    else for_range total 0 (scan_one a.v b.v mem) (0, 0)

-- dav2_add_begin, with out at an index. words_ok gets the addresses in bytes.
unfoldable pub add_begin : Operand → Operand → ℕ → ℕ → Halfwords → AddState
add_begin a b out step_pix mem =
    let total = a.n * a.c in
    let step = (if ltb 0 step_pix then step_pix else a.n) * a.c in
    let wide = words_ok (2 * a.v) (2 * b.v) (2 * out) total in
    let amax = find_amax wide a b total mem in
    let params = add_params amax.0 a.scale amax.1 b.scale in
    record {
      done_pix = 0;
      total_pix = a.n;
      a = a.v;
      b = b.v;
      out = out;
      out_c = a.c;
      out_amax = negsuc 0;
      total = total;
      step_elems = if step % 2 == 1 then step * 2 else step;
      e = 0;
      wide = wide;
      small = leb amax.0 16_383 && leb amax.1 16_383;
      factors = params.1;
      omax = 0;
      out_scale = params.0;
      mem = mem;
    }

-- dav2_add: the memory, and amax_q of the sum.
unfoldable pub add : Operand → Operand → ℕ → Halfwords → Halfwords × ℕ
add a b out mem =
    let s = add_begin a b out 0 mem in
    add_range s.wide s.small s.factors a.v b.v out 0 s.total (mem, 0)
