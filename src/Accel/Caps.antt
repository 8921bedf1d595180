-- ===== src/Accel/Caps.antt =====
-- The CAPS word as the block lays it out, and what dav2_accel_init of
-- src/sw/project/dav2_accel.c reads back from it.
use risc_v_vi_t_accelerator.Base.{
  ℕ, ◌+◌, ◌*◌, ◌/◌, ◌%◌, ◌==◌, ◌^◌, ◌<◌, ◌≤◌, ◌≡◌, refl, ap, ◌∙◌, arith, Bool, true, false,
  if◌then◌else◌,
}
use risc_v_vi_t_accelerator.Emulator.{bit, bits_at}

-- What a block offers, in the order of its bits of CAPS from bit 21 on.
pub record Features : Type 0 where
  pub smx : Bool
  pub rng : Bool
  pub ln : Bool
  pub lut : Bool
  pub a16 : Bool
  pub w16 : Bool
  pub ostats : Bool
  pub onchip : Bool
  pub greuse : Bool
  pub osums : Bool
  pub grelu : Bool

one : Bool → ℕ
one b = if b then 1 else 0

-- The word of a block with these features, rows and columns.
pub caps_of : Features → ℕ → ℕ → ℕ
caps_of f rows cols =
    rows
    + cols * 2 ^ 8
    + one f.smx * 2 ^ 21
    + one f.rng * 2 ^ 22
    + one f.ln * 2 ^ 23
    + one f.lut * 2 ^ 24
    + one f.a16 * 2 ^ 25
    + one f.w16 * 2 ^ 26
    + one f.ostats * 2 ^ 27
    + one f.onchip * 2 ^ 28
    + one f.greuse * 2 ^ 29
    + one f.osums * 2 ^ 30
    + one f.grelu * 2 ^ 31

-- The bits that set_caps reads.
unfoldable pub features : ℕ → Features
features caps = record {
  smx = bit caps 21;
  rng = bit caps 22;
  ln = bit caps 23;
  lut = bit caps 24;
  a16 = bit caps 25;
  w16 = bit caps 26;
  ostats = bit caps 27;
  onchip = bit caps 28;
  greuse = bit caps 29;
  osums = bit caps 30;
  grelu = bit caps 31;
}

one_le : (b : Bool) → one b ≤ 1
unfolding one
one_le true = omega arith
one_le false = omega arith

one-is_set : (b : Bool) → (one b == 1) ≡ b
unfolding one
one-is_set true = refl
one-is_set false = refl

module _ (f : Features) (rows cols : ℕ) (hr : rows < 2 ^ 8) (hc : cols < 2 ^ 13) where
  pub rows-caps_of : caps_of f rows cols % 2 ^ 8 ≡ rows
  unfolding caps_of
  rows-caps_of = omega (arith, hr)

  pub cols-caps_of : bits_at (caps_of f rows cols) 8 13 ≡ cols
  unfolding caps_of
  cols-caps_of = omega (arith, hr, hc)

  bit_smx : bit (caps_of f rows cols) 21 ≡ f.smx
  unfolding caps_of
  bit_smx =
      let value : caps_of f rows cols / 2 ^ 21 % 2 ≡ one f.smx =
        omega (arith, hr, hc, one_le f.smx) in
      ap (λ x. x == 1) value ∙ one-is_set f.smx

  bit_rng : bit (caps_of f rows cols) 22 ≡ f.rng
  unfolding caps_of
  bit_rng =
      let value : caps_of f rows cols / 2 ^ 22 % 2 ≡ one f.rng =
        omega (arith, hr, hc, one_le f.smx, one_le f.rng) in
      ap (λ x. x == 1) value ∙ one-is_set f.rng

  bit_ln : bit (caps_of f rows cols) 23 ≡ f.ln
  unfolding caps_of
  bit_ln =
      let value : caps_of f rows cols / 2 ^ 23 % 2 ≡ one f.ln =
        omega (arith, hr, hc, one_le f.smx, one_le f.rng, one_le f.ln) in
      ap (λ x. x == 1) value ∙ one-is_set f.ln

  bit_lut : bit (caps_of f rows cols) 24 ≡ f.lut
  unfolding caps_of
  bit_lut =
      let value : caps_of f rows cols / 2 ^ 24 % 2 ≡ one f.lut =
        omega (arith, hr, hc, one_le f.smx, one_le f.rng, one_le f.ln, one_le f.lut) in
      ap (λ x. x == 1) value ∙ one-is_set f.lut

  bit_a16 : bit (caps_of f rows cols) 25 ≡ f.a16
  unfolding caps_of
  bit_a16 =
      let value : caps_of f rows cols / 2 ^ 25 % 2 ≡ one f.a16 =
        omega
          (arith, hr, hc, one_le f.smx, one_le f.rng, one_le f.ln, one_le f.lut, one_le f.a16) in
      ap (λ x. x == 1) value ∙ one-is_set f.a16

  bit_w16 : bit (caps_of f rows cols) 26 ≡ f.w16
  unfolding caps_of
  bit_w16 =
      let value : caps_of f rows cols / 2 ^ 26 % 2 ≡ one f.w16 = omega (
        arith,
        hr,
        hc,
        one_le f.smx,
        one_le f.rng,
        one_le f.ln,
        one_le f.lut,
        one_le f.a16,
        one_le f.w16,
      ) in
      ap (λ x. x == 1) value ∙ one-is_set f.w16

  bit_ostats : bit (caps_of f rows cols) 27 ≡ f.ostats
  unfolding caps_of
  bit_ostats =
      let value : caps_of f rows cols / 2 ^ 27 % 2 ≡ one f.ostats = omega (
        arith,
        hr,
        hc,
        one_le f.smx,
        one_le f.rng,
        one_le f.ln,
        one_le f.lut,
        one_le f.a16,
        one_le f.w16,
        one_le f.ostats,
      ) in
      ap (λ x. x == 1) value ∙ one-is_set f.ostats

  bit_onchip : bit (caps_of f rows cols) 28 ≡ f.onchip
  unfolding caps_of
  bit_onchip =
      let value : caps_of f rows cols / 2 ^ 28 % 2 ≡ one f.onchip = omega (
        arith,
        hr,
        hc,
        one_le f.smx,
        one_le f.rng,
        one_le f.ln,
        one_le f.lut,
        one_le f.a16,
        one_le f.w16,
        one_le f.ostats,
        one_le f.onchip,
      ) in
      ap (λ x. x == 1) value ∙ one-is_set f.onchip

  bit_greuse : bit (caps_of f rows cols) 29 ≡ f.greuse
  unfolding caps_of
  bit_greuse =
      let value : caps_of f rows cols / 2 ^ 29 % 2 ≡ one f.greuse = omega (
        arith,
        hr,
        hc,
        one_le f.smx,
        one_le f.rng,
        one_le f.ln,
        one_le f.lut,
        one_le f.a16,
        one_le f.w16,
        one_le f.ostats,
        one_le f.onchip,
        one_le f.greuse,
      ) in
      ap (λ x. x == 1) value ∙ one-is_set f.greuse

  bit_osums : bit (caps_of f rows cols) 30 ≡ f.osums
  unfolding caps_of
  bit_osums =
      let value : caps_of f rows cols / 2 ^ 30 % 2 ≡ one f.osums = omega (
        arith,
        hr,
        hc,
        one_le f.smx,
        one_le f.rng,
        one_le f.ln,
        one_le f.lut,
        one_le f.a16,
        one_le f.w16,
        one_le f.ostats,
        one_le f.onchip,
        one_le f.greuse,
        one_le f.osums,
      ) in
      ap (λ x. x == 1) value ∙ one-is_set f.osums

  bit_grelu : bit (caps_of f rows cols) 31 ≡ f.grelu
  unfolding caps_of
  bit_grelu =
      let value : caps_of f rows cols / 2 ^ 31 % 2 ≡ one f.grelu = omega (
        arith,
        hr,
        hc,
        one_le f.smx,
        one_le f.rng,
        one_le f.ln,
        one_le f.lut,
        one_le f.a16,
        one_le f.w16,
        one_le f.ostats,
        one_le f.onchip,
        one_le f.greuse,
        one_le f.osums,
        one_le f.grelu,
      ) in
      ap (λ x. x == 1) value ∙ one-is_set f.grelu

  pub features-caps_of : features (caps_of f rows cols) ≡ f
  unfolding features
  features-caps_of =
      rw
        (
          bit_smx, bit_rng, bit_ln, bit_lut, bit_a16, bit_w16, bit_ostats, bit_onchip, bit_greuse,
          bit_osums, bit_grelu,
        )
        refl
