-- ===== src/Accel/Rows.antt =====
-- What a requantisation job is given: dav2_rq_epi_t of src/sw/project/dav2_accel.h, and the registers
-- that accel_requant_rows of src/sw/project/dav2_accel.c writes.
use risc_v_vi_t_accelerator.Base.{
  ℕ, ◌+◌, ◌*◌, ◌/◌, ◌%◌, ◌^◌, Bool, false, not, ◌&&◌, ◌||◌, ◌==◌, ltb, if◌then◌else◌, List, [], ◌∷◌,
  ◌++◌, ℤ, pos, bits32, ltb_ℤ,
}
use risc_v_vi_t_accelerator.Emulator.{aligned}
use risc_v_vi_t_accelerator.Accel.{Driver, Action, Reg, modify, flag, ored}

-- dav2_rq_epi_t
pub record Epi : Type 0 where
  pub x : ℕ
  pub mx : ℤ
  pub mh : ℤ
  pub sx : ℤ
  pub sh : ℤ
  pub add : Bool
  pub relu : Bool
  pub lut : ℕ
  pub lut_load : Bool
  pub ostats : ℕ
  pub osums : Bool
  pub onchip : Bool
  pub lut_int : Bool
  pub dpar : Bool
  pub dp_fk : ℤ
  pub dp_gb : ℤ
  pub dp_shift : ℤ
  pub dp_r : ℤ
  pub dp_k : ℤ
  pub dp_nob : Bool
  pub msums : ℕ
  pub nparam : Bool
  pub sat16 : Bool

-- `memset(&epi, 0, sizeof epi)`, which is also what a null pointer stands for: every use of a field
-- asks for the pointer first.
abbrev pub no_epi : Epi
no_epi = record {
  x = 0;
  mx = pos 0;
  mh = pos 0;
  sx = pos 0;
  sh = pos 0;
  add = false;
  relu = false;
  lut = 0;
  lut_load = false;
  ostats = 0;
  osums = false;
  onchip = false;
  lut_int = false;
  dpar = false;
  dp_fk = pos 0;
  dp_gb = pos 0;
  dp_shift = pos 0;
  dp_r = pos 0;
  dp_k = pos 0;
  dp_nob = false;
  msums = 0;
  nparam = false;
  sat16 = false;
}

-- The arguments of accel_requant_rows.
pub record Rows : Type 0 where
  pub acc : ℕ
  pub n : ℕ
  pub m : ℕ
  pub m0 : ℕ
  pub mc : ℕ
  pub params : ℕ
  pub out : ℕ
  pub amax : ℕ
  pub epi : Epi
  pub a16 : Bool

abbrev pub given : ℕ → Bool
given p = not (p == 0)

-- The CTRL bits of the job, but for the table's load.
unfoldable pub rows_ctrl : Rows → ℕ
rows_ctrl r =
    let e = r.epi in
    ored (
      3
      ∷ flag r.a16 0x80
      ∷ flag e.add 8
      ∷ flag e.relu 0x10
      ∷ flag (given e.lut) 0x20
      ∷ flag (given e.lut && e.lut_int) 0x40000
      ∷ flag (given e.ostats) 0x200
      ∷ flag e.osums 0x1000
      ∷ flag e.onchip 0x400
      ∷ flag (given e.msums) 0x2000000
      ∷ flag e.nparam 0x4000000
      ∷ flag e.sat16 0x8000000
      ∷ flag e.dpar 0x1000000
      ∷ [])

abbrev when : Bool → List (Reg × ℕ) → List (Reg × ℕ)
when b ws = if b then ws else []

-- The registers that every tile shares, for output rows of orow elements and input rows of ipitch
-- bytes.
unfoldable pub rows_regs : Rows → ℕ → ℕ → List (Reg × ℕ)
rows_regs r orow ipitch =
    let e = r.epi in
    when e.add (
      (Reg.add_mx, bits32 e.mx)
      ∷ (Reg.add_mh, bits32 e.mh)
      ∷ (Reg.add_sh, ored (bits32 e.sh * 2 ^ 8 ∷ bits32 e.sx ∷ []))
      ∷ [])
    ++ when (given e.lut) ((Reg.lut_addr, e.lut) ∷ [])
    ++ when e.dpar (
        (Reg.dp_fk, bits32 e.dp_fk)
        ∷ (Reg.dp_gb, bits32 e.dp_gb)
        ∷ (
          Reg.dp_sh,
          ored (
              bits32 e.dp_shift
              ∷ bits32 e.dp_r * 2 ^ 8
              ∷ bits32 e.dp_k * 2 ^ 16
              ∷ flag e.dp_nob (2 ^ 24)
              ∷ []),
        )
        ∷ (Reg.dp_m0, r.m0)
        ∷ [])
    ++ ((Reg.a_stride, if e.onchip then r.n else ipitch)
        ∷ (Reg.c_stride, orow * 2)
        ∷ (Reg.s_addr, 0)
        ∷ (Reg.p_addr, if e.dpar || e.nparam then 0 else r.params + r.m0 * 3 * 4)
        ∷ (Reg.m_len, r.mc)
        ∷ [])

-- A tile's registers: the nc columns from n0 on.
unfoldable pub rows_tile_regs : Rows → ℕ → ℕ → ℕ → ℕ → ℕ → List (Reg × ℕ)
rows_tile_regs r orow ipitch base n0 nc =
    let e = r.epi in
    let esz = if r.a16 then 2 else 4 in
    when e.nparam ((Reg.p_addr, r.params + n0 * 3 * 4) ∷ [])
    ++ when (given e.msums) ((Reg.s_addr, e.msums) ∷ [])
    ++ ((
      Reg.a_addr,
      if e.onchip then base + (r.m0 * r.n + n0) else r.acc + r.m0 * ipitch + n0 * esz,
    )
        ∷ (Reg.c_addr, r.out + (n0 * orow + r.m0) * 2)
        ∷ [])
    ++ when e.add ((Reg.x_addr, e.x + (n0 * r.m + r.m0) * 2) ∷ [])
    ++ ((Reg.n_rows, nc) ∷ [])
    ++ when (given e.ostats) ((Reg.s_addr, e.ostats + n0 * (if e.osums then 4 else 1) * 4) ∷ [])

-- The words that a tile's job moves.
unfoldable pub rows_beats : Rows → Bool → ℕ → ℕ
rows_beats r load nc =
    let e = r.epi in
    (if e.dpar then 0 else (if e.nparam then nc else r.mc) * 3)
    + r.mc * nc * (if r.a16 then 2 else 4) / 4
    + r.mc * nc / 2
    + (if load then (if e.lut_int then 256 else 8192) else 0)

-- requant_ok
unfoldable pub rows_ok : ℕ → ℕ → ℕ → ℕ → ℕ → Bool
rows_ok acc n m params out =
    not (ltb n 1 || ltb m 2 || m % 2 == 1) && (aligned acc && aligned params && aligned out)

-- accel_out_stride = x; and accel_in_pitch = x;
unfoldable pub set_out_stride : ℕ → Action (Unit {0})
set_out_stride x = modify (λ d. record d { out_stride = x })

unfoldable pub set_in_pitch : ℕ → Action (Unit {0})
set_in_pitch x = modify (λ d. record d { in_pitch = x })

-- The limits of dav2_accel_requant_rows_async on what the job adds, looks up and derives.
unfoldable pub epi_ok : Driver → ℕ → ℕ → ℕ → ℕ → Epi → Bool
epi_ok d n m m0 mc e =
    not ((e.add || e.relu) && not d.epi_ok)
    && not (given e.lut && (not d.lut_ok || not (aligned e.lut)))
    && not (e.lut_int && (not (given e.lut) || not d.lutint_ok))
    && not (given e.ostats && (not d.ostats_ok || not (aligned e.ostats)))
    && not (e.osums && (not (given e.ostats) || not d.osums_ok))
    && not (e.onchip && (not d.onchip_ok || ltb 131_072 (d.cr_base + n * m)))
    && not (
        e.dpar
        && (not d.rng_ok
            || ltb 2048 (m0 + mc)
            || ltb_ℤ e.dp_shift (pos 1)
            || ltb_ℤ (pos 62) e.dp_shift
            || ltb_ℤ e.dp_r (pos 0)
            || ltb_ℤ (pos 31) e.dp_r
            || (not e.dp_nob && (ltb_ℤ e.dp_k (pos 1) || ltb_ℤ (pos 31) e.dp_k))))
    && not
        (ltb mc 2 || mc % 2 == 1 || ltb m (m0 + mc) || ltb (d.kmax / (if e.add then 4 else 2)) mc)
    && not (
        e.add
        && (not (aligned e.x)
            || ltb_ℤ e.sx (pos 0)
            || ltb_ℤ (pos 63) e.sx
            || ltb_ℤ e.sh (pos 0)
            || ltb_ℤ (pos 63) e.sh
            || ltb_ℤ e.mx (pos 0)
            || ltb_ℤ e.mh (pos 0)))
