-- ===== src/Accel/Image.antt =====
-- What a convolution is given, what it decides before its first job, and the registers of its jobs:
-- dav2_accel_conv of src/sw/project/dav2_accel.c. An image smaller than the kernel and a stride of 0
-- are outside the model.
use risc_v_vi_t_accelerator.Base.{
  ℕ, ◌+◌, ◌-◌, ◌*◌, ◌/◌, ◌%◌, ◌^◌, Bool, not, ◌&&◌, ◌||◌, ◌==◌, ltb, if◌then◌else◌, List, [], ◌∷◌,
  u32,
}
use risc_v_vi_t_accelerator.Emulator.{aligned}
use risc_v_vi_t_accelerator.Accel.{Driver, Action, Reg, modify, flag, ored}

-- The arguments of dav2_accel_conv.
pub record Image : Type 0 where
  pub img : ℕ
  pub h : ℕ
  pub w : ℕ
  pub c : ℕ
  pub k : ℕ
  pub stride : ℕ
  pub pad : ℕ
  pub wt : ℕ
  pub m : ℕ
  pub acc : ℕ

-- oh, ow and N
abbrev pub out_h : Image → ℕ
out_h i = (i.h + 2 * i.pad - i.k) / i.stride + 1

abbrev pub out_w : Image → ℕ
out_w i = (i.w + 2 * i.pad - i.k) / i.stride + 1

abbrev pub pixels : Image → ℕ
pixels i = out_h i * out_w i

-- The kernel positions in one job.
unfoldable pub positions : ℕ → Image → ℕ
positions kmax i =
    let pc = kmax / i.c in
    let pc = if ltb (i.k * i.k) pc then i.k * i.k else pc in if ltb 255 pc then 255 else pc

-- The register widths, the tile contract and the alignment.
unfoldable pub image_ok : Image → Bool
image_ok i =
    not (
      not (aligned i.c)
      || ltb i.c 4
      || ltb i.k 1
      || ltb 15 i.k
      || ltb i.stride 1
      || ltb 15 i.stride
      || ltb 15 i.pad)
    && not (ltb 65535 i.h || ltb 65535 i.w || ltb 65535 (out_w i) || ltb i.m 1)
    && (aligned i.img && aligned i.wt && aligned i.acc)

-- What one convolution decides before its first job.
pub record Plan : Type 0 where
  pub image : Image
  pub pc_max : ℕ
  pub single : Bool
  pub onchip : Bool
  pub ctrl : ℕ
  pub stats : ℕ
  pub part : ℕ

unfoldable pub make_plan : Driver → Image → Plan
make_plan d i =
    let pc_max = positions d.kmax i in
    let single = pc_max == i.k * i.k in
    record {
      image = i;
      pc_max = pc_max;
      single = single;
      onchip = d.conv_onchip;
      ctrl = ored (
          5
          ∷ flag d.conv_onchip 0x400
          ∷ flag d.conv_relu 0x2000
          ∷ flag (d.greuse_ok && (i.stride == 1) && single) 0x800
          ∷ []);
      stats = 0;
      part = 0;
    }

-- The result RAM takes one chunk, with the statistics as the only way back; ReLU on the image needs
-- its capability.
unfoldable pub mode_ok : Driver → Plan → Bool → Bool
mode_ok d p wanted =
    not (
      p.onchip
      && (not p.single
          || not wanted
          || not d.onchip_ok
          || ltb 131_072 (pixels p.image * p.image.m)))
    && not (d.conv_relu && not d.grelu_ok)

-- The registers that every tile shares.
unfoldable pub image_regs : Plan → List (Reg × ℕ)
image_regs p =
    let i = p.image in
    (Reg.g_addr, i.img)
    ∷ (Reg.g_geom, u32 i.h * 2 ^ 16 + i.w)
    ∷ (Reg.g_chan, u32 (out_w i) * 2 ^ 16 + i.c)
    ∷ (Reg.w_stride, i.k * i.k * i.c)
    ∷ (Reg.a_stride, 0)
    ∷ (Reg.c_stride, if p.onchip then pixels i else u32 (pixels i) * 4)
    ∷ (Reg.m_len, i.m)
    ∷ []

-- Those of a chunk of pc positions from p0 on.
unfoldable pub chunk_regs : Plan → ℕ → ℕ → List (Reg × ℕ)
chunk_regs p p0 pc =
    let i = p.image in
    (
      Reg.g_conv,
      ored (
          i.k
          ∷ i.stride * 2 ^ 4
          ∷ i.pad * 2 ^ 8
          ∷ p0 / i.k * 2 ^ 12
          ∷ p0 % i.k * 2 ^ 16
          ∷ pc * 2 ^ 20
          ∷ []),
    )
    ∷ (Reg.w_addr, i.wt + p0 * i.c)
    ∷ (Reg.k_len, pc * i.c)
    ∷ []

-- The last image row that the output pixels up to n0 + nt read, and the pixels up to its end.
unfoldable pub pixels_read : Image → ℕ → ℕ
pixels_read i last =
    let bottom = last / out_w i * i.stride + i.k - 1 in
    let iy = if ltb (i.h + i.pad) (bottom + 1) then i.h - 1 else bottom - i.pad in
    if ltb bottom i.pad then 0 else (iy + 1) * i.w

unfoldable pub tile_regs : Plan → ℕ → ℕ → ℕ → ℕ → List (Reg × ℕ)
tile_regs p dst t n0 nt =
    let i = p.image in
    (Reg.g_start, n0 / out_w i * 2 ^ 16 + n0 % out_w i)
    ∷ (Reg.c_addr, if p.onchip then n0 else dst + n0 * 4)
    ∷ (Reg.n_rows, nt)
    ∷ (Reg.s_addr, if p.stats == 0 then 0 else p.stats + t * i.m * 2 * 4)
    ∷ []

unfoldable pub conv_beats : Plan → ℕ → ℕ → ℕ
conv_beats p pc nt =
    let i = p.image in
    i.m * (pc * i.c / 4) + nt * (pc * i.c / 2) + (if p.onchip then 0 else nt * i.m)

-- accel_conv_relu = on; and accel_conv_onchip = on;
unfoldable pub set_conv_relu : Bool → Action (Unit {0})
set_conv_relu on = modify (λ d. record d { conv_relu = on })

unfoldable pub set_conv_onchip : Bool → Action (Unit {0})
set_conv_onchip on = modify (λ d. record d { conv_onchip = on })
