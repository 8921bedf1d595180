-- ===== src/Accel/Probe.antt =====
-- What dav2_accel_init of src/sw/project/dav2_accel.c finds in the model of the block.
use risc_v_vi_t_accelerator.Base.{
  ℕ, ◌%◌, ◌^◌, ◌<◌, ◌≡◌, refl, ap, ◌∙◌, Bool, true, false, not, ◌&&◌, ltb, leb, Bool-cases, inl,
  inr, Option, some, if◌then◌else◌, if-true,
}
use mathlib.Core.Path.{ap₂}
use risc_v_vi_t_accelerator.Emulator.{Emu, Job, bit, bits_at}
use risc_v_vi_t_accelerator.Emulator.Step.{init_caps, emu_reg}
use risc_v_vi_t_accelerator.Emulator.Latch.{latch}
use risc_v_vi_t_accelerator.Emulator.Idle.{IsIdle}
use risc_v_vi_t_accelerator.Accel.{
  Driver, Env, Action, pure, after, ◌>>=◌, ◌>>◌, gets, modify, with_emu, touch, read,
}
use risc_v_vi_t_accelerator.Accel.Wait.{set_caps, accel_init}
use risc_v_vi_t_accelerator.Accel.Logic.{Modes, modes}
use risc_v_vi_t_accelerator.Accel.Caps.{
  Features, caps_of, features, rows-caps_of, cols-caps_of, features-caps_of,
}
use risc_v_vi_t_accelerator.Accel.KeptProducts.{quiet}
use risc_v_vi_t_accelerator.Accel.Calls.{IsQuiet}

-- Before the first call: nothing is set, pending or running.
pub record IsFresh (d : Driver) : Type 0 where
  pub is_reset : modes d ≡ record quiet { probed = false }
  pub is_idle : IsIdle d.emu

-- What the driver then knows of a block with these features, rows and columns.
pub record IsFound (f : Features) (rows cols : ℕ) (d : Driver) : Type 0 where
  pub is_usable : d.ok ≡ (ltb 0 rows && leb 4 cols)
  pub sizes : (d.nrows ≡ rows) × (d.kmax ≡ cols)
  pub inputs :
      (d.a16_ok ≡ f.a16) × (d.w16_ok ≡ f.w16) × (d.greuse_ok ≡ f.greuse) × (d.grelu_ok ≡ f.grelu)
  pub results :
      (d.lut_ok ≡ f.lut)
      × (d.ostats_ok ≡ f.ostats)
      × (d.osums_ok ≡ f.osums)
      × (d.onchip_ok ≡ f.onchip)
  pub units : (d.ln_ok ≡ f.ln) × (d.rng_ok ≡ f.rng) × (d.smx_ok ≡ f.smx)

init_caps-same : (e : Emu) → ((init_caps e).job ≡ e.job) × ((init_caps e).regs.ctrl ≡ e.regs.ctrl)
unfolding init_caps
init_caps-same e = elim (Bool-cases e.init) [
  | inl there ↦ rw there (refl, refl)
  | inr fresh ↦ rw fresh (refl, refl)
]

latch-cleared :
    (e : Emu)
    → bit e.regs.ctrl 0 ≡ false
    → latch e ≡ some (record e { regs = record (e.regs) { ctrl = 0 } })
unfolding latch
latch-cleared e none_starts = if-true (not (bit e.regs.ctrl 0)) _ _ (ap not none_starts)

-- What set_caps reads of a word of CAPS.
set_caps-IsFound :
    (f : Features) (rows cols caps : ℕ) (d : Driver)
    → rows < 2 ^ 8
    → cols < 2 ^ 13
    → caps ≡ caps_of f rows cols
    → IsFound f rows cols (set_caps caps d)
unfolding set_caps features
set_caps-IsFound f rows cols caps d hr hc word =
    let same = ap features word ∙ features-caps_of f rows cols hr hc in
    let r = ap (λ c. c % 2 ^ 8) word ∙ rows-caps_of f rows cols hr hc in
    let c = ap (λ c. bits_at c 8 13) word ∙ cols-caps_of f rows cols hr hc in
    record {
      is_usable = ap₂ (λ x y. ltb 0 x && leb 4 y) r c;
      sizes = (r, c);
      inputs = (
        ap (λ (x : Features). x.a16) same,
        ap (λ (x : Features). x.w16) same,
        ap (λ (x : Features). x.greuse) same,
        ap (λ (x : Features). x.grelu) same,
      );
      results = (
        ap (λ (x : Features). x.lut) same,
        ap (λ (x : Features). x.ostats) same,
        ap (λ (x : Features). x.osums) same,
        ap (λ (x : Features). x.onchip) same,
      );
      units = (
        ap (λ (x : Features). x.ln) same,
        ap (λ (x : Features). x.rng) same,
        ap (λ (x : Features). x.smx) same,
      );
    }

module _ (v : Env) where
  -- The state after the access to CAPS.
  found : Driver → Driver
  found d =
      let e = init_caps d.emu in
      set_caps e.regs.caps
        (record d { probed = true; emu = record e { regs = record (e.regs) { ctrl = 0 } } })

  probe : Action (Unit {0})
  probe = modify (λ d. record d { probed = true }) >> read v (λ r. r.caps) >>= λ caps.
      modify (set_caps caps)

  found-IsQuiet : (d : Driver) → IsFresh d → IsQuiet (found d)
  unfolding found set_caps
  found-IsQuiet d fresh = record {
    is_reset = ap (λ (m : Modes). record m { probed = true }) fresh.is_reset;
    is_settled =
        λ ok inactive. (ap (λ (j : Job). j.busy) (init_caps-same d.emu).0 ∙ fresh.is_idle.0, refl);
  }

  -- The first probe of a block with any set of features, fewer than 2^8 rows and fewer than 2^13
  -- columns, whose CAPS (set by the model's first access if nothing has set it) is the word for them:
  -- the driver then knows exactly those features and sizes, says that the block is usable exactly
  -- when it has a row and at least 4 columns, and is as it is to be between calls. Before the probe
  -- no mode is set and no job runs or is about to start.
  pub accel_init-IsFound :
      (f : Features) (rows cols : ℕ) (d : Driver)
      → rows < 2 ^ 8
      → cols < 2 ^ 13
      → (init_caps d.emu).regs.caps ≡ caps_of f rows cols
      → IsFresh d
      → (d1 : Driver) × (accel_init v d ≡ some (d1.ok, d1)) × IsFound f rows cols d1 × IsQuiet d1
  unfolding accel_init read touch gets modify ◌>>=◌ found probe emu_reg
  accel_init-IsFound f rows cols d hr hc caps fresh =
      let e = init_caps d.emu in
      let access = latch-cleared e (ap (λ c. bit c 0) (init_caps-same d.emu).1 ∙ fresh.is_idle.1) in
      (
        found d,
        ap (λ (b : Bool). after (λ _. gets (λ d. d.ok)) ((if b then pure tt else probe) d))
              (ap (λ (m : Modes). m.probed) fresh.is_reset)
            ∙ ap
                (λ (o : Option Emu).
                  after (λ _. gets (λ d. d.ok))
                    (after (λ caps. modify (set_caps caps))
                      (after (λ _. gets (λ d. d.emu.regs.caps))
                        (with_emu (record d { probed = true }) o))))
                access,
        set_caps-IsFound f rows cols e.regs.caps _ hr hc caps,
        found-IsQuiet d fresh,
      )
