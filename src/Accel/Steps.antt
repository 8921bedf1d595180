-- ===== src/Accel/Steps.antt =====
-- What the primitives of the driver do to its modes, and to the promise on the outstanding job.
use risc_v_vi_t_accelerator.Base.{
  inr, ℕ, ◌≡◌, refl, ap, ◌∙◌, arith, false, Option, none, some, List, [], ◌∷◌, some-injective, ℤ,
}
use mathlib.Core.Path.{subst}
use risc_v_vi_t_accelerator.Emulator.{Emu, Regs, bit}
use risc_v_vi_t_accelerator.Emulator.Step.{Access, emu_reg}
use risc_v_vi_t_accelerator.Emulator.Idle.{IsIdle, emu_reg-IsIdle, emu_reg-status}
use risc_v_vi_t_accelerator.Accel.{
  Driver, Env, Reg, ◌>>=◌, gets, set_reg, with_emu, touch, write, write_all, write_ctrl, read,
  read_status, read_clock, load_int, store_int, alloc, mark, release,
}
use risc_v_vi_t_accelerator.Accel.Logic.{
  Modes, modes, At, IsSettled, Aim, Reaches, Goes, Goes-bind, Goes-read, Goes-pure, Goes-modify,
  Goes-assign, after-some,
}

-- The register file's other fields do not matter to what runs.
set_reg-ctrl : (r : Reg) (x : ℕ) (rs : Regs) → (set_reg r x rs).ctrl ≡ rs.ctrl
unfolding set_reg
set_reg-ctrl r x rs = elim r as (λ k. (set_reg k x rs).ctrl ≡ rs.ctrl) [
  | Reg.a_addr ↦ refl
  | _ ↦ refl
]

with_emu-some :
    (d : Driver) (o : Option Emu) (r : Unit × Driver)
    → with_emu d o ≡ some r
    → (e : Emu) × (o ≡ some e) × (record d { emu = e } ≡ r.1)
with_emu-some d none r h = absurd (grind arith)
with_emu-some d (some e) r h = (e, refl, ap (λ (o : Unit × Driver). o.1) (some-injective _ _ h))

module _ (v : Env) {m : Modes} where
  pub touch-Goes : (a : Access) → Goes Aim.keeping m m (touch v a)
  unfolding touch Reaches IsSettled
  touch-Goes a = record {
    runs = λ d u d' run at_m.
        let (e, access, same) = with_emu-some d (emu_reg v.fail_at a d.emu) (u, d') run in
        subst (λ (x : Driver). At m (modes x) × (IsSettled d → IsSettled x)) same
          (at_m, λ s ok quiet. emu_reg-IsIdle v.fail_at a d.emu e (s ok quiet) access);
  }

  pub write-Goes : (r : Reg) (x : ℕ) → Goes Aim.keeping m m (write v r x)
  unfolding write IsSettled
  write-Goes r x = Goes-bind (touch-Goes Access.other_reg) (λ _.
      Goes-modify (λ m. m) _ (refl, inr refl) (λ d. refl)
        (λ d s ok quiet.
          let (idle, none_starts) = s ok quiet in
          (idle, ap (λ c. bit c 0) (set_reg-ctrl r _ d.emu.regs) ∙ none_starts)))

  pub write_all-Goes : (ws : List (Reg × ℕ)) → Goes Aim.keeping m m (write_all v ws)
  unfolding write_all
  write_all-Goes [] = Goes-pure
  write_all-Goes ((r, x) ∷ rest) = Goes-bind (write-Goes r x) (λ _. write_all-Goes rest)

  pub write_ctrl-Goes : (c : ℕ) → Goes Aim.starting m m (write_ctrl v c)
  unfolding write_ctrl
  write_ctrl-Goes c = Goes-bind (touch-Goes Access.other_reg) (λ _. Goes-assign _ (λ d. refl))

  pub read-Goes : (f : Regs → ℕ) → Goes Aim.keeping m m (read v f)
  unfolding read
  read-Goes f = Goes-bind (touch-Goes Access.other_reg) (λ _. Goes-read _)

  pub read_status-Goes : Goes Aim.keeping m m (read_status v)
  unfolding read_status
  read_status-Goes = Goes-bind (touch-Goes Access.status_reg) (λ _. Goes-read _)

  pub read_clock-Goes : Goes Aim.keeping m m (read_clock v)
  unfolding read_clock Reaches IsSettled
  read_clock-Goes = record {
    runs = λ d u d' run at_m.
        let same = ap (λ (o : ℕ × Driver). o.1) (some-injective _ _ run) in
        subst (λ (x : Driver). At m (modes x) × (IsSettled d → IsSettled x)) same (at_m, λ s. s);
  }

module _ {m : Modes} where
  pub load_int-Goes : (p : ℕ) → Goes Aim.keeping m m (load_int p)
  unfolding load_int
  load_int-Goes p = Goes-read _

  pub store_int-Goes : (p : ℕ) (x : ℤ) → Goes Aim.keeping m m (store_int p x)
  unfolding store_int IsSettled
  store_int-Goes p x = Goes-modify (λ m. m) _ (refl, inr refl) (λ d. refl) (λ d s. s)

  pub mark-Goes : Goes Aim.keeping m m mark
  unfolding mark
  mark-Goes = Goes-read _

  pub release-Goes : (n : ℕ) → Goes Aim.keeping m m (release n)
  unfolding release IsSettled
  release-Goes n = Goes-modify (λ m. m) _ (refl, inr refl) (λ d. refl) (λ d s. s)

  pub alloc-Goes : (n : ℕ) → Goes Aim.keeping m m (alloc n)
  unfolding alloc Reaches IsSettled
  alloc-Goes n = record {
    runs = λ d u d' run at_m.
        let same = ap (λ (o : Option ℕ × Driver). o.1) (some-injective _ _ run) in
        subst (λ (x : Driver). At m (modes x) × (IsSettled d → IsSettled x)) same (at_m, λ s. s);
  }

module _ (v : Env) where
  -- When STATUS reads as not busy the driver is settled, whatever ran.
  pub read_status-settles :
      (d : Driver) (s : ℕ) (d' : Driver)
      → read_status v d ≡ some (s, d')
      → bit s 0 ≡ false
      → IsSettled d'
  unfolding read_status touch ◌>>=◌ gets IsSettled
  read_status-settles d s d' run quiet =
      let (u, d1, access, last) = after-some _ (touch v Access.status_reg d) (s, d') run in
      let (e, there, same) =
        with_emu-some d (emu_reg v.fail_at Access.status_reg d.emu) (u, d1) access in
      let value = ap (λ (o : ℕ × Driver). o.0) (some-injective _ _ last) in
      let state = ap (λ (o : ℕ × Driver). o.1) (some-injective _ _ last) in
      let emus : e ≡ d'.emu = ap (λ (x : Driver). x.emu) (same ∙ state) in
      let status : e.regs.status ≡ s = ap (λ (x : Driver). x.emu.regs.status) same ∙ value in
      λ ok inactive.
        subst IsIdle emus
          (emu_reg-status v.fail_at d.emu e there (ap (λ c. bit c 0) status ∙ quiet))
