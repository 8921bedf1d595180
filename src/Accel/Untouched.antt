-- ===== src/Accel/Untouched.antt =====
-- Operations that leave a disabled block as it is.
use risc_v_vi_t_accelerator.Base.{
  ℕ, ◌≡◌, refl, ap, ◌∙◌, arith, Bool, true, false, ◌&&◌, some, if◌then◌else◌, some-injective,
  if-both,
}
use mathlib.Core.Path.{subst}
use risc_v_vi_t_accelerator.Accel.{Driver, Action, pure, ◌>>=◌, gets, modify}
use risc_v_vi_t_accelerator.Accel.Wait.{rng_begin, rng_end}
use risc_v_vi_t_accelerator.Accel.Run.{set_defer}
use risc_v_vi_t_accelerator.Accel.Rows.{set_out_stride}
use risc_v_vi_t_accelerator.Accel.Special.{set_ln_a_jobs}
use risc_v_vi_t_accelerator.Accel.Image.{set_conv_relu}
use risc_v_vi_t_accelerator.Accel.Logic.{after-some}

-- The block has been probed, and disabled since; no job is pending and no range is to be read.
pub record IsDisabled (d : Driver) : Type 0 where
  pub probed : d.probed ≡ true
  pub off : d.ok ≡ false
  pub collected : d.pend.active ≡ false
  pub no_range : d.rng_valid ≡ false

-- What is asked of an operation: it leaves the block as it is, and disabled.
pub record Leaves {ℓ} {A : Type ℓ} (act : Action A) : Type ℓ where
  pub runs :
      (d : Driver) (a : A) (d' : Driver)
      → act d ≡ some (a, d')
      → IsDisabled d
      → IsDisabled d' × (d'.emu ≡ d.emu)

module _ {ℓ} {A : Type ℓ} where
  pub Leaves-bind {κ} :
      {B : Type κ} {act : Action A} {f : A → Action B}
      → Leaves act
      → ((a : A) → Leaves (f a))
      → Leaves (act >>= f)
  unfolding ◌>>=◌
  Leaves-bind {act = act} {f = f} p q = record {
    runs = λ d b d2 run off.
        let (a, d1, first, rest) = after-some f (act d) (b, d2) run in
        let (off1, same) = p.runs d a d1 first off in
        let (off2, same2) = (q a).runs d1 b d2 rest off1 in (off2, same2 ∙ same);
  }

  pub Leaves-gets {κ} :
      {B : Type κ} {f : Driver → A} (k : A → Action B)
      → ((d : Driver) → IsDisabled d → Leaves (k (f d)))
      → Leaves (gets f >>= k)
  unfolding ◌>>=◌ gets
  Leaves-gets k q = record { runs = λ d b d2 run off. (q d off).runs d b d2 run off }

  pub Leaves-pure : {a : A} → Leaves (pure a)
  Leaves-pure = record {
    runs = λ d b d' run off.
        let same : d ≡ d' = ap (λ (o : A × Driver). o.1) (some-injective _ _ run) in
        subst (λ (x : Driver). IsDisabled x × (x.emu ≡ d.emu)) same (off, refl);
  }

  pub Leaves-if : (c : Bool) {x y : Action A} → Leaves x → Leaves y → Leaves (if c then x else y)
  Leaves-if c p q = if-both Leaves c p q

  pub Leaves-when : (c : Bool) (x y : Action A) → c ≡ true → Leaves x → Leaves (if c then x else y)
  Leaves-when true x y h p = p
  Leaves-when false x y h p = absurd (grind arith)

pub Leaves-modify :
    (f : Driver → Driver)
    → ((d : Driver) → IsDisabled d → IsDisabled (f d))
    → ((d : Driver) → (f d).emu ≡ d.emu)
    → Leaves (modify f)
unfolding modify
Leaves-modify f keeps same_emu = record {
  runs = λ d b d' run off.
      let same : f d ≡ d' = ap (λ (o : Unit × Driver). o.1) (some-injective _ _ run) in
      subst (λ (x : Driver). IsDisabled x × (x.emu ≡ d.emu)) same (keeps d off, same_emu d);
}

-- The same facts, of a driver with other variables changed.
abbrev pub as_before :
    (d d' : Driver)
    → IsDisabled d
    → d'.probed ≡ d.probed
    → d'.ok ≡ d.ok
    → d'.pend.active ≡ d.pend.active
    → d'.rng_valid ≡ false
    → IsDisabled d'
as_before d d' i p o a r = record {
  probed = p ∙ i.probed;
  off = o ∙ i.off;
  collected = a ∙ i.collected;
  no_range = r;
}

pub set_defer-Leaves : (b : Bool) → Leaves (set_defer b)
unfolding set_defer
set_defer-Leaves b = Leaves-modify _ (λ d i. as_before d _ i refl refl refl i.no_range) (λ d. refl)

pub set_out_stride-Leaves : (x : ℕ) → Leaves (set_out_stride x)
unfolding set_out_stride
set_out_stride-Leaves x =
    Leaves-modify _ (λ d i. as_before d _ i refl refl refl i.no_range) (λ d. refl)

pub set_conv_relu-Leaves : (b : Bool) → Leaves (set_conv_relu b)
unfolding set_conv_relu
set_conv_relu-Leaves b =
    Leaves-modify _ (λ d i. as_before d _ i refl refl refl i.no_range) (λ d. refl)

pub set_ln_a_jobs-Leaves : (x : ℕ) → Leaves (set_ln_a_jobs x)
unfolding set_ln_a_jobs
set_ln_a_jobs-Leaves x =
    Leaves-modify _ (λ d i. as_before d _ i refl refl refl i.no_range) (λ d. refl)

pub rng_begin-Leaves : (n : ℕ) → Leaves (rng_begin n)
unfolding rng_begin
rng_begin-Leaves n = Leaves-modify _ (λ d i. as_before d _ i refl refl refl refl) (λ d. refl)

-- An operation that failed has no range.
pub rng_end-Leaves : Leaves (rng_end 0)
unfolding rng_end
rng_end-Leaves =
    Leaves-modify _ (λ d i. as_before d _ i refl refl refl (and-false d.rng_on)) (λ d. refl)
  where
    and-false : (b : Bool) → (b && false) ≡ false
    and-false true = refl
    and-false false = refl
