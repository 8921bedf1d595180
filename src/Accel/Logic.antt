-- ===== src/Accel/Logic.antt =====
-- What an operation of the driver may do to the modes that calls set for one another, and to the
-- promise that at most one job is outstanding.
use risc_v_vi_t_accelerator.Base.{
  ℕ, ◌≡◌, ◌⊎◌, inl, inr, arith, refl, sym, ap, ◌∙◌, Bool, true, false, Option, none, some,
  if◌then◌else◌, if-both, some-injective,
}
use mathlib.Core.Path.{subst}
use risc_v_vi_t_accelerator.Emulator.Idle.{IsIdle}
use risc_v_vi_t_accelerator.Accel.{Driver, Action, pure, fault, after, ◌>>=◌, gets, modify, null_or}

-- The static variables that an operation sets for the functions it calls, and whether the block has
-- been probed.
pub record Modes : Type 0 where
  pub probed : Bool
  pub defer : Bool
  pub gemm_ctrl : ℕ
  pub gemm_wsh : ℕ
  pub cr_base : ℕ
  pub rq_onchip : Bool
  pub rq_msums : ℕ
  pub out_stride : ℕ
  pub in_pitch : ℕ
  pub conv_relu : Bool
  pub conv_onchip : Bool

abbrev pub modes : Driver → Modes
modes d = record {
  probed = d.probed;
  defer = d.defer;
  gemm_ctrl = d.gemm_ctrl;
  gemm_wsh = d.gemm_wsh;
  cr_base = d.cr_base;
  rq_onchip = d.rq_onchip;
  rq_msums = d.rq_msums;
  out_stride = d.out_stride;
  in_pitch = d.in_pitch;
  conv_relu = d.conv_relu;
  conv_onchip = d.conv_onchip;
}

-- A producer may clear accel_defer: dav2_accel_lerp_async does, after the job that it starts.
abbrev pub drop : Modes → Modes
drop m = record m { defer = false }

-- The block has been probed, and the modes are m but that accel_defer may have been cleared.
abbrev pub At : Modes → Modes → Type 0
At m x = (m.probed ≡ true) × ((x ≡ m) ⊎ (x ≡ drop m))

pub At-lower : (m x : Modes) → At (drop m) x → At m x
At-lower m x (probed, inl e) = (probed, inr e)
At-lower m x (probed, inr e) = (probed, inr e)

pub At-probed : (m x : Modes) → At m x → x.probed ≡ true
At-probed m x (probed, inl e) = ap (λ (y : Modes). y.probed) e ∙ probed
At-probed m x (probed, inr e) = ap (λ (y : Modes). y.probed) e ∙ probed

-- A change of the modes that either sets accel_defer or leaves it alone.
abbrev pub Commutes : (Modes → Modes) → Modes → Type 0
Commutes c m = ((c m).probed ≡ m.probed) × ((c (drop m) ≡ c m) ⊎ (c (drop m) ≡ drop (c m)))

pub At-change : (c : Modes → Modes) (m x : Modes) → Commutes c m → At m x → At (c m) (c x)
At-change c m x (same, k) (probed, inl e) = (same ∙ probed, inl (ap c e))
At-change c m x (same, inl k) (probed, inr e) = (same ∙ probed, inl (ap c e ∙ k))
At-change c m x (same, inr k) (probed, inr e) = (same ∙ probed, inr (ap c e ∙ k))

-- While the block is in use, a job that runs is the pending one.
unfoldable pub IsSettled : Driver → Type 0
IsSettled d = d.ok ≡ true → d.pend.active ≡ false → IsIdle d.emu

-- What is claimed of the state an operation leaves: `keeping` that it is settled if it was
-- before, `settling` that it is settled in any case, `starting` nothing.
pub data Aim : Type 0 where
  keeping settling starting : Aim

unfoldable pub Reaches : Aim → Driver → Driver → Type 0
Reaches Aim.keeping d d' = IsSettled d → IsSettled d'
Reaches Aim.settling d d' = IsSettled d'
Reaches Aim.starting d d' = Unit

-- Whenever the operation returns, it has taken the modes from m to m' and reached its aim.
pub record Goes {ℓ} {A : Type ℓ} (g : Aim) (m m' : Modes) (act : Action A) : Type ℓ where
  pub runs :
      (d : Driver) (a : A) (d' : Driver)
      → act d ≡ some (a, d')
      → At m (modes d)
      → At m' (modes d') × Reaches g d d'

-- The aim of two operations one after the other.
abbrev pub then_aim : Aim → Aim → Aim
then_aim Aim.keeping h = h
then_aim Aim.settling Aim.keeping = Aim.settling
then_aim Aim.settling Aim.settling = Aim.settling
then_aim Aim.settling Aim.starting = Aim.starting
then_aim Aim.starting Aim.keeping = Aim.starting
then_aim Aim.starting Aim.settling = Aim.settling
then_aim Aim.starting Aim.starting = Aim.starting

Reaches-then :
    (g h : Aim) (d d1 d2 : Driver) → Reaches g d d1 → Reaches h d1 d2 → Reaches (then_aim g h) d d2
unfolding Reaches
Reaches-then Aim.keeping Aim.keeping d d1 d2 p q = λ s. q (p s)
Reaches-then Aim.keeping Aim.settling d d1 d2 p q = q
Reaches-then Aim.keeping Aim.starting d d1 d2 p q = tt
Reaches-then Aim.settling Aim.keeping d d1 d2 p q = q p
Reaches-then Aim.settling Aim.settling d d1 d2 p q = q
Reaches-then Aim.settling Aim.starting d d1 d2 p q = tt
Reaches-then Aim.starting Aim.keeping d d1 d2 p q = tt
Reaches-then Aim.starting Aim.settling d d1 d2 p q = q
Reaches-then Aim.starting Aim.starting d d1 d2 p q = tt

pub after-some {ℓ κ} :
    {A : Type ℓ} {B : Type κ} (f : A → Action B) (o : Option (A × Driver)) (r : B × Driver)
    → after f o ≡ some r
    → (a : A) × (d : Driver) × (o ≡ some (a, d)) × (f a d ≡ some r)
after-some f none r h = absurd (grind arith)
after-some f (some (a, d)) r h = (a, d, refl, h)

module _ {ℓ} {A : Type ℓ} where
  -- One operation after another.
  pub Goes-bind {κ} :
      {B : Type κ} {m m1 m2 : Modes} {g h : Aim} {act : Action A} {f : A → Action B}
      → Goes g m m1 act
      → ((a : A) → Goes h m1 m2 (f a))
      → Goes (then_aim g h) m m2 (act >>= f)
  unfolding ◌>>=◌
  Goes-bind {g = g} {h = h} {act = act} {f = f} p q = record {
    runs = λ d b d2 run at_m.
        let (a, d1, first, rest) = after-some f (act d) (b, d2) run in
        let (at_m1, r1) = p.runs d a d1 first at_m in
        let (at_m2, r2) = (q a).runs d1 b d2 rest at_m1 in (at_m2, Reaches-then g h d d1 d2 r1 r2);
  }

  -- A reading of the state, whose value may be used with what is known of the modes.
  pub Goes-gets {κ} :
      {B : Type κ} {m m1 : Modes} {g : Aim} {f : Driver → A} (k : A → Action B)
      → ((d : Driver) → At m (modes d) → Goes g m m1 (k (f d)))
      → Goes g m m1 (gets f >>= k)
  unfolding ◌>>=◌ gets
  Goes-gets k q = record { runs = λ d b d2 run at_m. (q d at_m).runs d b d2 run at_m }

  pub Goes-read : {m : Modes} (f : Driver → A) → Goes Aim.keeping m m (gets f)
  unfolding gets Reaches
  Goes-read {m = m} f = record {
    runs = λ d b d' run at_m.
        let same : d ≡ d' = ap (λ (o : A × Driver). o.1) (some-injective _ _ run) in
        (
          subst (λ (x : Driver). At m (modes x)) same at_m,
          subst (λ (x : Driver). IsSettled d → IsSettled x) same (λ s. s),
        );
  }

  pub Goes-pure : {m : Modes} {a : A} → Goes Aim.keeping m m (pure a)
  unfolding Reaches
  Goes-pure {m = m} {a = a} = record {
    runs = λ d b d' run at_m.
        let same : d ≡ d' = ap (λ (o : A × Driver). o.1) (some-injective _ _ run) in
        (
          subst (λ (x : Driver). At m (modes x)) same at_m,
          subst (λ (x : Driver). IsSettled d → IsSettled x) same (λ s. s),
        );
  }

  pub Goes-if :
      {g : Aim} {m m1 : Modes} (c : Bool) {x y : Action A}
      → Goes g m m1 x
      → Goes g m m1 y
      → Goes g m m1 (if c then x else y)
  Goes-if {g = g} {m = m} {m1 = m1} c p q = if-both (Goes g m m1) c p q

  pub Goes-when :
      {g : Aim} {m m1 : Modes} (c : Bool) (x y : Action A)
      → c ≡ true
      → Goes g m m1 x
      → Goes g m m1 (if c then x else y)
  Goes-when true x y h p = p
  Goes-when false x y h p = absurd (grind arith)

  pub Goes-null :
      {g : Aim} {m m1 : Modes} (o : Option ℕ) {x : Action A} {k : ℕ → Action A}
      → Goes g m m1 x
      → ((q : ℕ) → Goes g m m1 (k q))
      → Goes g m m1 (null_or o x k)
  unfolding null_or
  Goes-null none p q = p
  Goes-null (some a) p q = q a

  -- An operation that settles also keeps, and one that keeps may stand where a start may.
  pub settling-keeping :
      {m m1 : Modes} {act : Action A} → Goes Aim.settling m m1 act → Goes Aim.keeping m m1 act
  unfolding Reaches
  settling-keeping p = record {
    runs = λ d a d' run at_m. let (at_m1, s) = p.runs d a d' run at_m in (at_m1, λ _. s);
  }

  pub keeping-starting :
      {m m1 : Modes} {act : Action A} → Goes Aim.keeping m m1 act → Goes Aim.starting m m1 act
  unfolding Reaches
  keeping-starting p = record { runs = λ d a d' run at_m. ((p.runs d a d' run at_m).0, tt) }

  pub Goes-fault : {g : Aim} {m m1 : Modes} → Goes g m m1 (fault {A = A})
  unfolding fault
  Goes-fault = record { runs = λ d a d' run. absurd (grind arith) }

-- Where accel_defer may be set it may also be cleared.
pub Goes-lower :
    {g : Aim} {m m1 : Modes} {A : Type 0} {act : Action A}
    → Goes g m (drop m1) act
    → Goes g m m1 act
Goes-lower {m1 = m1} p = record {
  runs = λ d a d' run at_m.
      let (at_m1, r) = p.runs d a d' run at_m in (At-lower m1 (modes d') at_m1, r);
}

-- An assignment that changes the modes by c, and neither accel_ok, the pending job nor the block.
pub Goes-modify :
    {m : Modes} (c : Modes → Modes) (f : Driver → Driver)
    → Commutes c m
    → ((d : Driver) → modes (f d) ≡ c (modes d))
    → ((d : Driver) → IsSettled d → IsSettled (f d))
    → Goes Aim.keeping m (c m) (modify f)
unfolding Reaches modify
Goes-modify {m = m} c f commutes changes settled = record {
  runs = λ d a d' run at_m.
      let same : f d ≡ d' = ap (λ (o : Unit × Driver). o.1) (some-injective _ _ run) in
      (
        subst (λ (x : Driver). At (c m) (modes x)) same
            (subst (At (c m)) (sym (changes d)) (At-change c m (modes d) commutes at_m)),
        subst (λ (x : Driver). IsSettled d → IsSettled x) same (settled d),
      );
}

-- Any other assignment, where nothing is claimed.
pub Goes-assign :
    {m : Modes} (f : Driver → Driver)
    → ((d : Driver) → modes (f d) ≡ modes d)
    → Goes Aim.starting m m (modify f)
unfolding Reaches modify
Goes-assign {m = m} f same_modes = record {
  runs = λ d a d' run at_m.
      let same : f d ≡ d' = ap (λ (o : Unit × Driver). o.1) (some-injective _ _ run) in
      (subst (λ (x : Driver). At m (modes x)) same (subst (At m) (sym (same_modes d)) at_m), tt);
}
