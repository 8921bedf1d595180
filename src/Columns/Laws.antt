-- ===== src/Columns/Laws.antt =====
-- Requantising keeps the order of the accumulators, so that a column's extremes are those of its
-- accumulators, requantised.
use risc_v_vi_t_accelerator.Base.{
  lt→ltb, ◌≢◌, ap, ℕ, zero, suc, ◌+◌, ◌-◌, ◌*◌, ◌/◌, ◌^◌, ◌≤◌, ◌<◌, ◌≡◌, refl, ◌∙◌, arith, some, ℤ,
  pos, negsuc, pos_part, neg_part, ◌+ℤ◌, ◌*ℤ◌, ◌/ℤ◌, ◌≤ℤ◌, InInt32, i32_id, mod_ℤ, i16, +ℤ_parts,
  *ℤ_pos, for_range, for_range_inv, pow_pos,
}
use mathlib.Core.Path.{subst}
use native.Mathlib.Decide.{dec_le}
use native.Mathlib.Nat.{
  div-add-mod, mod-lt, lt_of_mul-lt-mul_left, mul-le-mul_right, le_of_suc-le-suc,
}
use risc_v_vi_t_accelerator.Gemm.{Ints, update}
use risc_v_vi_t_accelerator.Emulator.Round.{apply_mult}
use risc_v_vi_t_accelerator.Fixed.{apply_multiplier, sat_act}
use risc_v_vi_t_accelerator.Fixed.Multiplier.{apply_multiplier-apply_mult}
use risc_v_vi_t_accelerator.Columns.{channel, colext_step, qgemm_colext}

div_mono : (n m d : ℕ) → 0 < d → n ≤ m → n / d ≤ m / d
div_mono n m d lo h = le_of_suc-le-suc (lt_of_mul-lt-mul_left d scaled)
  where
    scaled : d * (n / d) < d * suc (m / d)
    scaled = omega (arith, div-add-mod n d, div-add-mod m d, mod-lt m lo)

*ℤ_mono : (a b : ℤ) (e : ℕ) → a ≤ℤ b → a *ℤ pos e ≤ℤ b *ℤ pos e
*ℤ_mono a b e h = omega (arith, *ℤ_pos a e, *ℤ_pos b e, grown)
  where
    grown : (pos_part a + neg_part b) * e ≤ (pos_part b + neg_part a) * e
    grown = mul-le-mul_right e h

/ℤ_mono : (a b : ℤ) (d : ℕ) → 0 < d → a ≤ℤ b → a /ℤ d ≤ℤ b /ℤ d
unfolding ◌/ℤ◌
/ℤ_mono (pos n) (pos m) d lo h = omega (arith, div_mono n m d lo (omega arith))
/ℤ_mono (pos n) (negsuc m) d lo h = absurd (omega arith)
/ℤ_mono (negsuc n) (pos m) d lo h = omega arith
/ℤ_mono (negsuc n) (negsuc m) d lo h = omega (arith, div_mono m n d lo (omega arith))

sat_act_mono : (a b : ℤ) → a ≤ℤ b → sat_act a ≤ℤ sat_act b
unfolding sat_act i16 mod_ℤ
sat_act_mono (pos n) (pos m) h = ground arith
sat_act_mono (pos n) (negsuc m) h = ground arith
sat_act_mono (negsuc n) (pos m) h = ground arith
sat_act_mono (negsuc n) (negsuc m) h = ground arith

+ℤ_mono : (a b c : ℤ) → a ≤ℤ b → a +ℤ c ≤ℤ b +ℤ c
+ℤ_mono a b c h = omega (arith, +ℤ_parts a c, +ℤ_parts b c)

apply_mult_mono : (a b : ℤ) (e s : ℕ) → a ≤ℤ b → apply_mult a (pos e) s ≤ℤ apply_mult b (pos e) s
unfolding apply_mult
apply_mult_mono a b e zero h = /ℤ_mono (a *ℤ pos e) (b *ℤ pos e) 1 (omega arith) (*ℤ_mono a b e h)
apply_mult_mono a b e (suc s) h = rw (lt→ltb 0 (suc s) (omega arith)) (
    /ℤ_mono (a *ℤ pos e +ℤ pos (2 ^ (suc s - 1))) (b *ℤ pos e +ℤ pos (2 ^ (suc s - 1))) (2 ^ suc s)
      (pow_pos (suc s))
      (+ℤ_mono (a *ℤ pos e) (b *ℤ pos e) (pos (2 ^ (suc s - 1))) (*ℤ_mono a b e h)))

between : (a x b : ℤ) → a ≤ℤ x → x ≤ℤ b → InInt32 a → InInt32 b → InInt32 x
between a x b lo hi ha hb = ground arith

-- A channel's parameters as the program makes them: a multiplier ≥ 0 and a shift of at most 62, for
-- which the scaled extremes lo and hi fit.
pub record IsScaled (par : Ints) (m : ℕ) (lo hi : ℤ) : Type 0 where
  pub mult : ℕ
  pub mult_eq : par (3 * m) ≡ pos mult
  pub mult_fits : mult < 2 ^ 31
  pub shift : pos_part (par (3 * m + 1)) ≤ 62
  pub lo_fits : InInt32 lo × InInt32 (apply_mult lo (pos mult) (pos_part (par (3 * m + 1))))
  pub hi_fits : InInt32 hi × InInt32 (apply_mult hi (pos mult) (pos_part (par (3 * m + 1))))

multiplier_value :
    (a : ℤ) (e s : ℕ)
    → InInt32 a
    → e < 2 ^ 31
    → s ≤ 62
    → InInt32 (apply_mult a (pos e) s)
    → apply_multiplier a (pos e) s ≡ apply_mult a (pos e) s
multiplier_value a e s ha he hs h =
    apply_multiplier-apply_mult a (pos e) s ha (he, omega arith) hs ∙ i32_id _ h

-- lo and hi are the least and the greatest of the n values of f.
pub record IsExtremes (n : ℕ) (f : Ints) (lo hi : ℤ) : Type 0 where
  pub bounds : (i : ℕ) → i < n → (lo ≤ℤ f i) × (f i ≤ℤ hi)
  pub least : (i : ℕ) × (i < n) × (f i ≡ lo)
  pub greatest : (i : ℕ) × (i < n) × (f i ≡ hi)

module _ (par : Ints) (m : ℕ) (lo hi : ℤ) (ok : IsScaled par m lo hi) where
  channel-apply_mult :
      (x : ℤ)
      → lo ≤ℤ x
      → x ≤ℤ hi
      → channel par m x
        ≡ sat_act (apply_mult x (pos ok.mult) (pos_part (par (3 * m + 1))) +ℤ par (3 * m + 2))
  unfolding channel
  channel-apply_mult x above below =
      ap (λ v. sat_act (v +ℤ par (3 * m + 2)))
        (ap (λ e. apply_multiplier x e s) ok.mult_eq
          ∙ multiplier_value x ok.mult s (between lo x hi above below ok.lo_fits.0 ok.hi_fits.0)
              ok.mult_fits ok.shift
              (between (apply_mult lo (pos ok.mult) s) _ (apply_mult hi (pos ok.mult) s)
                (apply_mult_mono lo x ok.mult s above) (apply_mult_mono x hi ok.mult s below)
                ok.lo_fits.1 ok.hi_fits.1))
    where
      s : ℕ
      s = pos_part (par (3 * m + 1))

  channel_mono : (x y : ℤ) → lo ≤ℤ x → x ≤ℤ y → y ≤ℤ hi → channel par m x ≤ℤ channel par m y
  channel_mono x y above h below =
      rw (channel-apply_mult x above (omega arith), channel-apply_mult y (omega arith) below)
        (sat_act_mono _ _ (
          +ℤ_mono _ _ (par (3 * m + 2))
            (apply_mult_mono x y ok.mult (pos_part (par (3 * m + 1))) h)))

  channel-IsExtremes :
      (n : ℕ) (f : Ints)
      → IsExtremes n f lo hi
      → IsExtremes n (λ i. channel par m (f i)) (channel par m lo) (channel par m hi)
  channel-IsExtremes n f ext = record {
    bounds = λ i h.
        let (above, below) = ext.bounds i h in
        (
          channel_mono lo (f i) (omega arith) above below,
          channel_mono (f i) hi above below (omega arith),
        );
    least = (ext.least.0, ext.least.1, ap (channel par m) ext.least.2);
    greatest = (ext.greatest.0, ext.greatest.1, ap (channel par m) ext.greatest.2);
  }

update_same : (a : Ints) (i : ℕ) (v : ℤ) → update a i v i ≡ v
update_same a i v = ground arith

update_other : (a : Ints) (i j : ℕ) (v : ℤ) → i ≢ j → update a i v j ≡ a j
update_other a i j v h = ground arith

-- Entry m after round m, and after a round for another column.
colext_round :
    (rmax rmin par : Ints) (m k : ℕ) (s : Ints × Ints)
    → (m < k → (s.0 m ≡ channel par m (rmax m)) × (s.1 m ≡ channel par m (rmin m)))
    → m < suc k
    → ((colext_step (rmax, rmin) par k s).0 m ≡ channel par m (rmax m))
      × ((colext_step (rmax, rmin) par k s).1 m ≡ channel par m (rmin m))
unfolding colext_step
colext_round rmax rmin par m k (cmax, cmin) before now = elim (dec_le (suc m) k) [
  | yes past ↦ (
    update_other cmax k m (channel par k (rmax k)) (omega arith) ∙ (before past).0,
    update_other cmin k m (channel par k (rmin k)) (omega arith) ∙ (before past).1,
  )
  | no here ↦
      subst
        (λ i.
          (update cmax i (channel par i (rmax i)) m ≡ channel par m (rmax m))
          × (update cmin i (channel par i (rmin i)) m ≡ channel par m (rmin m)))
        {x = m} {y = k} (omega arith)
        (update_same cmax m (channel par m (rmax m)), update_same cmin m (channel par m (rmin m)))
]

-- After `count` rounds entry m holds the value of column m.
colext_loop :
    (rmax rmin par : Ints) (ext : Ints × Ints) (count m : ℕ)
    → m < count
    → ((for_range count 0 (colext_step (rmax, rmin) par) ext).0 m ≡ channel par m (rmax m))
      × ((for_range count 0 (colext_step (rmax, rmin) par) ext).1 m ≡ channel par m (rmin m))
colext_loop rmax rmin par ext count m h =
    for_range_inv
      (λ k (s : Ints × Ints).
        m < k → (s.0 m ≡ channel par m (rmax m)) × (s.1 m ≡ channel par m (rmin m)))
      (colext_step (rmax, rmin) par) count 0 count ext (omega arith)
      (λ k s lo hi. colext_round rmax rmin par m k s) (λ now. absurd (omega arith)) h

-- Where rmax[m] and rmin[m] are the extremes of the accumulators acc[m] of a column and the column's
-- parameters are a multiplier that is not negative and a shift of at most 62 for which the scaled
-- extremes fit an int32_t: qgemm_colext sets cmax[m] and cmin[m] to the greatest and the least of the
-- requantised values of that column, for every column m below `count`.
pub qgemm_colext-IsExtremes :
    (rmax rmin par : Ints) (ext : Ints × Ints) (count n : ℕ) (acc : ℕ → Ints)
    → ((m : ℕ) → m < count → IsScaled par m (rmin m) (rmax m))
    → ((m : ℕ) → m < count → IsExtremes n (acc m) (rmin m) (rmax m))
    → (found : Ints × Ints) × (qgemm_colext (some (rmax, rmin)) par count (some ext) ≡ some found)
      × ((m : ℕ) → m < count → IsExtremes n (λ i. channel par m (acc m i)) (found.1 m) (found.0 m))
unfolding qgemm_colext
qgemm_colext-IsExtremes rmax rmin par ext count n acc scaled known = (
  for_range count 0 (colext_step (rmax, rmin) par) ext,
  refl,
  λ m h.
      let (greatest, least) = colext_loop rmax rmin par ext count m h in
      rw (greatest, least)
        (channel-IsExtremes par m (rmin m) (rmax m) (scaled m h) n (acc m) (known m h)),
)
