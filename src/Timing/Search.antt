-- ===== src/Timing/Search.antt =====
-- The search loop over any proposals: what it keeps was proposed, and nothing that was proposed
-- beats it by more than the tolerance.
use gsusb_canfd.Prelude.{
  ℕ, zero, suc, ◌+◌, ◌*◌, ◌≤◌, ◌<◌, ◌≡◌, refl, sym, ◌∙◌, subst, ◌⊎◌, inl, inr, true, false, Option,
  some, arith, leb, Bool-cases, Option-cases,
}
use gsusb_canfd.Floats.{Double, IsIeee}
use gsusb_canfd.Timing.{BitTiming, Best, keep_better, consider, search_loop}

-- A value that the loop variable takes, counted from `brp` by `inc` up to `last`.
pub record OnGrid (last inc brp at : ℕ) : Type 0 where
  pub steps : ℕ
  pub reached : at ≡ brp + steps * inc
  pub within : at ≤ last

module _ {D : Type 0} (F : Double D) (propose : ℕ → Option (BitTiming × D)) (last inc : ℕ) where
  -- The state holds a proposal for some value of the loop variable.
  pub record IsProposed (brp : ℕ) (s : Best D) : Type 0 where
    pub at : ℕ
    pub on_grid : OnGrid last inc brp at
    pub proposal : propose at ≡ some (s.timing, s.error)
    pub is_found : s.found ≡ true

  OnGrid-next : {brp at : ℕ} → OnGrid last inc (brp + inc) at → OnGrid last inc brp at
  OnGrid-next g = record {
    steps = suc g.steps;
    reached = omega (arith, g.reached);
    within = g.within;
  }

  OnGrid-here : (brp : ℕ) → brp ≤ last → OnGrid last inc brp brp
  OnGrid-here brp h = record { steps = 0; reached = omega arith; within = h }

  abbrev loop : ℕ → ℕ → Best D → Best D
  loop = search_loop F propose last inc

  keep_better_cases :
      (s : Best D) (t : BitTiming) (e : D)
      → (keep_better F s t e ≡ s)
        ⊎ (keep_better F s t e ≡ record { found = true; timing = t; error = e })
  unfolding keep_better
  keep_better_cases s t e = ground arith

  consider-kept :
      (brp : ℕ) (s : Best D)
      → brp ≤ last
      → (consider F s (propose brp) ≡ s) ⊎ IsProposed brp (consider F s (propose brp))
  consider-kept brp s h = elim (Option-cases (propose brp)) [
    | inl e ↦ rw e (inl refl)
    | inr ((t, x), e) ↦ elim (keep_better_cases s t x) [
      | inl same ↦ rw e (inl same)
      | inr new ↦ inr (record {
        at = brp;
        on_grid = OnGrid-here brp h;
        proposal = rw (e, new);
        is_found = rw (e, new);
      })
    ]
  ]

  IsProposed-next : {brp : ℕ} {s : Best D} → IsProposed (brp + inc) s → IsProposed brp s
  IsProposed-next p = record {
    at = p.at;
    on_grid = OnGrid-next p.on_grid;
    proposal = p.proposal;
    is_found = p.is_found;
  }

  -- The loop ends in the state it began with or in one that was proposed.
  pub loop-kept :
      (fuel brp : ℕ) (s : Best D) → (loop fuel brp s ≡ s) ⊎ IsProposed brp (loop fuel brp s)
  unfolding search_loop
  loop-kept zero brp s = inl refl
  loop-kept (suc fuel) brp s = elim (Bool-cases (leb brp last)) [
    | inr past ↦ rw past (inl refl)
    | inl more ↦ elim (loop-kept fuel (brp + inc) (consider F s (propose brp))) [
      | inr later ↦ rw more (inr (IsProposed-next later))
      | inl same ↦ elim (consider-kept brp s (ground arith)) [
        | inl start ↦ rw more (inl (same ∙ start))
        | inr here ↦ rw more (inr (subst (IsProposed brp) (sym same) here))
      ]
    ]
  ]

  -- Nothing with error `e` would replace the state.
  abbrev pub Unbeaten : Best D → D → Type 0
  Unbeaten s e = (s.found ≡ true) × (F.lt e (F.sub s.error (F.literal 1 12)) ≡ false)

  module _ (ieee : IsIeee F) where
    keep_better-Unbeaten :
        (s : Best D) (t : BitTiming) (x e : D) → Unbeaten s e → Unbeaten (keep_better F s t x) e
    unfolding keep_better
    keep_better-Unbeaten s t x e h =
        ground (arith, ieee.lt_of_lt_sub x s.error, ieee.sub_mono e x s.error)

    keep_better-Unbeaten_self :
        (s : Best D) (t : BitTiming) (x : D) → Unbeaten (keep_better F s t x) x
    unfolding keep_better
    keep_better-Unbeaten_self s t x = ground (arith, ieee.lt_of_lt_sub x x, ieee.lt_irrefl x)

    consider-Unbeaten :
        (brp : ℕ) (s : Best D) (e : D) → Unbeaten s e → Unbeaten (consider F s (propose brp)) e
    consider-Unbeaten brp s e h = elim (Option-cases (propose brp)) [
      | inl none_here ↦ rw none_here h
      | inr ((t, x), here) ↦ rw here (keep_better-Unbeaten s t x e h)
    ]

    loop-Unbeaten :
        (fuel brp : ℕ) (s : Best D) (e : D) → Unbeaten s e → Unbeaten (loop fuel brp s) e
    unfolding search_loop
    loop-Unbeaten zero brp s e h = h
    loop-Unbeaten (suc fuel) brp s e h = ground (
      arith,
      consider-Unbeaten brp s e h,
      loop-Unbeaten fuel (brp + inc) (consider F s (propose brp)) e,
    )

    more_rounds : (brp at steps : ℕ) → at ≡ brp + steps * inc → at ≤ last → leb brp last ≡ true
    more_rounds brp at steps reached within = ground arith

    -- With enough fuel, whatever is proposed on the grid does not beat the outcome.
    pub loop-best :
        (fuel brp steps at : ℕ) (s : Best D) (t : BitTiming) (e : D)
        → 0 < inc
        → last < brp + fuel
        → at ≡ brp + steps * inc
        → at ≤ last
        → propose at ≡ some (t, e)
        → Unbeaten (loop fuel brp s) e
    unfolding search_loop
    loop-best zero brp steps at s t e step enough reached within here = absurd (omega arith)
    loop-best (suc fuel) brp zero at s t e step enough reached within here =
        let same : at ≡ brp = omega arith in
        rw (more_rounds brp at zero reached within) (
          loop-Unbeaten fuel (brp + inc) (consider F s (propose brp)) e
            (rw (← same, here) (keep_better-Unbeaten_self s t e)))
    loop-best (suc fuel) brp (suc steps) at s t e step enough reached within here =
        rw (more_rounds brp at (suc steps) reached within) (
          loop-best fuel (brp + inc) steps at (consider F s (propose brp)) t e step (omega arith)
            (omega arith) within here)
