-- ===== src/Timing/Calculate.antt =====
-- `calculate_bit_timing` as a whole: the arguments that it refuses, and the search's outcome.
use gsusb_canfd.Prelude.{
  ℕ, ◌+◌, ◌<◌, ◌≡◌, ap, ◌⊎◌, inl, inr, ◌≢◌, true, false, Option, none, some, arith, Option-cases,
  subst,
}
use gsusb_canfd.Errors.{ok, err, argument_error, Message}
use gsusb_canfd.Floats.{Double, IsIeee}
use gsusb_canfd.Timing.{
  BitTimingConst, BitTiming, Best, blank_timing, propose, increment, best_timing,
  calculate_bit_timing,
}
use gsusb_canfd.Timing.Search.{OnGrid, IsProposed, Unbeaten, loop-kept, loop-best}
use gsusb_canfd.Timing.Candidate.{IsConst, IsCandidate, propose-IsCandidate}

-- A prescaler that the device offers: brp_min and the steps from it, up to brp_max.
abbrev pub Offered : BitTimingConst → ℕ → Type 0
Offered btc at = OnGrid btc.brp_max (increment btc) btc.brp_min at

module _ {D : Type 0} (F : Double D) (bitrate : ℕ) (sample_point : D) (fclk : ℕ)
    (btc : BitTimingConst) where
  abbrev proposal : ℕ → Option (BitTiming × D)
  proposal = propose F bitrate sample_point fclk btc

  -- `t` is a candidate for a prescaler that the device offers, and no other candidate's sample
  -- point is closer by more than the tolerance.
  pub record IsBestTiming (t : BitTiming) : Type 0 where
    pub offered : Offered btc t.brp
    pub error : D
    pub candidate : IsCandidate F bitrate sample_point fclk btc t.brp t error
    pub unbeaten :
        (at : ℕ) (u : BitTiming) (e : D)
        → Offered btc at
        → proposal at ≡ some (u, e)
        → F.lt e (F.sub error (F.literal 1 12)) ≡ false

  -- No offered prescaler gives a candidate.
  abbrev pub Hopeless : Type 0
  Hopeless = (at : ℕ) → Offered btc at → proposal at ≡ none

  abbrev start : Best D
  start = record { found = false; timing = blank_timing; error = F.largest }

  abbrev outcome : Best D
  outcome = best_timing F bitrate sample_point fclk btc

  increment_pos : 0 < increment btc
  increment_pos = ground arith

  outcome-Unbeaten :
      IsIeee F
      → (at : ℕ) (u : BitTiming) (e : D) → Offered btc at
      → proposal at ≡ some (u, e)
      → Unbeaten F proposal btc.brp_max (increment btc) outcome e
  unfolding best_timing
  outcome-Unbeaten ieee at u e g h =
      loop-best F proposal btc.brp_max (increment btc) ieee (btc.brp_max + 1) btc.brp_min g.steps at
        start u e increment_pos (omega arith) g.reached g.within h

  outcome_cases :
      (outcome ≡ start) ⊎ IsProposed F proposal btc.brp_max (increment btc) btc.brp_min outcome
  unfolding best_timing
  outcome_cases =
      loop-kept F proposal btc.brp_max (increment btc) (btc.brp_max + 1) btc.brp_min start

  module _ (c : IsConst btc) (ieee : IsIeee F) where
    proposed-IsBestTiming :
        IsProposed F proposal btc.brp_max (increment btc) btc.brp_min outcome
        → IsBestTiming outcome.timing
    proposed-IsBestTiming p =
        let made =
          propose-IsCandidate F bitrate sample_point fclk btc p.at outcome.timing outcome.error c
            p.proposal in
        let same : p.at ≡ outcome.timing.brp = omega (arith, made.prescaler, p.on_grid.within) in
        record {
          offered = subst (Offered btc) same p.on_grid;
          error = outcome.error;
          candidate =
              subst
                (λ at. IsCandidate F bitrate sample_point fclk btc at outcome.timing outcome.error)
                same made;
          unbeaten = λ at u e g h. (outcome-Unbeaten ieee at u e g h).1;
        }

    hopeless : outcome.found ≡ false → Hopeless
    hopeless lost at g = elim (Option-cases (proposal at)) [
      | inl none_here ↦ none_here
      | inr ((u, e), here) ↦ cc (lost, (outcome-Unbeaten ieee at u e g here).0)
    ]

    search_cases :
        ((outcome.found ≡ true) × IsBestTiming outcome.timing)
        ⊎ ((outcome.found ≡ false) × Hopeless)
    search_cases = elim outcome_cases [
      | inl same ↦
          inr (ap (λ (s : Best D). s.found) same, hopeless (ap (λ (s : Best D). s.found) same))
      | inr p ↦ inl (p.is_found, proposed-IsBestTiming p)
    ]

    -- With a bit rate and a clock that are not 0, a sample point strictly between 0 and 1, 32-bit
    -- limits and IEEE comparisons, the calculation returns a best timing, or it refuses and no
    -- prescaler that the device offers gives a candidate.
    pub calculate_bit_timing_cases :
        bitrate ≢ 0
        → F.lt (F.literal 0 0) sample_point ≡ true
        → F.lt sample_point (F.literal 1 0) ≡ true
        → fclk ≢ 0
        → ((t : BitTiming) × (calculate_bit_timing F bitrate sample_point fclk btc ≡ ok t)
            × IsBestTiming t)
          ⊎ ((calculate_bit_timing F bitrate sample_point fclk btc
                ≡ err (argument_error (Message.no_bit_timing bitrate fclk)))
              × Hopeless)
    unfolding calculate_bit_timing
    calculate_bit_timing_cases rate low high clock = elim search_cases [
      | inl (won, best) ↦ inl (outcome.timing, ground arith, best)
      | inr (lost, none_at_all) ↦ inr (ground arith, none_at_all)
    ]

    -- Under 32-bit limits and IEEE comparisons, whatever the bit rate, sample point and clock, a
    -- timing that is returned is a best timing.
    pub calculate_bit_timing-IsBestTiming :
        (t : BitTiming)
        → calculate_bit_timing F bitrate sample_point fclk btc ≡ ok t
        → IsBestTiming t
    unfolding calculate_bit_timing
    calculate_bit_timing-IsBestTiming t h = elim search_cases [
      | inl (won, best) ↦ subst IsBestTiming (ground arith) best
      | inr (lost, none_at_all) ↦ absurd (ground arith)
    ]
