-- ===== src/Timing/Candidate.antt =====
-- What one round of the search proposes: values inside the hardware's limits that add up to the
-- bit length.
use gsusb_canfd.Prelude.{
  ℕ, ◌+◌, ◌-◌, ◌^◌, ◌≤◌, ◌<◌, ◌≡◌, refl, sym, subst, max, Bool, true, false, some, none, arith, u32,
  ◌==◌, if◌then◌else◌,
}
use gsusb_canfd.Prelude.Int.{ℤ, pos, negsuc, ◌-ℤ◌, ltb_ℤ}
use gsusb_canfd.Floats.{Double}
use gsusb_canfd.Timing.{
  BitTimingConst, BitTiming, tseg1, timing_of, segments_out_of_range, propose, quanta, seg1_of,
}

-- The limits are `uint32_t` values.
pub record IsConst (btc : BitTimingConst) : Type 0 where
  pub tseg1_word : btc.tseg1_max < 2 ^ 32
  pub tseg2_word : btc.tseg2_max < 2 ^ 32
  pub brp_word : btc.brp_max < 2 ^ 32

-- The limits that a timing for the hardware respects.
pub record IsWithin (btc : BitTimingConst) (t : BitTiming) : Type 0 where
  pub tseg1_low : btc.tseg1_min ≤ tseg1 t
  pub tseg1_high : tseg1 t ≤ btc.tseg1_max
  pub tseg2_low : btc.tseg2_min ≤ t.phase_seg2
  pub tseg2_high : t.phase_seg2 ≤ btc.tseg2_max
  pub prop_seg : t.prop_seg ≡ 1
  pub sjw_low : 1 ≤ t.sjw
  pub sjw_high : t.sjw ≤ max 1 btc.sjw_max
  pub sjw_fits : t.sjw ≤ max 1 t.phase_seg2
  -- The stored `phase_seg1` is `tseg1 - 1`, wrapped where `tseg1` is 0.
  pub phase_seg1 : t.phase_seg1 ≡ (if tseg1 t == 0 then 2 ^ 32 - 1 else tseg1 t - 1)

timing_of-IsWithin :
    (btc : BitTimingConst) (seg1 seg2 : ℤ) (brp : ℕ)
    → IsConst btc
    → segments_out_of_range btc seg1 seg2 ≡ false
    → let t = timing_of btc seg1 seg2 brp in
      IsWithin btc t × (pos (tseg1 t) ≡ seg1) × (pos t.phase_seg2 ≡ seg2)
unfolding timing_of
timing_of-IsWithin btc (pos a) (pos b) brp c h = (
  record {
    tseg1_low = ground arith;
    tseg1_high = ground arith;
    tseg2_low = ground arith;
    tseg2_high = ground arith;
    prop_seg = refl;
    sjw_low = omega arith;
    sjw_high = omega arith;
    sjw_fits = omega arith;
    phase_seg1 = ground arith;
  },
  ground arith,
  ground arith,
)
timing_of-IsWithin btc (negsuc a) seg2 brp c h = absurd (ground arith)
timing_of-IsWithin btc (pos a) (negsuc b) brp c h = absurd (ground arith)

brp-timing_of :
    (btc : BitTimingConst) (seg1 seg2 : ℤ) (brp : ℕ) → (timing_of btc seg1 seg2 brp).brp ≡ u32 brp
unfolding timing_of
brp-timing_of btc seg1 seg2 brp = refl

at_least_two : (n : ℕ) (z : ℤ) → pos n ≡ z → ltb_ℤ z (pos 2) ≡ false → 2 ≤ n
at_least_two n (pos m) e h = ground arith
at_least_two n (negsuc m) e h = cc

total_of_segments :
    (total seg1 : ℤ) (a b : ℕ)
    → pos a ≡ seg1
    → pos b ≡ total -ℤ pos 1 -ℤ seg1
    → pos (1 + a + b) ≡ total
total_of_segments (pos n) (pos m) a b ea eb = ground arith
total_of_segments (pos n) (negsuc m) a b ea eb = ground arith
total_of_segments (negsuc n) (pos m) a b ea eb = ground arith
total_of_segments (negsuc n) (negsuc m) a b ea eb = ground arith

passed_guards {ℓ} :
    {A : Type ℓ} (a b c : Bool) (v w : A)
    → (if a then none else if b then none else if c then none else some v) ≡ some w
    → (a ≡ false) × (b ≡ false) × (c ≡ false) × (w ≡ v)
passed_guards true b c v w h = cc
passed_guards false true c v w h = cc
passed_guards false false true v w h = cc
passed_guards false false false v w h = (refl, refl, refl, cc)

module _ {D : Type 0} (F : Double D) (bitrate : ℕ) (sample_point : D) (fclk : ℕ)
    (btc : BitTimingConst) where
  -- The timing `t` with error `e` is made for the prescaler `brp`: its bit has the rounded number
  -- of quanta, within one percent of the exact one, and the sample point is the nearest quantum.
  pub record IsCandidate (brp : ℕ) (t : BitTiming) (e : D) : Type 0 where
    pub within : IsWithin btc t
    pub prescaler : t.brp ≡ u32 brp
    pub bit_length :
        pos (1 + tseg1 t + t.phase_seg2) ≡ F.lround (quanta F bitrate sample_point fclk btc brp)
    pub long_enough : 2 ≤ 1 + tseg1 t + t.phase_seg2
    pub close :
        let total = quanta F bitrate sample_point fclk btc brp in
        F.lt (F.mul total (F.literal 1 2)) (F.fabs (F.sub total (F.of_long (F.lround total))))
        ≡ false
    pub sampled :
        pos (tseg1 t)
        ≡ F.lround (F.mul sample_point (F.of_long (pos (1 + tseg1 t + t.phase_seg2)))) -ℤ pos 1
    pub error :
        e
        ≡ F.fabs (
            F.sub
              (F.div
                (F.add (F.literal 1 0) (F.of_long (pos (tseg1 t))))
                (F.of_long (pos (1 + tseg1 t + t.phase_seg2))))
              sample_point)

  pub propose-IsCandidate :
      (brp : ℕ) (t : BitTiming) (e : D)
      → IsConst btc
      → propose F bitrate sample_point fclk btc brp ≡ some (t, e)
      → IsCandidate brp t e
  unfolding propose
  propose-IsCandidate brp t e c h =
      let total_i = F.lround (quanta F bitrate sample_point fclk btc brp) in
      let seg1 = seg1_of F bitrate sample_point fclk btc total_i in
      let seg2 = total_i -ℤ pos 1 -ℤ seg1 in
      let (long, close, in_range, made) = passed_guards _ _ _ _ _ h in
      let (within, eq1, eq2) = timing_of-IsWithin btc seg1 seg2 brp c in_range in
      let adds = total_of_segments total_i seg1 _ _ eq1 eq2 in
      let at_least = at_least_two _ total_i adds long in
      subst (λ r. IsCandidate brp r.0 r.1) (sym made)
        (record {
          within = within;
          prescaler = brp-timing_of btc seg1 seg2 brp;
          bit_length = adds;
          long_enough = at_least;
          close = close;
          sampled = rw adds eq1;
          error = rw (adds, eq1);
        })
