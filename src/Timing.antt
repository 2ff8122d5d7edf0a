-- ===== src/Timing.antt =====
-- include/canfd/bit_timing.hpp and src/bit_timing.cpp: the search for a bit timing. `long` is
-- unbounded, as it is wider than every value that the search computes from.
pub mod Search
pub mod Candidate
pub mod Calculate
pub mod Bytes
use gsusb_canfd.Prelude.{
  ℕ, zero, suc, ◌+◌, ◌-◌, ◌%◌, ◌^◌, min, max, Bool, true, false, not, ◌&&◌, ◌||◌, Option, none,
  some, List, replicate, u32, leb, ◌==◌, if◌then◌else◌,
}
use gsusb_canfd.Prelude.Int.{ℤ, pos, negsuc, ◌-ℤ◌, ltb_ℤ}
use gsusb_canfd.Wire.{put_u32_le}
use gsusb_canfd.Errors.{Result, ok, err, argument_error, bus_error, Message}
use gsusb_canfd.Floats.{Double}

pub record BitTimingConst : Type 0 where
  pub tseg1_min : ℕ
  pub tseg1_max : ℕ
  pub tseg2_min : ℕ
  pub tseg2_max : ℕ
  pub sjw_max : ℕ
  pub brp_min : ℕ
  pub brp_max : ℕ
  pub brp_inc : ℕ

pub record BitTiming : Type 0 where
  pub prop_seg : ℕ
  pub phase_seg1 : ℕ
  pub phase_seg2 : ℕ
  pub sjw : ℕ
  pub brp : ℕ

abbrev pub blank_timing : BitTiming
blank_timing = record { prop_seg = 0; phase_seg1 = 0; phase_seg2 = 0; sjw = 0; brp = 0 }

-- BitTiming::tseg1()
abbrev pub tseg1 : BitTiming → ℕ
tseg1 t = u32 (t.prop_seg + t.phase_seg1)

unfoldable pub to_bytes : BitTiming → List ℕ
to_bytes t =
    let out : List ℕ = replicate 20 0 in
    let out = put_u32_le out 0 t.prop_seg in
    let out = put_u32_le out 4 t.phase_seg1 in
    let out = put_u32_le out 8 t.phase_seg2 in
    let out = put_u32_le out 12 t.sjw in put_u32_le out 16 t.brp

-- static_cast<uint32_t> of a `long`.
abbrev pub to_u32 : ℤ → ℕ
to_u32 (pos n) = n % 2 ^ 32
to_u32 (negsuc n) = 2 ^ 32 - 1 - n % 2 ^ 32

-- The candidate that a `tseg1`, a `tseg2` and a prescaler make.
unfoldable pub timing_of : BitTimingConst → ℤ → ℤ → ℕ → BitTiming
timing_of btc seg1 seg2 brp = record {
  prop_seg = 1;
  phase_seg1 = u32 (to_u32 seg1 + 2 ^ 32 - 1);
  phase_seg2 = to_u32 seg2;
  sjw = max 1 (min (to_u32 seg2) btc.sjw_max);
  brp = u32 brp;
}

-- The four comparisons with the segment limits.
abbrev pub segments_out_of_range : BitTimingConst → ℤ → ℤ → Bool
segments_out_of_range btc seg1 seg2 =
    ltb_ℤ seg1 (pos btc.tseg1_min)
    || (ltb_ℤ (pos btc.tseg1_max) seg1
        || (ltb_ℤ seg2 (pos btc.tseg2_min) || ltb_ℤ (pos btc.tseg2_max) seg2))

-- `brp_inc`, the step of the loop.
abbrev pub increment : BitTimingConst → ℕ
increment btc = if btc.brp_inc == 0 then 1 else btc.brp_inc

-- What the loop carries: `found`, `best` and `best_err`.
pub record Best (D : Type 0) : Type 0 where
  pub found : Bool
  pub timing : BitTiming
  pub error : D

module _ {D : Type 0} (F : Double D) where
  -- `if (!found || err < best_err - 1e-12)` and its body.
  unfoldable pub keep_better : Best D → BitTiming → D → Best D
  keep_better s t error =
      if not s.found || F.lt error (F.sub s.error (F.literal 1 12))
      then record { found = true; timing = t; error = error }
      else s

  -- One round: `none` where it says `continue`.
  abbrev pub consider : Best D → Option (BitTiming × D) → Best D
  consider s none = s
  consider s (some (t, error)) = keep_better s t error

  -- for (brp = brp; brp <= last; brp += inc)
  unfoldable pub search_loop :
      (propose : ℕ → Option (BitTiming × D)) (last inc fuel brp : ℕ) → Best D → Best D
  search_loop propose last inc zero brp s = s
  search_loop propose last inc (suc fuel) brp s =
      let rest = search_loop propose last inc fuel (brp + inc) (consider s (propose brp)) in
      if leb brp last then rest else s

  module _ (bitrate : ℕ) (sample_point : D) (fclk : ℕ) (btc : BitTimingConst) where
    -- Time quanta in a bit, before rounding.
    abbrev pub quanta : ℕ → D
    quanta brp = F.div (F.of_unsigned fclk) (F.mul (F.of_unsigned bitrate) (F.of_unsigned brp))

    abbrev pub seg1_of : ℤ → ℤ
    seg1_of total_i = F.lround (F.mul sample_point (F.of_long total_i)) -ℤ pos 1

    abbrev pub error_of : ℤ → D
    error_of total_i = F.fabs (
        F.sub (F.div (F.add (F.literal 1 0) (F.of_long (seg1_of total_i))) (F.of_long total_i))
          sample_point)

    -- The loop's body up to `err`: the candidate for one prescaler and its error.
    unfoldable pub propose : ℕ → Option (BitTiming × D)
    propose brp =
        let total = quanta brp in
        let total_i = F.lround total in
        let seg1 = seg1_of total_i in
        let seg2 = total_i -ℤ pos 1 -ℤ seg1 in
        if ltb_ℤ total_i (pos 2)
        then none
        else if F.lt (F.mul total (F.literal 1 2)) (F.fabs (F.sub total (F.of_long total_i)))
        then none
        else if segments_out_of_range btc seg1 seg2
        then none
        else some (timing_of btc seg1 seg2 brp, error_of total_i)

    -- The search over every prescaler: brp_max + 1 rounds are enough, as a step is at least 1.
    unfoldable pub best_timing : Best D
    best_timing =
        search_loop propose btc.brp_max (increment btc) (btc.brp_max + 1) btc.brp_min
          (record { found = false; timing = blank_timing; error = F.largest })

    unfoldable pub calculate_bit_timing : Result BitTiming
    calculate_bit_timing =
        if bitrate == 0
        then err (argument_error Message.bitrate_zero)
        else if not (F.lt (F.literal 0 0) sample_point && F.lt sample_point (F.literal 1 0))
        then err (argument_error Message.sample_point_range)
        else if fclk == 0
        then err (bus_error Message.clock_unknown)
        else if not best_timing.found
        then err (argument_error (Message.no_bit_timing bitrate fclk))
        else ok best_timing.timing
