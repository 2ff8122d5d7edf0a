-- ===== src/Tests/Timings.antt =====
-- The theorems on bit timings, at one clock and one set of limits.
use gsusb_canfd.Prelude.{◌≡◌, refl, ◌⊎◌, arith}
use gsusb_canfd.Prelude.Int.{ℤ}
use gsusb_canfd.Errors.{ok, err, argument_error, Message}
use gsusb_canfd.Timing.{
  BitTimingConst, BitTiming, calculate_bit_timing, best_timing, search_loop, propose, timing_of,
  keep_better, to_bytes,
}
use gsusb_canfd.Timing.Candidate.{IsConst}
use gsusb_canfd.Timing.Calculate.{IsBestTiming, Hopeless, calculate_bit_timing_cases}
use gsusb_canfd.Timing.Bytes.{IsWords, IsTimingBlock, to_bytes-IsTimingBlock}
use gsusb_canfd.Tests.Fixed.{fixed, fixed-IsIeee}

abbrev pub limits : BitTimingConst
limits = record {
  tseg1_min = 1;
  tseg1_max = 16;
  tseg2_min = 1;
  tseg2_max = 8;
  sjw_max = 4;
  brp_min = 1;
  brp_max = 10;
  brp_inc = 1;
}

-- 80 %
abbrev sample : ℤ
sample = fixed.literal 8 1

-- 500 kbit/s from a clock of 80 MHz.
abbrev half_megabit : BitTiming
half_megabit = record { prop_seg = 1; phase_seg1 = 14; phase_seg2 = 4; sjw = 4; brp = 8 }

limits-IsConst : IsConst limits
limits-IsConst = record {
  tseg1_word = omega arith;
  tseg2_word = omega arith;
  brp_word = omega arith;
}

half_megabit-eq : calculate_bit_timing fixed 500000 sample 80000000 limits ≡ ok half_megabit
unfolding calculate_bit_timing best_timing search_loop propose timing_of keep_better
half_megabit-eq = refl

calculate_bit_timing_cases_example :
    ((t : BitTiming) × (calculate_bit_timing fixed 500000 sample 80000000 limits ≡ ok t)
      × IsBestTiming fixed 500000 sample 80000000 limits t)
    ⊎ ((calculate_bit_timing fixed 500000 sample 80000000 limits
          ≡ err (argument_error (Message.no_bit_timing 500000 80000000)))
        × Hopeless fixed 500000 sample 80000000 limits)
calculate_bit_timing_cases_example =
    calculate_bit_timing_cases fixed 500000 sample 80000000 limits limits-IsConst fixed-IsIeee
      (ground arith) refl refl (ground arith)

half_megabit-IsWords : IsWords half_megabit
half_megabit-IsWords = record {
  prop_seg = omega arith;
  phase_seg1 = omega arith;
  phase_seg2 = omega arith;
  sjw = omega arith;
  brp = omega arith;
}

to_bytes-IsTimingBlock_example : IsTimingBlock half_megabit (to_bytes half_megabit)
to_bytes-IsTimingBlock_example = to_bytes-IsTimingBlock half_megabit half_megabit-IsWords
