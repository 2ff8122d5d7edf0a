-- ===== src/Tools/Cli/Monitor.antt =====
-- How much the monitor prints.
use gsusb_canfd.Errors.{Result-cases}
use gsusb_canfd.Prelude.{
  ℕ, zero, suc, ◌+◌, ◌≤◌, ◌<◌, ◌≡◌, Bool, not, ◌&&◌, arith, length, Bool-cases, inl, inr,
}
use gsusb_canfd.Prelude.Int.{pos}
use gsusb_canfd.Floats.{Double}
use gsusb_canfd.Text.{Bytes}
use gsusb_canfd.Usb.{Libusb}
use gsusb_canfd.Device.Traffic.{Clock, received, timed_out, out_of_fuel, receive}
use gsusb_canfd.Tools.Cli.{Options, line, Cli}
use gsusb_canfd.Tools.Cli.Run.{say, has_enough, received_line, monitor}

module _ {D : Type 0} (F : Double D) (seconds : D → Bytes) (usb : Libusb) (clock : Clock D)
    (fuel : ℕ) (stopped : (round : ℕ) → Bool) (opts : Options D) (limit : ℕ)
    (limited : opts.count ≡ pos limit) where
  abbrev IsWithin : (printed : ℕ) → Cli → Cli → Type 0
  IsWithin printed before after = length after.printed + printed ≤ length before.printed + limit

  -- The monitor prints no more lines than `count` allows: from any round on, with `printed` lines
  -- counted and the limit not reached, as many as are left at most.
  pub monitor-length :
      (rounds round printed : ℕ) (s : Cli)
      → printed < limit
      → length (monitor F seconds usb clock fuel stopped opts rounds round printed s).1.printed
          + printed
        ≤ length s.printed + limit
  unfolding monitor
  monitor-length zero round printed s h = omega (arith, h)
  monitor-length (suc rounds) round printed s h = elim (Bool-cases (stopped round)) [
    | inl e ↦ rw (e, monitor) (omega (arith, h))
    | inr e ↦
        let b = (receive F usb clock (pos 100) fuel s.bus).1 in
        let s' = record s { bus = b } in
        elim (Result-cases (receive F usb clock (pos 100) fuel s.bus).0) [
          | inr (x, r) ↦ rw (e, r, monitor) (omega (arith, h))
          | inl (timed_out, r) ↦ rw (e, r, monitor) (monitor-length rounds (suc round) printed s' h)
          | inl (out_of_fuel, r) ↦ rw (e, r, monitor) (omega (arith, h))
          | inl (received frame, r) ↦ elim (Bool-cases (frame.echo && not opts.show_echo)) [
            | inl hidden ↦
                rw (e, r, hidden, monitor) (monitor-length rounds (suc round) printed s' h)
            | inr shown ↦
                elim (Bool-cases
                  (has_enough F seconds usb clock fuel stopped opts.count (suc printed))) [
                    | inl enough ↦ rw (e, r, shown, enough, monitor) (omega (arith, h))
                    | inr more ↦
                        let below : suc printed < limit = ground (arith, more, limited, h) in
                        let told =
                          say (line (received_line F seconds usb clock fuel stopped frame)) s' in
                        rw (e, r, shown, more, monitor)
                          (omega
                            (arith, monitor-length rounds (suc round) (suc printed) told below))
                  ]
          ]
        ]
  ]
