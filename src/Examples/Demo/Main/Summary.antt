-- ===== src/Examples/Demo/Main/Summary.antt =====
-- The counts that canfd_demo.cpp prints at its end.
use gsusb_canfd.Prelude.{
  ℕ, zero, suc, ◌+◌, ◌-◌, ◌*◌, ◌^◌, ◌<◌, ◌≡◌, refl, subst, ◌&&◌, leb, Option, none, some, List,
  arith, Bool-cases, inl, inr,
}
use gsusb_canfd.Prelude.Int.{pos}
use gsusb_canfd.Errors.{Result, ok, err, Result-cases}
use gsusb_canfd.Effects.{Action, ◌>>=◌, ◌>>◌}
use gsusb_canfd.Floats.{Double}
use gsusb_canfd.Text.{Bytes}
use gsusb_canfd.Usb.{Libusb}
use gsusb_canfd.Device.Traffic.{Clock, Received, received, timed_out, out_of_fuel, receive}
use gsusb_canfd.Examples.{Running, on_bus}
use gsusb_canfd.Examples.Demo.{Args, Notice}
use gsusb_canfd.Examples.Demo.Counts.{Tally, is_wanted}
use gsusb_canfd.Examples.Demo.Counts.Tallied.{
  sum_of, IsAscending, IsOnly, lines_of, IsTally, later-IsTally, note_frame-IsTally,
}
use gsusb_canfd.Examples.Demo.Main.{
  Surroundings, send_trigger, repeat_trigger, take_frame, turn, goes, watch, start_tally,
}

module _ {D : Type 0} (F : Double D) (seconds : D → Bytes) (usb : Libusb) (clock : Clock D)
    (fuel : ℕ) (around : Surroundings) (args : Args D) (base : ℕ) where
  -- What a tally that is returned satisfies, if one is.
  abbrev Holds : (rounds : ℕ) → Result (Option Tally) → List (Notice D) → Type 0
  Holds rounds (ok (some t)) printed = IsTally args base rounds printed t
  Holds rounds (ok none) printed = Unit
  Holds rounds (err e) printed = Unit

  abbrev Repeated : (rounds : ℕ) → Result Tally → List (Notice D) → Type 0
  Repeated rounds (ok t) printed = IsTally args base rounds printed t
  Repeated rounds (err e) printed = Unit

  -- The receive call and what follows it.
  abbrev receive_frame : (now : ℕ) → Tally → Action (Running (Notice D)) (Option Tally)
  receive_frame now t = on_bus (receive F usb clock (pos 100) fuel) >>= λ r.
      take_frame F seconds usb clock fuel around args now t r

  take_frame-IsTally :
      (rounds now : ℕ) (t : Tally) (r : Received D) (s : Running (Notice D))
      → suc rounds < 2 ^ 32
      → IsTally args base rounds s.printed t
      → Holds
          (suc rounds)
          (take_frame F seconds usb clock fuel around args now t r s).0
          (take_frame F seconds usb clock fuel around args now t r s).1.printed
  take_frame-IsTally rounds now t timed_out s small h =
      later-IsTally args base rounds (suc rounds) s.printed t (omega arith) h
  take_frame-IsTally rounds now t out_of_fuel s small h = tt
  take_frame-IsTally rounds now t (received frame) s small h =
      elim (Bool-cases (is_wanted args frame)) [
        | inl e ↦
            rw (e, take_frame)
              (note_frame-IsTally args base F seconds rounds now s.printed frame t small e h)
        | inr e ↦
            rw (e, take_frame)
              (later-IsTally args base rounds (suc rounds) s.printed t (omega arith) h)
      ]

  receive_frame-IsTally :
      (rounds now : ℕ) (t : Tally) (s : Running (Notice D))
      → suc rounds < 2 ^ 32
      → IsTally args base rounds s.printed t
      → Holds (suc rounds) (receive_frame now t s).0 (receive_frame now t s).1.printed
  receive_frame-IsTally rounds now t s small h =
      let s' = (on_bus (receive F usb clock (pos 100) fuel) s).1 in
      elim (Result-cases (receive F usb clock (pos 100) fuel s.bus).0) [
        | inl (r, e) ↦ rw (e, ◌>>=◌, on_bus) (take_frame-IsTally rounds now t r s' small h)
        | inr (x, e) ↦ rw (e, ◌>>=◌, on_bus) tt
      ]

  repeat_trigger-IsTally :
      (rounds now : ℕ) (t : Tally) (s : Running (Notice D))
      → IsTally args base rounds s.printed t
      → Repeated rounds
          (repeat_trigger F seconds usb clock fuel around args now t s).0
          (repeat_trigger F seconds usb clock fuel around args now t s).1.printed
  repeat_trigger-IsTally rounds now t s h =
      let sent = send_trigger F seconds usb clock fuel around args in
      let again : IsTally args base rounds s.printed (record t { last_trigger = now }) = record {
        sum = h.sum;
        bound = h.bound;
        window = h.window;
        ascending = h.ascending;
        only = h.only;
        lines = h.lines;
        every_line = h.every_line;
      } in
      elim (Bool-cases (args.trigger && leb (1 * 1000000000) (now - t.last_trigger))) [
        | inr off ↦ rw (off, repeat_trigger) h
        | inl on ↦ elim (Result-cases (sent s).0) [
          | inl (done, e) ↦ rw (on, e, ◌>>=◌, ◌>>◌, repeat_trigger) again
          | inr (x, e) ↦ rw (on, e, ◌>>=◌, ◌>>◌, repeat_trigger) tt
        ]
      ]

  turn-IsTally :
      (rounds now : ℕ) (t : Tally) (s : Running (Notice D))
      → suc rounds < 2 ^ 32
      → IsTally args base rounds s.printed t
      → Holds
          (suc rounds)
          (turn F seconds usb clock fuel around args now t s).0
          (turn F seconds usb clock fuel around args now t s).1.printed
  unfolding turn
  turn-IsTally rounds now t s small h =
      let first = repeat_trigger F seconds usb clock fuel around args now t s in
      elim (Result-cases first.0) [
        | inl (t', e) ↦
            rw (e, ◌>>=◌)
              (receive_frame-IsTally rounds now t' first.1 small (
                subst (λ (r : Result Tally). Repeated rounds r first.1.printed) e
                  (repeat_trigger-IsTally rounds now t s h)))
        | inr (x, e) ↦ rw (e, ◌>>=◌) tt
      ]

  -- The tally of a loop that ends within the rounds.
  watch-Holds :
      (rounds round : ℕ) (t : Tally) (s : Running (Notice D))
      → rounds + round < 2 ^ 32
      → IsTally args base round s.printed t
      → Holds
          (rounds + round)
          (watch F seconds usb clock fuel around args rounds round t s).0
          (watch F seconds usb clock fuel around args rounds round t s).1.printed
  unfolding watch
  watch-Holds zero round t s small h = tt
  watch-Holds (suc rounds) round t s small h =
      let body = turn F seconds usb clock fuel around args (around.now round) t s in
      elim (Bool-cases (goes F seconds usb clock fuel around args round)) [
        | inr e ↦
            rw (e, watch)
              (later-IsTally args base round (suc rounds + round) s.printed t (omega arith) h)
        | inl e ↦ elim (Result-cases body.0) [
          | inr (x, r) ↦ rw (e, r, watch) tt
          | inl (none, r) ↦ rw (e, r, watch) tt
          | inl (some t', r) ↦
              let kept : IsTally args base (suc round) body.1.printed t' =
                subst (λ (r : Result (Option Tally)). Holds (suc round) r body.1.printed) r
                  (turn-IsTally round (around.now round) t s (omega (arith, small)) h) in
              let after = watch-Holds rounds (suc round) t' body.1 (omega (arith, small)) kept in
              let count : rounds + suc round ≡ suc rounds + round = omega arith in
              let ending =
                watch F seconds usb clock fuel around args rounds (suc round) t' body.1 in
              rw (e, r, watch) (subst (λ (n : ℕ). Holds n ending.0 ending.1.printed) count after)
        ]
      ]

-- Where the loop of the demo ends within fewer than 2 ^ 32 rounds, the counts of the summary are in
-- ascending order of their ids, none is 0, they sum to the total, and under the filter there is no
-- id but the one it lets through. The total is at most the number of rounds and at least the
-- number of lines that the loop prints for frames, and it is that number where each frame is to be
-- printed. The window is at most the total.
pub watch-IsTally :
    {D : Type 0} (F : Double D) (seconds : D → Bytes) (usb : Libusb) (clock : Clock D) (fuel : ℕ)
    (around : Surroundings) (args : Args D) (rounds : ℕ) (s : Running (Notice D)) (t : Tally)
    → rounds < 2 ^ 32
    → (watch F seconds usb clock fuel around args rounds 0
        (start_tally F seconds usb clock fuel around)
        s).0
      ≡ ok (some t)
    → IsTally args
        (lines_of s.printed)
        rounds
        (watch F seconds usb clock fuel around args rounds 0
          (start_tally F seconds usb clock fuel around)
          s).1.printed
        t
unfolding sum_of IsAscending IsOnly
watch-IsTally {D} F seconds usb clock fuel around args rounds s t small e =
    let start = start_tally F seconds usb clock fuel around in
    let base = lines_of s.printed in
    let loop = watch F seconds usb clock fuel around args rounds 0 start s in
    let none_yet : IsTally args base 0 s.printed start = record {
      sum = refl;
      bound = omega arith;
      window = omega arith;
      ascending = tt;
      only = λ on. tt;
      lines = omega arith;
      every_line = λ on. omega arith;
    } in
    let count : rounds + 0 ≡ rounds = omega arith in
    let found =
      watch-Holds F seconds usb clock fuel around args base rounds 0 start s (omega (arith, small))
        none_yet in
    subst (λ (n : ℕ). IsTally args base n loop.1.printed t) count
      (subst
        (λ (r : Result (Option Tally)).
          Holds F seconds usb clock fuel around args base (rounds + 0) r loop.1.printed)
        e found)
