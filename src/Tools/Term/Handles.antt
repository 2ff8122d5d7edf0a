-- ===== src/Tools/Term/Handles.antt =====
-- The device handles over the operations of canfd_term.cpp.
use gsusb_canfd.Prelude.{
  ℕ, ◌≡◌, refl, sym, subst, Bool, true, false, not, ◌&&◌, Option, none, some, arith, Bool-cases,
  Option-cases, inl, inr,
}
use gsusb_canfd.Prelude.Int.{ℤ}
use gsusb_canfd.Errors.{Result, ok, err, Result-cases}
use gsusb_canfd.Effects.{Action, ◌>>=◌, ◌>>◌}
use gsusb_canfd.Floats.{Double}
use gsusb_canfd.Text.{Bytes}
use gsusb_canfd.Frame.{CanFrame}
use gsusb_canfd.Usb.{Libusb, Log}
use gsusb_canfd.Usb.Discovery.{DeviceSelector}
use gsusb_canfd.Usb.Discovery.Balance.{open_handles}
use gsusb_canfd.Device.State.{Bus, BusConfig}
use gsusb_canfd.Device.Configure.{configure}
use gsusb_canfd.Device.Open.{open_bus}
use gsusb_canfd.Device.Traffic.{Clock}
use gsusb_canfd.Device.Lifecycle.{IsSound, Keeps}
use gsusb_canfd.Device.Lifecycle.Opening.{open_bus-IsSound}
use gsusb_canfd.Device.Lifecycle.Running.{configure-IsSound}
use gsusb_canfd.Device.Lifecycle.Closing.{close_bus-IsReleased}
use gsusb_canfd.Device.Lifecycle.Machine.{fresh}
use gsusb_canfd.Device.Worker.{
  Worker, no_thread, testing, receiving, ended, delivering, Shared, idle, start, begin_stop, joined,
  step_worker,
}
use gsusb_canfd.Device.Worker.Handles.{start-bus, joined-bus, advance-IsSound}
use gsusb_canfd.Tools.Term.{Term}
use gsusb_canfd.Tools.Term.Printing.{look, print_rx}
use gsusb_canfd.Tools.Term.Open.{
  on_bus, heard, background, finish, drop_bus, bring_up, opened_or_failed, open_device,
}

module _ {D : Type 0} (base : ℕ → ℕ) where
  abbrev pub IsTidyBus : Option (Shared D) → Log → Type 0
  IsTidyBus none log = (key : ℕ) → open_handles key log ≡ base key
  IsTidyBus (some s) log = IsSound base s.bus

  -- The handles that are open are those of `base` and the one that the bus holds.
  abbrev pub IsTidy : Term D → Type 0
  IsTidy t = IsTidyBus t.bus t.log

  -- A bus that is there, and one that is not.
  pub with_bus : (t : Term D) (s : Shared D) → t.bus ≡ some s → IsTidy t → IsSound base s.bus
  with_bus t s e h = subst (λ (o : Option (Shared D)). IsTidyBus o t.log) e h

  pub without_bus :
      (t : Term D) → t.bus ≡ none → IsTidy t → (key : ℕ) → open_handles key t.log ≡ base key
  without_bus t e h = subst (λ (o : Option (Shared D)). IsTidyBus o t.log) e h

  print_rx-IsTidy :
      (F : Double D) (seconds : D → Bytes) (frame : CanFrame D) (t : Term D)
      → IsTidy t
      → IsTidy (print_rx F seconds frame t)
  unfolding print_rx
  print_rx-IsTidy F seconds frame t h = elim (Bool-cases (frame.echo && not t.show_echo)) [
    | inl hidden ↦ rw (hidden, print_rx) h
    | inr seen ↦ elim (Bool-cases (look frame t.view).0) [
      | inl shown ↦ rw (seen, shown, print_rx) h
      | inr kept ↦ rw (seen, kept, print_rx) h
    ]
  ]

module _ {D : Type 0} (F : Double D) (seconds : D → Bytes) (usb : Libusb) (clock : Clock D)
    (fuel : ℕ) (base : ℕ → ℕ) where
  heard-IsTidy :
      (w : Worker D) (on : Bool) (t : Term D)
      → IsTidy base t
      → IsTidy base (heard F seconds usb clock fuel w on t)
  heard-IsTidy (delivering frame) true t h = print_rx-IsTidy base F seconds frame t h
  heard-IsTidy (delivering frame) false t h = h
  heard-IsTidy no_thread on t h = h
  heard-IsTidy testing on t h = h
  heard-IsTidy receiving on t h = h
  heard-IsTidy ended on t h = h

  pub background-IsTidy :
      (t : Term D) → IsTidy base t → IsTidy base (background F seconds usb clock fuel t)
  unfolding background
  background-IsTidy t h = elim (Option-cases t.bus) [
    | inl e ↦ rw (e, background) h
    | inr (s, e) ↦
        rw (e, background)
          (heard-IsTidy s.worker s.has_callback
            (record t { bus = some (step_worker F usb clock fuel s) })
            (advance-IsSound F usb clock fuel base s.worker s (with_bus base t s e h)))
  ]

  -- No bus, and no handle but those of `base`.
  abbrev pub IsGone : Term D → Type 0
  IsGone t = (t.bus ≡ none) × ((key : ℕ) → open_handles key t.log ≡ base key)

  finish-IsGone :
      (was : Bool) (t : Term D) → IsTidy base t → IsGone (finish F seconds usb clock fuel was t)
  finish-IsGone was t h = elim (Option-cases t.bus) [
    | inl e ↦ rw (e, finish) (e, without_bus base t e h)
    | inr (s, e) ↦
        let sound = subst (IsSound base) (sym (joined-bus was s)) (with_bus base t s e h) in
        rw (e, finish) (refl, (close_bus-IsReleased usb base (joined was s).bus sound).2)
  ]

  pub drop_bus-IsGone : (t : Term D) → IsTidy base t → IsGone (drop_bus F seconds usb clock fuel t)
  unfolding drop_bus begin_stop
  drop_bus-IsGone t h = elim (Option-cases t.bus) [
    | inl e ↦ rw (e, drop_bus) (e, without_bus base t e h)
    | inr (s, e) ↦
        let told = record t { bus = some (begin_stop s) } in
        let once = background F seconds usb clock fuel told in
        let twice = background F seconds usb clock fuel once in
        rw (e, drop_bus)
          (finish-IsGone s.running (background F seconds usb clock fuel twice) (
            background-IsTidy twice
              (background-IsTidy once (background-IsTidy told (with_bus base t s e h)))))
  ]

  -- A call of the bus, and what follows where it does not throw.
  and_then :
      (m : Action Bus (Unit {0})) (k : Action (Shared D) (Unit {0})) (s : Shared D)
      → Keeps (IsSound base) m
      → ((s : Shared D) → IsSound base s.bus → IsSound base (k s).1.bus)
      → IsSound base s.bus
      → IsSound base ((on_bus m >> k) s).1.bus
  and_then m k s km kk h = elim (Result-cases (m s.bus).0) [
    | inl (done, e) ↦
        rw (e, ◌>>◌, ◌>>=◌, on_bus) (kk (record s { bus = (m s.bus).1 }) (km.keeps s.bus h))
    | inr (x, e) ↦ rw (e, ◌>>◌, ◌>>=◌, on_bus) (km.keeps s.bus h)
  ]

  bring_up-IsSound :
      (config : BusConfig D) (s : Shared D)
      → IsSound base s.bus
      → IsSound base (bring_up F seconds usb clock fuel config s).1.bus
  unfolding bring_up
  bring_up-IsSound config s h =
      and_then (open_bus usb) (on_bus (configure F usb config) >> start) s
        (open_bus-IsSound usb base)
        (λ s h.
          and_then (configure F usb config) start s (configure-IsSound F usb base config)
            (λ s h. subst (IsSound base) (sym (start-bus s)) h) h)
        h

  fresh-IsSound :
      (selector : DeviceSelector) (log : Log)
      → ((key : ℕ) → open_handles key log ≡ base key)
      → IsSound base (fresh selector log)
  fresh-IsSound selector log clear = (λ key. omega (arith, clear key), λ on. ground (arith, on))

  -- The state behind an attempt to open, and what holds where it failed.
  abbrev pub IsAttempt : Bool × Term D → Type 0
  IsAttempt (done, t) = IsTidy base t × (done ≡ false → IsGone t)

  opened_or_failed-IsAttempt :
      (index : ℤ) (r : Result (Unit {0})) (s : Shared D) (t : Term D)
      → IsSound base s.bus
      → IsAttempt (opened_or_failed F seconds usb clock fuel index r s t)
  unfolding opened_or_failed
  opened_or_failed-IsAttempt index (ok done) s t h = (h, λ e. cc)
  opened_or_failed-IsAttempt index (err e) s t h =
      let clear = (close_bus-IsReleased usb base s.bus h).2 in (clear, λ _. (refl, clear))

  pub open_device-IsAttempt :
      (index : ℤ) (t : Term D)
      → IsTidy base t
      → IsAttempt (open_device F seconds usb clock fuel index t)
  unfolding open_device
  open_device-IsAttempt index t h =
      let (gone, clear) = drop_bus-IsGone t h in
      let t = drop_bus F seconds usb clock fuel t in
      let t = record t { selector = record t.selector { index = index } } in
      let new = idle (fresh t.selector t.log) in
      let up = bring_up F seconds usb clock fuel t.config new in
      opened_or_failed-IsAttempt index up.0 up.1 t
        (bring_up-IsSound t.config new (fresh-IsSound t.selector t.log clear))
