-- ===== src/Device/Lifecycle/Phases/Followed.antt =====
-- The calls of CanFdBus keep to its phases.
use gsusb_canfd.Prelude.{
  ℕ, ◌≡◌, refl, ap, Bool, true, false, Option, none, some, arith, Option-cases, Bool-cases, inl,
  inr, subst,
}
use gsusb_canfd.Prelude.Int.{ℤ}
use gsusb_canfd.Errors.{Result, ok, err, argument_error, Message}
use gsusb_canfd.Floats.{Double}
use gsusb_canfd.Frame.{CanFrame}
use gsusb_canfd.Usb.{Libusb, Log, ControlRequest}
use gsusb_canfd.Usb.Discovery.{AdapterInfo, DeviceSelector}
use gsusb_canfd.Usb.Discovery.Balance.{open_handles}
use gsusb_canfd.Usb.Transport.{
  UsbTransport, Port, is_some, transport_is_open, new_transport, open_transport, control_with,
}
use gsusb_canfd.Usb.Transport.Open.{IsOutcome, open_transport-Ends}
use gsusb_canfd.Device.State.{Bus, BusConfig, is_open}
use gsusb_canfd.Device.Open.{open_bus, open_adapter, after_transport, handshake, selector_for}
use gsusb_canfd.Device.Configure.{configure, configure_open, close_bus}
use gsusb_canfd.Device.Traffic.{Clock, send, receive}
use gsusb_canfd.Device.Lifecycle.{IsAt, Outcome, IsSound}
use gsusb_canfd.Device.Lifecycle.Opening.{handshake-IsAt}
use gsusb_canfd.Device.Lifecycle.Running.{configure_open-Ends}
use gsusb_canfd.Device.Lifecycle.Transfers.{send-IsAt, receive-IsAt}
use gsusb_canfd.Device.Lifecycle.Closing.{close_bus-IsReleased}
use gsusb_canfd.Device.Lifecycle.Machine.{fresh, Reachable, Reachable-IsSound}
use gsusb_canfd.Device.Lifecycle.Phases.Cases.{
  IsStraight, HasFlags, phase_at, Case, is_closed, is_opened, is_started, case_of, between, Moved,
  transfer-Allows,
}
use gsusb_canfd.Device.Lifecycle.Phases.Inert.{perform-IsInert}
use gsusb_canfd.Device.Lifecycle.Phases.{
  closed, opened, started, phase_of, opening, configuring, transferring, closing, Allows, Request,
  opens, closes, opens_adapter, configures, sends, receives, kind_of, threw, perform, IsInert,
  expected_of,
}

abbrev with_transport : Port → Bus → Bus
with_transport p b = record { impl = record b.impl { transport = some p.transport }; log = p.log }

module _ (usb : Libusb) where
  -- The transport's outcome, and the handshake.
  after_transport-Allows :
      (r : Result (Unit {0})) (p : Port) (b : Bus)
      → IsOutcome (r, p)
      → IsAt (HasFlags false false) b
      → Moved opening b (after_transport usb r p.transport (with_transport p b))
  after_transport-Allows (ok _) p b ((key, e), claimed) h =
      let start = with_transport p b in
      let there : IsAt (HasFlags true false) start = (ap (λ o. is_some o) e, h.1) in
      let c = handshake usb p.transport start in
      let kept =
        (handshake-IsAt usb (HasFlags true false) (λ t s handle req log q. q) p.transport).keeps
          start there in
      elim (Bool-cases (threw c.0)) [
        | inl e ↦
            between opening closed opened b c.1 (threw c.0) (phase_at false false b h)
              (phase_at true false c.1 kept) (rw e (λ q. cc))
        | inr e ↦
            between opening closed opened b c.1 (threw c.0) (phase_at false false b h)
              (phase_at true false c.1 kept) (rw e refl)
      ]
  after_transport-Allows (err x) p b e h =
      let after = with_transport p b in
      between opening closed closed b after true (phase_at false false b h)
        (phase_at false false after (ap (λ o. is_some o) e, h.1)) (λ q. cc)

  -- A bus that is open stays as it is.
  open_bus-Allows : (b : Bus) → Case b → Moved opening b (open_bus usb b)
  unfolding open_bus
  open_bus-Allows b (is_closed h) =
      let p : Port = record { transport = new_transport b.impl.selector; log = b.log } in
      let r = open_transport usb p in
      let ends =
        open_transport-Ends usb (λ key. open_handles key b.log) p refl (λ key. omega arith) in
      let off : is_open b.impl ≡ false = h.0 in
      let after = after_transport usb r.0 r.1.transport (with_transport r.1 b) in
      let same : after ≡ open_bus usb b = ground (arith, off) in
      subst (Moved opening b) same (after_transport-Allows r.0 r.1 b ends.0 h)
  open_bus-Allows b (is_opened h) =
      let on : is_open b.impl ≡ true = h.0 in
      let p = phase_at true false b h in
      let stays : Result (Unit {0}) × Bus = (ok tt, b) in
      let same : stays ≡ open_bus usb b = ground (arith, on) in
      subst (Moved opening b) same (between opening opened opened b b false p p (refl, refl))
  open_bus-Allows b (is_started h) =
      let on : is_open b.impl ≡ true = h.0 in
      let p = phase_at true true b h in
      let stays : Result (Unit {0}) × Bus = (ok tt, b) in
      let same : stays ≡ open_bus usb b = ground (arith, on) in
      subst (Moved opening b) same (between opening started started b b false p p (refl, refl))

module _ {D : Type 0} (F : Double D) (usb : Libusb) where
  quiet_at :
      (there flag : Bool) (t : Option UsbTransport) (on : Bool) (handle : Option ℕ)
      (req : ControlRequest) (log : Log)
      → HasFlags there flag t on log
      → HasFlags there flag t on (control_with usb handle req log).1
  quiet_at there flag t on handle req log h = h

  -- Behind the configuration of an open bus.
  configured :
      (flag : Bool) (b : Bus) (r : Result (Unit {0}) × Bus)
      → Outcome (IsAt (HasFlags true flag)) (IsAt (HasFlags true true)) r
      → IsAt (HasFlags true flag) b
      → Moved configuring b r
  configured true b (ok _, c) h start =
      between configuring started started b c false (phase_at true true b start)
        (phase_at true true c h) refl
  configured true b (err e, c) h start =
      between configuring started started b c true (phase_at true true b start)
        (phase_at true true c h) refl
  configured false b (ok _, c) h start =
      between configuring opened started b c false (phase_at true false b start)
        (phase_at true true c h) refl
  configured false b (err e, c) h start =
      between configuring opened opened b c true (phase_at true false b start)
        (phase_at true false c h) refl

  configure-open :
      (flag : Bool) (c : BusConfig D) (b : Bus)
      → IsAt (HasFlags true flag) b
      → Moved configuring b (configure F usb c b)
  unfolding configure
  configure-open flag c b h = elim (Option-cases b.impl.transport) [
    | inl e ↦ let gone : is_open b.impl ≡ false = rw e refl in ground (arith, gone, h.0)
    | inr (t, e) ↦
        let on : transport_is_open t ≡ true = ground (arith, h.0, e) in
        let same : configure_open F usb t c b ≡ configure F usb c b = ground (arith, e, on) in
        subst (Moved configuring b) same (
          configured flag b (configure_open F usb t c b)
            ((configure_open-Ends F usb t c (HasFlags true flag) (quiet_at true flag)
                (HasFlags true true) (λ t started log h. (h.0, refl))).ends
              b h)
            h)
  ]

  configure-Allows :
      (c : BusConfig D) (b : Bus) → Case b → Moved configuring b (configure F usb c b)
  unfolding configure
  configure-Allows c b (is_opened h) = configure-open false c b h
  configure-Allows c b (is_started h) = configure-open true c b h
  configure-Allows c b (is_closed h) =
      let p = phase_at false false b h in
      let r : Result (Unit {0}) × Bus = (err (argument_error Message.open_before_configure), b) in
      let same : r ≡ configure F usb c b = elim (Option-cases b.impl.transport) [
        | inl e ↦ ground (arith, e)
        | inr (t, e) ↦
            let off : transport_is_open t ≡ false = ground (arith, h.0, e) in ground (arith, e, off)
      ] in
      subst (Moved configuring b) same (between configuring closed closed b b true p p (refl, refl))

  send-Allows :
      (frame : CanFrame D) (echo : Bool) (b : Bus)
      → Case b
      → Moved transferring b (send usb frame echo b)
  unfolding send
  send-Allows frame echo =
      transfer-Allows (send usb frame echo)
        (λ b e. (argument_error Message.not_started, rw (e, send) refl))
        (send-IsAt F usb (HasFlags true true) (λ t started handle req log h. h) frame echo)

  receive-Allows :
      (clock : Clock D) (timeout_ms : ℤ) (fuel : ℕ) (b : Bus)
      → Case b
      → Moved transferring b (receive F usb clock timeout_ms fuel b)
  unfolding receive
  receive-Allows clock timeout_ms fuel =
      transfer-Allows (receive F usb clock timeout_ms fuel)
        (λ b e. (argument_error Message.not_started, rw (e, receive) refl))
        (receive-IsAt F usb (HasFlags true true) (λ t started handle req log h. h) clock timeout_ms
          fuel)

  close_bus-Allows :
      (base : ℕ → ℕ) (b : Bus)
      → IsSound base b
      → Allows closing (phase_of b.impl) false (phase_of (close_bus usb b).impl)
  close_bus-Allows base b sound =
      let (gone, idle, handles) = close_bus-IsReleased usb base b sound in
      let shut : is_open (close_bus usb b).impl ≡ false =
        ap (λ (o : Option UsbTransport). elim o [ none ↦ false | some u ↦ transport_is_open u ])
          gone in
      between closing (phase_of b.impl) closed b (close_bus usb b) false refl
        (phase_at false false (close_bus usb b) (shut, idle)) (refl, refl)

  open_adapter-Allows :
      (info : AdapterInfo) (b : Bus) → IsStraight b.impl → Moved opening b (open_adapter usb info b)
  unfolding open_adapter
  open_adapter-Allows info b straight =
      let c : Bus = record {
        impl = record b.impl { selector = selector_for info b.impl.selector };
        log = b.log;
      } in
      open_bus-Allows usb c (case_of c straight)

  perform-Moved :
      (clock : Clock D) (base : ℕ → ℕ) (b : Bus)
      → IsSound base b
      → (request : Request D)
      → Allows
          (kind_of request)
          (phase_of b.impl)
          (perform F usb clock request b).0
          (phase_of (perform F usb clock request b).1.impl)
  perform-Moved clock base b sound opens = open_bus-Allows usb b (case_of b sound.1)
  perform-Moved clock base b sound closes = close_bus-Allows base b sound
  perform-Moved clock base b sound (opens_adapter info) = open_adapter-Allows info b sound.1
  perform-Moved clock base b sound (configures c) = configure-Allows c b (case_of b sound.1)
  perform-Moved clock base b sound (sends frame echo) = send-Allows frame echo b (case_of b sound.1)
  perform-Moved clock base b sound (receives timeout_ms fuel) =
      receive-Allows clock timeout_ms fuel b (case_of b sound.1)

  -- Each call, on a bus that any sequence of calls on a new bus has led to, does what the phases
  -- allow: by its kind and the phase before it, whether it may throw and the phase after it. Opening
  -- on a bus that is not closed changes nothing but the selector that opening for an adapter stores;
  -- configuring on a closed bus, and sending and receiving on one that is not started, change
  -- nothing.
  pub perform-Allows :
      (clock : Clock D) (selector : DeviceSelector) (log : Log) (b : Bus)
      → Reachable F usb clock (fresh selector log) b
      → (request : Request D)
      → Allows
          (kind_of request)
          (phase_of b.impl)
          (perform F usb clock request b).0
          (phase_of (perform F usb clock request b).1.impl)
        × IsInert
            (kind_of request)
            (phase_of b.impl)
            (perform F usb clock request b).1
            (expected_of request b)
  perform-Allows clock selector log b path request =
      let sound = Reachable-IsSound F usb clock selector log b path in
      (
        perform-Moved clock (λ key. open_handles key log) b sound request,
        perform-IsInert F usb clock request b (case_of b sound.1),
      )
