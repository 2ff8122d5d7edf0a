-- ===== src/Device/Configure/Started.antt =====
-- What a configure call that succeeds has done.
use gsusb_canfd.Prelude.{
  ℕ, ◌≡◌, refl, subst, Bool, true, false, not, ◌&&◌, some, ◌∷◌, arith, Option-cases, Bool-cases,
  List, [], ◌+◌, if◌then◌else◌, inl, inr,
}
use gsusb_canfd.Errors.{CanFdError, Result, ok, err, bus_error, Message, Result-cases}
use gsusb_canfd.Effects.{Action, ◌>>=◌, ◌>>◌, throw_if}
use gsusb_canfd.Floats.{Double}
use gsusb_canfd.Timing.{BitTiming, to_bytes, calculate_bit_timing}
use gsusb_canfd.Usb.{Libusb, Log, control, ControlRequest}
use gsusb_canfd.Usb.Transport.{UsbTransport, transport_is_open, control_with}
use gsusb_canfd.Device.State.{
  Impl, Bus, BusConfig, update, from_result, has_feature, k_breq_bittiming, k_breq_mode,
}
use gsusb_canfd.Device.Open.{control_out}
use gsusb_canfd.Device.Configure.{
  configure_data_if, with_modes, start_modes, apply_timing, configure_open, configure, mode_bytes,
  mode_flags,
}

-- What holds of the state behind a call that did not throw.
abbrev pub IsAfter : (Q : Bus → Type 0) {A : Type 0} → Result A × Bus → Type 0
IsAfter Q (ok a, c) = Q c
IsAfter Q (err e, c) = Unit {0}

-- From a state with `P`, a call throws or gets to a state with `Q`.
record Reaches (P Q : Bus → Type 0) {A : Type 0} (m : Action Bus A) : Type 0 where
  reaches : (b : Bus) → P b → IsAfter Q (m b)

abbrev Anything : Bus → Type 0
Anything b = Unit {0}

module _ (P Q : Bus → Type 0) where
  -- Only the second part counts.
  later :
      {A B : Type 0} (m : Action Bus A) (f : A → Action Bus B)
      → ((a : A) → Reaches Anything Q (f a))
      → Reaches Anything Q (m >>= f)
  later m f last = record {
    reaches = λ b h. elim (Result-cases (m b).0) [
      | inl (a, e) ↦ rw (e, ◌>>=◌) ((last a).reaches (m b).1 tt)
      | inr (x, e) ↦ rw (e, ◌>>=◌) tt
    ];
  }

  -- A check that is passed.
  passing :
      {B : Type 0} (test : Bool) (e : CanFdError) (k : Action Bus B)
      → (test ≡ false → Reaches P Q k)
      → Reaches P Q (throw_if test e >> k)
  passing true e k last = record { reaches = λ b h. tt }
  passing false e k last = record { reaches = λ b h. (last refl).reaches b h }

  storing :
      {B : Type 0} (f : Impl → Impl) (k : Action Bus B)
      → ((b : Bus) → P (record { impl = f b.impl; log = b.log }))
      → Reaches P Q k
      → Reaches Anything Q (update f >> k)
  storing f k stored last = record {
    reaches = λ b h. last.reaches (record { impl = f b.impl; log = b.log }) (stored b);
  }

  -- A fact that is known from elsewhere.
  knowing :
      (X : Type 0) {A : Type 0} (m : Action Bus A) → X → Reaches P Q m → Reaches P (λ b. Q b × X) m
  knowing X m x last = record { reaches = λ b h. go (m b) (last.reaches b h) }
    where
      go : {A : Type 0} (r : Result A × Bus) → IsAfter Q r → IsAfter (λ b. Q b × X) r
      go (ok a, c) q = (q, x)
      go (err e, c) q = tt

-- The eight bytes of a start request, by the modes that it asks for.
abbrev bit_if : Bool → ℕ → ℕ
bit_if on bit = if on then bit else 0

abbrev pub start_block : (listen_only loopback one_shot stamp fd : Bool) → List ℕ
start_block listen_only loopback one_shot stamp fd =
    1
    ∷ 0
    ∷ 0
    ∷ 0
    ∷ (bit_if listen_only 1 + bit_if loopback 2 + bit_if one_shot 8 + bit_if stamp 16)
    ∷ bit_if fd 1
    ∷ 0
    ∷ 0
    ∷ []

start_block_eq :
    (listen_only loopback one_shot stamp fd : Bool)
    → mode_bytes (mode_flags listen_only loopback one_shot fd stamp)
      ≡ start_block listen_only loopback one_shot stamp fd
unfolding mode_bytes mode_flags
start_block_eq listen_only loopback one_shot stamp fd = ground arith

module _ {D : Type 0} (t : UsbTransport) (c : BusConfig D) (channel feature : ℕ) where
  -- The bits of a feature word are written out here.
  abbrev fd_of : Bool
  fd_of = c.fd && has_feature feature 0x100

  abbrev stamp_of : Bool
  stamp_of = c.hw_timestamp && has_feature feature 0x10

  -- The fields that keep the modes.
  pub record HasModes (b : Bus) : Type 0 where
    pub is_fd : b.impl.is_fd ≡ fd_of
    pub is_silent : b.impl.listen_only ≡ c.listen_only
    pub hw_timestamp : b.impl.hw_timestamp ≡ stamp_of
    pub drop_echo : b.impl.drop_echo ≡ c.drop_echo

  -- The start request: one bit for each mode, lowest byte first.
  abbrev pub start_request : ControlRequest
  start_request = record {
    request_type = 0x41;
    request = 2;
    value = channel;
    index = 0;
    bytes = start_block c.listen_only c.loopback c.one_shot stamp_of fd_of;
    size = 8;
  }

  -- The bus is started, its mode fields are those of the config, the device has every mode that was
  -- asked for, and the last thing sent is the start request with the bits of those modes.
  pub record IsStarted (b : Bus) : Type 0 where
    pub started : b.impl.started ≡ true
    pub modes : HasModes b
    pub listen_only : c.listen_only && not (has_feature feature 0x1) ≡ false
    pub loopback : c.loopback && not (has_feature feature 0x2) ≡ false
    pub one_shot : c.one_shot && not (has_feature feature 0x8) ≡ false
    pub earlier : Log
    pub request : b.log ≡ control t.handle start_request ∷ earlier

module _ {D : Type 0} (F : Double D) (usb : Libusb) (t : UsbTransport) (c : BusConfig D) where
  start_modes-Reaches :
      (channel feature : ℕ)
      → Reaches
          (HasModes t c channel feature)
          (IsStarted t c channel feature)
          (start_modes F usb t c channel feature (fd_of t c channel feature))
  unfolding start_modes control_with
  start_modes-Reaches channel feature =
      let P = HasModes t c channel feature in
      let Q = IsStarted t c channel feature in
      let flags =
        mode_flags c.listen_only c.loopback c.one_shot (fd_of t c channel feature)
          (stamp_of t c channel feature) in
      let request = control_out usb t k_breq_mode channel 0 (mode_bytes flags) 8 in
      let begin = update (λ impl. record impl { started = true }) in
      passing P Q _ (bus_error Message.no_listen_only) _ (λ listen_only.
        passing P Q _ (bus_error Message.no_loopback) _ (λ loopback.
          passing P Q _ (bus_error Message.no_one_shot) (request >> begin) (λ one_shot. record {
            reaches = λ b h. elim (Result-cases (request b).0) [
              | inr (x, e) ↦ rw (e, ◌>>◌, ◌>>=◌) tt
              | inl (a, e) ↦
                  rw (e, ◌>>◌, ◌>>=◌)
                    (record {
                      started = refl;
                      modes = record {
                        is_fd = h.is_fd;
                        is_silent = h.is_silent;
                        hw_timestamp = h.hw_timestamp;
                        drop_echo = h.drop_echo;
                      };
                      listen_only = listen_only;
                      loopback = loopback;
                      one_shot = one_shot;
                      earlier = b.log;
                      request =
                          rw
                            (start_block_eq c.listen_only c.loopback c.one_shot
                              (stamp_of t c channel feature) (fd_of t c channel feature))
                            refl;
                    })
            ];
          })))

  apply_timing-Reaches :
      (channel feature : ℕ) (timing : BitTiming)
      → Reaches Anything
          (IsStarted t c channel feature)
          (apply_timing F usb t c channel feature (fd_of t c channel feature) timing)
  unfolding apply_timing
  apply_timing-Reaches channel feature timing =
      let P = HasModes t c channel feature in
      let Q = IsStarted t c channel feature in
      let fd = fd_of t c channel feature in
      later P Q (update (λ impl. record impl { nominal_timing = timing })) _ (λ _.
        later P Q (control_out usb t k_breq_bittiming channel 0 (to_bytes timing) 20) _ (λ _.
          later P Q (configure_data_if F usb fd t c) _ (λ _.
            storing P Q (with_modes F usb c feature fd) (start_modes F usb t c channel feature fd)
              (λ b. record {
                is_fd = refl;
                is_silent = refl;
                hw_timestamp = refl;
                drop_echo = refl;
              })
              (start_modes-Reaches channel feature))))

  -- CAN FD is on only where the device has it.
  abbrev pub HasFd : (feature : ℕ) → Type 0
  HasFd feature = c.fd && not (has_feature feature 0x100) ≡ false

  configure_open-Reaches :
      (b : Bus)
      → IsAfter
          (λ a. IsStarted t c b.impl.channel b.impl.feature a × HasFd b.impl.feature)
          (configure_open F usb t c b)
  unfolding configure_open
  configure_open-Reaches b =
      let feature = b.impl.feature in
      let P = HasModes t c b.impl.channel feature in
      let Q = IsStarted t c b.impl.channel feature in
      let timed =
        from_result
          (calculate_bit_timing F c.bitrate c.sample_point b.impl.fclk_can b.impl.nominal_const) in
      let rest = apply_timing F usb t c b.impl.channel feature (fd_of t c b.impl.channel feature) in
      (passing Anything (λ a. Q a × HasFd feature) _ (bus_error Message.no_can_fd) (timed >>= rest)
          (λ supported. knowing Anything Q (HasFd feature) (timed >>= rest) supported (
            later P Q timed rest
              (λ timing. apply_timing-Reaches b.impl.channel feature timing)))).reaches
        b tt

module _ {D : Type 0} (F : Double D) (usb : Libusb) where
  -- A configure call that succeeds found an open transport, and leaves a started bus that has CAN FD
  -- on, listens only, stamps frames and drops echoes as the config asks, the time stamps only where
  -- the device has them. The device has every other mode that was asked for, and the last thing
  -- that was asked of libusb is the start request, with one bit for each mode that is on.
  pub configure-IsStarted :
      (c : BusConfig D) (b after : Bus)
      → configure F usb c b ≡ (ok tt, after)
      → (t : UsbTransport) × (b.impl.transport ≡ some t)
        × (transport_is_open t ≡ true)
        × IsStarted t c b.impl.channel b.impl.feature after
        × (c.fd && not (has_feature b.impl.feature 0x100) ≡ false)
  unfolding configure
  configure-IsStarted c b after done = elim (Option-cases b.impl.transport) [
    | inl e ↦ absurd (ground (arith, done, e))
    | inr (t, e) ↦ elim (Bool-cases (transport_is_open t)) [
      | inr off ↦ absurd (ground (arith, done, e, off))
      | inl on ↦
          let same : configure_open F usb t c b ≡ (ok tt, after) = ground (arith, done, e, on) in
          let (known, has_fd) =
            subst
              (IsAfter (λ a.
                IsStarted t c b.impl.channel b.impl.feature a
                × (c.fd && not (has_feature b.impl.feature 0x100) ≡ false)))
              same (configure_open-Reaches F usb t c b) in
          (t, e, on, known, has_fd)
    ]
  ]
