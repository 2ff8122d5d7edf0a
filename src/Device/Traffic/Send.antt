-- ===== src/Device/Traffic/Send.antt =====
-- What a send call writes to the adapter.
use gsusb_canfd.Prelude.{
  ℕ, ◌≡◌, refl, subst, Bool, false, not, ◌&&◌, some, List, ◌∷◌, if◌then◌else◌, Bool-cases,
  Option-cases, inl, inr, length,
}
use gsusb_canfd.Errors.{Result, ok, err, Result-cases}
use gsusb_canfd.Frame.{CanFrame, encode_frame, k_echo_tag, k_echo_none}
use gsusb_canfd.Usb.{Libusb, bulk}
use gsusb_canfd.Usb.Transport.{UsbTransport, bulk_write}
use gsusb_canfd.Device.State.{Impl, Bus}
use gsusb_canfd.Device.Traffic.{started_transport, send_started, send}

-- The bytes of a frame on the wire of this bus.
abbrev pub encoded_for : {D : Type 0} → CanFrame D → (echo : Bool) → Impl → Result (List ℕ)
encoded_for frame echo impl =
    encode_frame (record frame { channel = impl.channel })
      (if echo then k_echo_tag else k_echo_none)

-- One bulk write of these bytes, with the timeout of one second, and nothing else.
abbrev pub Wrote : UsbTransport → List ℕ → Bus → Bus → Type 0
Wrote t bytes b c =
    (c.impl ≡ b.impl)
    × (c.log
        ≡ bulk t.handle
            (record { endpoint = t.ep_out; bytes = bytes; size = length bytes; timeout_ms = 1000 })
          ∷ b.log)

abbrev pub IsSent :
    {D : Type 0} → CanFrame D → (echo : Bool) (b : Bus) → Result (Unit {0}) × Bus → Type 0
IsSent frame echo b (ok _, c) =
    (t : UsbTransport) × (bytes : List ℕ) × (started_transport b.impl ≡ some t)
    × (frame.fd && not b.impl.is_fd ≡ false)
    × (encoded_for frame echo b.impl ≡ ok bytes)
    × Wrote t bytes b c
IsSent frame echo b (err e, c) = Unit {0}

-- The bus behind one bulk write.
abbrev wrote : UsbTransport → List ℕ → Bus → Bus
wrote t bytes b = record {
  impl = b.impl;
  log =
      bulk t.handle
        (record { endpoint = t.ep_out; bytes = bytes; size = length bytes; timeout_ms = 1000 })
      ∷ b.log;
}

-- The write is the last thing that may fail.
written :
    {D : Type 0} (frame : CanFrame D) (echo : Bool) (b : Bus) (t : UsbTransport) (bytes : List ℕ)
    → (started_transport b.impl ≡ some t)
      × (frame.fd && not b.impl.is_fd ≡ false)
      × (encoded_for frame echo b.impl ≡ ok bytes)
    → (r : Result ℕ)
    → IsSent frame echo b (elim r as (λ _. Result (Unit {0}) × Bus) [
      | ok n ↦ (ok tt, wrote t bytes b)
      | err x ↦ (err x, wrote t bytes b)
    ])
written frame echo b t bytes (here, allowed, good) (ok n) =
    (t, bytes, here, allowed, good, (refl, refl))
written frame echo b t bytes known (err x) = tt

module _ {D : Type 0} (usb : Libusb) where
  send-IsSent_lem :
      (frame : CanFrame D) (echo : Bool) (b : Bus) → IsSent frame echo b (send usb frame echo b)
  unfolding send send_started bulk_write
  send-IsSent_lem frame echo b = elim (Option-cases (started_transport b.impl)) [
    | inl e ↦ rw (e, send) tt
    | inr (t, e) ↦ elim (Bool-cases (frame.fd && not b.impl.is_fd)) [
      | inl refused ↦ rw (e, send, send_started, refused) tt
      | inr allowed ↦ elim (Result-cases (encoded_for frame echo b.impl)) [
        | inr (x, bad) ↦ rw (e, send, send_started, allowed, bad) tt
        | inl (bytes, good) ↦
            rw (e, send, send_started, allowed, good)
              (written frame echo b t bytes (e, allowed, good)
                (bulk_write usb t.handle t.ep_out bytes (length bytes) 1000 b.log).0)
      ]
    ]
  ]

  -- A send that succeeds found a started bus, did not pass a CAN FD frame to a classic bus, asked
  -- libusb for one bulk write of the whole encoded frame to the bulk OUT endpoint, and changed
  -- nothing else of the bus.
  pub send-IsSent :
      (frame : CanFrame D) (echo : Bool) (b c : Bus)
      → send usb frame echo b ≡ (ok tt, c)
      → (t : UsbTransport) × (bytes : List ℕ) × (started_transport b.impl ≡ some t)
        × (frame.fd && not b.impl.is_fd ≡ false)
        × (encoded_for frame echo b.impl ≡ ok bytes)
        × Wrote t bytes b c
  send-IsSent frame echo b c e = subst (IsSent frame echo b) e (send-IsSent_lem frame echo b)
