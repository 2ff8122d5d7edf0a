-- ===== src/Device/Lifecycle.antt =====
-- Ownership of the device handle over the calls of CanFdBus, and the state machine that the calls
-- make.
pub mod Opening
pub mod Closing
pub mod Running
pub mod Transfers
pub mod Phases
pub mod Machine
use gsusb_canfd.Prelude.{
  ℕ, ◌+◌, ◌≡◌, refl, sym, subst, ◌∙◌, Bool, true, false, not, ◌&&◌, ◌||◌, ◌==◌, ltb, Option, none,
  some, List, [], ◌∷◌, arith, if◌then◌else◌, Bool-cases, Option-cases, ◌⊎◌, inl, inr,
}
use gsusb_canfd.Errors.{CanFdError, Result, ok, err, Result-cases}
use gsusb_canfd.Effects.{Action, ◌>>=◌, ◌>>◌, catch, throw_if}
use gsusb_canfd.Usb.{Libusb, Log, ControlRequest}
use gsusb_canfd.Usb.Discovery.Balance.{open_handles}
use gsusb_canfd.Usb.Transport.{
  UsbTransport, Port, new_transport, transport_is_open, control_with, bulk_write, bulk_read,
  open_transport, close_transport,
}
use gsusb_canfd.Usb.Transport.Open.{
  holds, IsBalanced, open_transport-Ends, close_transport-IsBalanced, close_transport_handle,
}
use gsusb_canfd.Device.State.{Impl, Bus, is_open, lift, update, from_result}

-- Whether the bus object holds the handle of a device: one or none.
abbrev pub held : (key : ℕ) → Impl → ℕ
held key impl = elim impl.transport [ none ↦ 0 | some t ↦ holds key t ]

-- Every open handle is one that was open in `base` or the one that the bus object holds.
abbrev pub IsOwned : (base : ℕ → ℕ) → Bus → Type 0
IsOwned base b = (key : ℕ) → open_handles key b.log ≡ base key + held key b.impl

-- No handle is lost, and a started bus is open.
abbrev pub IsSound : (base : ℕ → ℕ) → Bus → Type 0
IsSound base b = IsOwned base b × (b.impl.started ≡ true → is_open b.impl ≡ true)

-- A part of a call that keeps a property of the bus however it ends.
pub record Keeps (P : Bus → Type 0) {A : Type 0} (m : Action Bus A) : Type 0 where
  pub keeps : (b : Bus) → P b → P (m b).1

module _ (P : Bus → Type 0) where
  pub bind-Keeps :
      {A B : Type 0} (m : Action Bus A) (f : A → Action Bus B)
      → Keeps P m
      → ((a : A) → Keeps P (f a))
      → Keeps P (m >>= f)
  bind-Keeps m f km kf = record {
    keeps = λ b h. elim (Result-cases (m b).0) [
      | inl (a, e) ↦ rw (e, ◌>>=◌) ((kf a).keeps (m b).1 (km.keeps b h))
      | inr (x, e) ↦ rw (e, ◌>>=◌) (km.keeps b h)
    ];
  }

  pub then-Keeps :
      {A B : Type 0} (m : Action Bus A) (k : Action Bus B)
      → Keeps P m
      → Keeps P k
      → Keeps P (m >> k)
  then-Keeps m k km kk = bind-Keeps m (λ _. k) km (λ _. kk)

  pub catch-Keeps :
      {A : Type 0} (m : Action Bus A) (fallback : A) → Keeps P m → Keeps P (catch m fallback)
  catch-Keeps m fallback km = record {
    keeps = λ b h. elim (Result-cases (m b).0) [
      | inl (a, e) ↦ rw (e, catch) (km.keeps b h)
      | inr (x, e) ↦ rw (e, catch) (km.keeps b h)
    ];
  }

  -- What follows a call whose failure is ignored.
  pub after_catch :
      (Q : Bus → Type 0) {A B : Type 0} (m : Action Bus A) (fallback : A) (k : Action Bus B)
      → Keeps P m
      → ((b : Bus) → P b → Q (k b).1)
      → (b : Bus) → P b
      → Q ((catch m fallback >> k) b).1
  after_catch Q m fallback k km kk b h = elim (Result-cases (m b).0) [
    | inl (a, e) ↦
        rw (e, ◌>>◌, ◌>>=◌, catch)
          (kk (catch m fallback b).1 ((catch-Keeps m fallback km).keeps b h))
    | inr (x, e) ↦
        rw (e, ◌>>◌, ◌>>=◌, catch)
          (kk (catch m fallback b).1 ((catch-Keeps m fallback km).keeps b h))
  ]

  pub throw_if-Keeps : (test : Bool) (e : CanFdError) → Keeps P (throw_if test e)
  throw_if-Keeps true e = record { keeps = λ b h. h }
  throw_if-Keeps false e = record { keeps = λ b h. h }

  pub from_result-Keeps : {A : Type 0} (r : Result A) → Keeps P (from_result r)
  from_result-Keeps r = record { keeps = λ b h. h }

-- What holds behind a part of a call: `P` where it throws, `S` where it returns.
abbrev pub Outcome : (P S : Bus → Type 0) {A : Type 0} → Result A × Bus → Type 0
Outcome P S (ok a, c) = S c
Outcome P S (err e, c) = P c

pub record Ends (P S : Bus → Type 0) {A : Type 0} (m : Action Bus A) : Type 0 where
  pub ends : (b : Bus) → P b → Outcome P S (m b)

module _ (P S : Bus → Type 0) where
  pub bind-Ends :
      {A B : Type 0} (m : Action Bus A) (f : A → Action Bus B)
      → Keeps P m
      → ((a : A) → Ends P S (f a))
      → Ends P S (m >>= f)
  bind-Ends m f km kf = record {
    ends = λ b h. elim (Result-cases (m b).0) [
      | inl (a, e) ↦ rw (e, ◌>>=◌) ((kf a).ends (m b).1 (km.keeps b h))
      | inr (x, e) ↦ rw (e, ◌>>=◌) (km.keeps b h)
    ];
  }

  pub then-Ends :
      {A B : Type 0} (m : Action Bus A) (k : Action Bus B)
      → Keeps P m
      → Ends P S k
      → Ends P S (m >> k)
  then-Ends m k km kk = bind-Ends m (λ _. k) km (λ _. kk)

same_outcome : (P : Bus → Type 0) {A : Type 0} (r : Result A × Bus) → Outcome P P r → P r.1
same_outcome P (ok a, c) h = h
same_outcome P (err e, c) h = h

pub Ends-Keeps : (P : Bus → Type 0) {A : Type 0} (m : Action Bus A) → Ends P P m → Keeps P m
Ends-Keeps P m h = record { keeps = λ b p. same_outcome P (m b) (h.ends b p) }

-- A property of the transport, the flag and the log.
abbrev pub IsAt : (Q : Option UsbTransport → Bool → Log → Type 0) → Bus → Type 0
IsAt Q b = Q b.impl.transport b.impl.started b.log

-- A sound bus whose transport is open.
abbrev pub IsLive : (base : ℕ → ℕ) → Option UsbTransport → Bool → Log → Type 0
IsLive base t started log =
    ((key : ℕ) → open_handles key log ≡ base key + elim t [ none ↦ 0 | some u ↦ holds key u ])
    × ((elim t [ none ↦ false | some u ↦ transport_is_open u ]) ≡ true)

pub IsLive-IsSound : (base : ℕ → ℕ) (b : Bus) → IsAt (IsLive base) b → IsSound base b
IsLive-IsSound base b live = (live.0, λ _. live.1)

-- The calls that leave the handles alone.
pub lift-IsSound :
    {A : Type 0} (base : ℕ → ℕ) (m : Action Log A)
    → ((key : ℕ) (log : Log) → open_handles key (m log).1 ≡ open_handles key log)
    → Keeps (IsSound base) (lift m)
lift-IsSound base m quiet = record { keeps = λ b h. (λ key. quiet key b.log ∙ h.0 key, h.1) }

module _ (usb : Libusb) (key : ℕ) where
  pub control_with-balance :
      (handle : Option ℕ) (req : ControlRequest) (log : Log)
      → open_handles key (control_with usb handle req log).1 ≡ open_handles key log
  unfolding control_with
  control_with-balance handle req log = refl

  pub bulk_write-balance :
      (handle : Option ℕ) (ep : ℕ) (bytes : List ℕ) (size timeout : ℕ) (log : Log)
      → open_handles key (bulk_write usb handle ep bytes size timeout log).1 ≡ open_handles key log
  unfolding bulk_write
  bulk_write-balance handle ep bytes size timeout log = refl

  pub bulk_read-balance :
      (handle : Option ℕ) (ep : ℕ) (bytes : List ℕ) (size timeout : ℕ) (log : Log)
      → open_handles key (bulk_read usb handle ep bytes size timeout log).1 ≡ open_handles key log
  unfolding bulk_read
  bulk_read-balance handle ep bytes size timeout log = refl

pub control_with-IsLive :
    (usb : Libusb) (base : ℕ → ℕ) (t : Option UsbTransport) (started : Bool) (handle : Option ℕ)
    (req : ControlRequest) (log : Log)
    → IsLive base t started log
    → IsLive base t started (control_with usb handle req log).1
unfolding control_with
control_with-IsLive usb base t started handle req log h = h
