-- ===== src/Device/Lifecycle/Phases/Cases.antt =====
-- The three cases of a sound bus, by its transport and its flag.
use gsusb_canfd.Prelude.{
  ◌≡◌, refl, Bool, true, false, Option, none, some, if◌then◌else◌, Bool-cases, inl, inr, subst,
}
use gsusb_canfd.Errors.{CanFdError, Result, err}
use gsusb_canfd.Usb.{Log}
use gsusb_canfd.Usb.Transport.{UsbTransport, transport_is_open}
use gsusb_canfd.Device.State.{Impl, Bus, is_open}
use gsusb_canfd.Device.Traffic.{started_transport}
use gsusb_canfd.Effects.{Action}
use gsusb_canfd.Device.Lifecycle.{IsAt, Keeps}
use gsusb_canfd.Device.Lifecycle.Phases.{
  Phase, closed, opened, started, phase_of, Kind, transferring, Allows, threw,
}

-- A started bus is open.
abbrev pub IsStraight : Impl → Type 0
IsStraight impl = impl.started ≡ true → is_open impl ≡ true

-- The transport is open or not, and the flag is set or not.
abbrev pub HasFlags : (is_there flag : Bool) → Option UsbTransport → Bool → Log → Type 0
HasFlags is_there flag t on log =
    ((elim t [ none ↦ false | some u ↦ transport_is_open u ]) ≡ is_there) × (on ≡ flag)

pub phase_at :
    (is_there flag : Bool) (b : Bus)
    → IsAt (HasFlags is_there flag) b
    → phase_of b.impl ≡ (if is_there then (if flag then started else opened) else closed)
phase_at is_there flag b (e, e') = rw (e, e', phase_of) refl

-- The three cases.
pub data Case (b : Bus) : Type 0 where
  is_closed : IsAt (HasFlags false false) b → Case b
  is_opened : IsAt (HasFlags true false) b → Case b
  is_started : IsAt (HasFlags true true) b → Case b

pub case_of : (b : Bus) → IsStraight b.impl → Case b
case_of b straight = elim (Bool-cases b.impl.started) [
  | inl on ↦ is_started (straight on, on)
  | inr off ↦ elim (Bool-cases (is_open b.impl)) [
    | inl there ↦ is_opened (there, off)
    | inr gone ↦ is_closed (gone, off)
  ]
]

-- A fact about the phases, put for the phases of two buses.
pub between :
    (k : Kind) (p q : Phase) (b c : Bus) (t : Bool)
    → phase_of b.impl ≡ p
    → phase_of c.impl ≡ q
    → Allows k p t q
    → Allows k (phase_of b.impl) t (phase_of c.impl)
between k p q b c t e e' h = rw (e, e') h

-- A call may end so.
abbrev pub Moved : Kind → Bus → {A : Type 0} → Result A × Bus → Type 0
Moved k b r = Allows k (phase_of b.impl) (threw r.0) (phase_of r.1.impl)

-- A transfer needs a bus that is started, and changes no phase.
module _ {A : Type 0} (m : Action Bus A)
    (refuses : (b : Bus) → started_transport b.impl ≡ none → (e : CanFdError) × ((err e, b) ≡ m b))
    (stays : Keeps (IsAt (HasFlags true true)) m) where
  pub transfer-Allows : (b : Bus) → Case b → Moved transferring b (m b)
  transfer-Allows b (is_closed h) =
      let (e, same) = refuses b (rw h.1 refl) in
      let p = phase_at false false b h in
      subst (Moved transferring b) same
        (between transferring closed closed b b true p p (refl, refl))
  transfer-Allows b (is_opened h) =
      let (e, same) = refuses b (rw h.1 refl) in
      let p = phase_at true false b h in
      subst (Moved transferring b) same
        (between transferring opened opened b b true p p (refl, refl))
  transfer-Allows b (is_started h) =
      between transferring started started b (m b).1 (threw (m b).0) (phase_at true true b h)
        (phase_at true true (m b).1 (stays.keeps b h)) refl
