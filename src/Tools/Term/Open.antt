-- ===== src/Tools/Term/Open.antt =====
-- printAdapters, openDevice and chooseDevice of canfd_term.cpp.
use gsusb_canfd.Prelude.{
  ℕ, Bool, true, false, Option, none, some, List, [], ◌∷◌, length, if◌then◌else◌, ◌||◌, not,
}
use gsusb_canfd.Prelude.Int.{ℤ, pos, negsuc, ltb_ℤ, is_neg}
use gsusb_canfd.Errors.{Result, ok, err}
use gsusb_canfd.Effects.{Action, ◌>>◌}
use gsusb_canfd.Floats.{Double}
use gsusb_canfd.Text.{Bytes}
use gsusb_canfd.Text.Scan.{strtol}
use gsusb_canfd.Usb.{Libusb}
use gsusb_canfd.Usb.Text.{is_empty}
use gsusb_canfd.Usb.Discovery.{AdapterInfo}
use gsusb_canfd.Device.State.{Impl, Bus, BusConfig, input_endpoint, output_endpoint}
use gsusb_canfd.Device.Open.{open_bus}
use gsusb_canfd.Device.Configure.{configure, close_bus}
use gsusb_canfd.Device.Traffic.{Clock}
use gsusb_canfd.Device.Lifecycle.Machine.{fresh}
use gsusb_canfd.Device.Worker.{
  Worker, no_thread, testing, receiving, ended, delivering, Shared, idle, start, begin_stop, joined,
  step_worker,
}
use gsusb_canfd.Tools.Term.{
  Notice, only_one, invalid_selection, choice, opened, open_failed, Term, say,
}
use gsusb_canfd.Tools.Term.Line.{trim}
use gsusb_canfd.Tools.Term.Printing.{print_rx}

unfoldable pub valid_choice : ℤ → List AdapterInfo → Bool
valid_choice value found = not (is_neg value || not (ltb_ℤ value (pos (length found))))

abbrev pub head_line : List Bytes → Option Bytes
head_line [] = none
head_line (text ∷ lines) = some text

abbrev pub tail_lines : List Bytes → List Bytes
tail_lines [] = []
tail_lines (text ∷ lines) = lines

module _ {D : Type 0} where
  -- A call of the bus that the receive thread shares.
  abbrev pub on_bus : {A : Type 0} → Action Bus A → Action (Shared D) A
  on_bus m s = let (r, b) = m s.bus in (r, record s { bus = b })

  abbrev pub opened_notice : ℤ → Impl → BusConfig D → Notice D
  opened_notice index impl config =
      opened index (input_endpoint impl) (output_endpoint impl) impl.fclk_can impl.feature
        config.bitrate config.data_bitrate impl.is_fd

  -- What is typed at the choice; `none` is the end of the input.
  unfoldable pub choose_line : List AdapterInfo → Option Bytes → Term D → ℤ × Term D
  choose_line found none t = (pos 0, t)
  choose_line found (some text) t =
      if is_empty (trim text)
      then (pos 0, t)
      else if valid_choice (strtol (trim text)) found
      then (strtol (trim text), t)
      else (pos 0, say invalid_selection t)

  -- chooseDevice, on the lines of the input; what is left of them is returned.
  unfoldable pub choose_device : List AdapterInfo → List Bytes → Term D → (ℤ × Term D) × List Bytes
  choose_device [] lines t = ((negsuc 0, t), lines)
  choose_device (a ∷ []) lines t = ((pos 0, say only_one t), lines)
  choose_device (a ∷ b ∷ found) lines t = (
    choose_line (a ∷ b ∷ found) (head_line lines) (say (choice (length (b ∷ found))) t),
    tail_lines lines,
  )

module _ {D : Type 0} (F : Double D) (seconds : D → Bytes) (usb : Libusb) (clock : Clock D)
    (fuel : ℕ) where
  -- What the callback prints in a step of the thread.
  abbrev pub heard : Worker D → (has_callback : Bool) → Term D → Term D
  heard (delivering frame) true t = print_rx F seconds frame t
  heard (delivering frame) false t = t
  heard no_thread has_callback t = t
  heard testing has_callback t = t
  heard receiving has_callback t = t
  heard ended has_callback t = t

  -- A step of the receive thread.
  unfoldable pub background : Term D → Term D
  background t = elim t.bus [
    | none ↦ t
    | some s ↦
        heard s.worker s.has_callback (record t { bus = some (step_worker F usb clock fuel s) })
  ]

  -- The join, the rest of CanFdBus::stop, CanFdBus::close, and the end of the bus.
  abbrev pub finish : (was_running : Bool) → Term D → Term D
  finish was t = elim t.bus [
    | none ↦ t
    | some s ↦ record t { bus = none; log = (close_bus usb (joined was s).bus).log }
  ]

  -- The bus is stopped, closed and destroyed. The thread is given three steps to end.
  unfoldable pub drop_bus : Term D → Term D
  drop_bus t = elim t.bus [
    | none ↦ t
    | some s ↦
        finish s.running
          (background (background (background (record t { bus = some (begin_stop s) }))))
  ]

  -- The calls of the try block.
  unfoldable pub bring_up : BusConfig D → Action (Shared D) (Unit {0})
  bring_up config = on_bus (open_bus usb) >> (on_bus (configure F usb config) >> start)

  -- The end of the try block, and the handler. An exception destroys the new bus, whose thread has
  -- not been started.
  unfoldable pub opened_or_failed : ℤ → Result (Unit {0}) → Shared D → Term D → Bool × Term D
  opened_or_failed index (ok _) s t =
      (true, say (opened_notice index s.bus.impl t.config) (record t { bus = some s }))
  opened_or_failed index (err e) s t =
      (false, say (open_failed e.what) (record t { bus = none; log = (close_bus usb s.bus).log }))

  unfoldable pub open_device : ℤ → Term D → Bool × Term D
  open_device index t =
      let t = drop_bus t in
      let t = record t { selector = record t.selector { index = index } } in
      let (r, s) = bring_up t.config (idle (fresh t.selector t.log)) in opened_or_failed index r s t
