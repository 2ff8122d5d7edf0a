-- ===== src/Tools/Term/Printing.antt =====
-- printFrame and printRx of canfd_term.cpp.
pub mod Dedup
use gsusb_canfd.Prelude.{
  ℕ, ◌-◌, Bool, true, false, not, ◌&&◌, ◌||◌, List, [], ◌∷◌, ◌++◌, ◌==◌, length, replicate, take,
  if◌then◌else◌,
}
use gsusb_canfd.Floats.{Double}
use gsusb_canfd.Text.{Bytes, codes}
use gsusb_canfd.Frame.{CanFrame}
use gsusb_canfd.Frame.Show.{to_string}
use gsusb_canfd.Usb.Text.{text_eq}
use gsusb_canfd.Tools.Payload.{format_bytes}
use gsusb_canfd.Tools.Term.{Notice, line, View, Term, say}

-- %-<width>s
abbrev pub pad_right : (width : ℕ) → Bytes → Bytes
pad_right width text = text ++ replicate (width - length text) 32

-- std::find over g_filter
unfoldable pub contains_id : List ℕ → ℕ → Bool
contains_id [] id = false
contains_id (x ∷ xs) id = x == id || contains_id xs id

-- A filter without ids lets every id through.
unfoldable pub passes_filter : List ℕ → ℕ → Bool
unfolding contains_id
passes_filter [] id = true
passes_filter (x ∷ xs) id = contains_id (x ∷ xs) id

-- std::map: the payload under an id, where a missing one is made and is empty, and storing one.
unfoldable pub payload_of : List (ℕ × List ℕ) → ℕ → List ℕ
payload_of [] id = []
payload_of ((key, bytes) ∷ rest) id = if key == id then bytes else payload_of rest id

unfoldable pub store_payload : List (ℕ × List ℕ) → ℕ → List ℕ → List (ℕ × List ℕ)
store_payload [] id bytes = (id, bytes) ∷ []
store_payload ((key, old) ∷ rest) id bytes =
    if key == id then (key, bytes) ∷ rest else (key, old) ∷ store_payload rest id bytes

module _ {D : Type 0} where
  -- The bytes of a frame up to its size.
  abbrev pub payload : CanFrame D → List ℕ
  payload frame = take frame.size frame.bytes

  -- The part of printRx under the lock of the view: whether the frame is printed.
  unfoldable pub look : CanFrame D → View → Bool × View
  look frame view =
      if not (passes_filter view.filter frame.id)
      then (false, view)
      else if not view.dedup
      then (true, view)
      else if text_eq (payload_of view.last_payload frame.id) (payload frame)
      then (
        false,
        record view {
          last_payload =
              store_payload view.last_payload frame.id (payload_of view.last_payload frame.id);
        },
      )
      else (
        true,
        record view { last_payload = store_payload view.last_payload frame.id (payload frame) },
      )

module _ {D : Type 0} (F : Double D) (seconds : D → Bytes) where
  -- printFrame
  unfoldable pub print_frame : CanFrame D → Term D → Term D
  print_frame frame t =
      say
        (line (
          codes "TX  "
          ++ (pad_right 28 (format_bytes frame) ++ (codes " " ++ to_string F seconds frame))))
        t

  abbrev pub received_line : CanFrame D → Bytes
  received_line frame =
      (if frame.echo then codes "ec" else codes "RX") ++ (codes "  " ++ to_string F seconds frame)

  -- printRx, called with state.show_echo
  unfoldable pub print_rx : CanFrame D → Term D → Term D
  print_rx frame t =
      if frame.echo && not t.show_echo
      then t
      else let (shown, view) = look frame t.view in
        let t = record t { view = view } in if shown then say (line (received_line frame)) t else t

  -- The state behind the frames of a list, newest first.
  unfoldable pub after_frames : List (CanFrame D) → Term D → Term D
  after_frames [] t = t
  after_frames (frame ∷ older) t = print_rx frame (after_frames older t)
