-- ===== src/Tests/Terminal.antt =====
-- The terminal and its texts.
use gsusb_canfd.Prelude.{
  ℕ, ◌<◌, ◌≡◌, refl, true, false, not, ◌&&◌, some, List, [], ◌∷◌, ◌++◌, arith, length, take,
  replicate, if◌then◌else◌, get_or-replicate, suc, zero,
}
use gsusb_canfd.Prelude.Int.{ℤ, pos}
use gsusb_canfd.Prelude.Store.{byte_at}
use gsusb_canfd.Errors.{ok}
use gsusb_canfd.Text.{Bytes, codes}
use gsusb_canfd.Text.Print.{print_hex}
use gsusb_canfd.Frame.{CanFrame, encode_frame, decode_frame}
use gsusb_canfd.Usb.Text.{text_eq}
use gsusb_canfd.Device.Worker.{idle}
use gsusb_canfd.Tools.Payload.{parse_data, format_bytes}
use gsusb_canfd.Tools.Payload.RoundTrip.{parse_data-format_bytes}
use gsusb_canfd.Tools.HexId.{marked, parse_hex_id}
use gsusb_canfd.Tools.HexId.Parsed.{within_29, parse_hex_id-print_hex}
use gsusb_canfd.Tools.Term.{line, Term, new_term}
use gsusb_canfd.Tools.Term.Printing.{payload, received_line, print_rx, after_frames}
use gsusb_canfd.Tools.Term.Printing.Dedup.{is_visible, latest, print_rx-dedup}
use gsusb_canfd.Tools.Term.Send.{frame_of}
use gsusb_canfd.Tools.Term.Send.Kept.{IsKept, frame_of-IsKept}
use gsusb_canfd.Tests.Fixed.{fixed}
use gsusb_canfd.Tests.Frames.{one_byte}
use gsusb_canfd.Tests.Adapter.{selector, busy}
use gsusb_canfd.Tests.Devices.{running, config}

-- A stand-in for printf("%.6f").
abbrev pub seconds : ℤ → Bytes
seconds time = codes "0.000000"

abbrev pub atof : Bytes → ℤ
atof text = pos 0

-- A terminal on the running bus, which hides repeated payloads.
abbrev session : Term ℤ
session =
    let t : Term ℤ = new_term selector config false busy in
    record t { bus = some (idle running); view = record t.view { dedup = true } }

small : (j : ℕ) → byte_at one_byte.bytes j < 256
small zero = omega arith
small (suc j) = omega (arith, get_or-replicate {A = ℕ} 63 j 0)

parse_data-format_bytes_example :
    parse_data (format_bytes one_byte) ≡ take 1 (0x5A ∷ replicate 63 0)
parse_data-format_bytes_example = parse_data-format_bytes one_byte (omega arith) small

parse_hex_id-print_hex_example :
    (parse_hex_id (print_hex 3 0x123) ≡ marked false (within_29 0x123))
    × (parse_hex_id (codes "ext:" ++ print_hex 3 0x123) ≡ marked true (within_29 0x123))
    × (parse_hex_id (codes "0x" ++ print_hex 3 0x123) ≡ marked false (within_29 0x123))
parse_hex_id-print_hex_example = parse_hex_id-print_hex 3 0x123 (omega arith)

print_rx-dedup_example :
    (print_rx fixed seconds one_byte (after_frames fixed seconds (one_byte ∷ []) session)).printed
    ≡ (if is_visible session.show_echo session.view.filter one_byte
          && not (
              text_eq
                (latest session.show_echo session.view.filter (one_byte ∷ []) one_byte.id)
                (payload one_byte))
        then line (received_line fixed seconds one_byte)
          ∷ (after_frames fixed seconds (one_byte ∷ []) session).printed
        else (after_frames fixed seconds (one_byte ∷ []) session).printed)
print_rx-dedup_example = print_rx-dedup fixed seconds (one_byte ∷ []) one_byte session refl refl

frame_of-IsKept_example :
    (out : List ℕ) × (got : CanFrame ℤ) × (encode_frame
        (record (frame_of fixed session 0x1ABCDEF (0x11 ∷ 0x22 ∷ []) false) { channel = 1 })
        1
      ≡ ok out)
    × (decode_frame fixed (pos 7) out (length out) false ≡ ok got)
    × IsKept 0x1ABCDEF (0x11 ∷ 0x22 ∷ []) false got
frame_of-IsKept_example =
    frame_of-IsKept fixed (pos 7) session 0x1ABCDEF (0x11 ∷ 0x22 ∷ []) false 1 1 (omega arith)
      (omega arith) (omega arith)
