-- ===== src/Frame/Show.antt =====
-- CanFrame::toString of src/frame.cpp. `seconds` is what printf("%.6f") prints of a double.
use gsusb_canfd.Prelude.{ℕ, zero, suc, ◌+◌, Bool, List, [], ◌++◌, take, ltb, if◌then◌else◌}
use gsusb_canfd.Prelude.Store.{byte_at}
use gsusb_canfd.Floats.{Double}
use gsusb_canfd.Text.{Bytes, codes}
use gsusb_canfd.Text.Print.{print_hex, print_unsigned}
use gsusb_canfd.Frame.{CanFrame}

-- The loop over the payload: two digits for each byte, with a blank between bytes.
unfoldable pub show_bytes : (left i size : ℕ) → List ℕ → Bytes
show_bytes zero i size bytes = []
show_bytes (suc left) i size bytes =
    print_hex 2 (byte_at bytes i)
    ++ ((if ltb (i + 1) size then codes " " else []) ++ show_bytes left (suc i) size bytes)

abbrev pub show_id : (id : ℕ) (extended : Bool) → Bytes
show_id id extended = if extended then print_hex 8 id ++ codes "X" else print_hex 3 id

module _ {D : Type 0} (F : Double D) (seconds : D → Bytes) where
  -- snprintf into a buffer of 32 bytes keeps 31.
  abbrev pub show_time : D → Bytes
  show_time timestamp =
      if F.lt (F.literal 0 0) timestamp then take 31 (codes "  @" ++ seconds timestamp) else []

  unfoldable pub to_string : CanFrame D → Bytes
  to_string frame =
      show_id frame.id frame.extended
      ++ ((if frame.fd then codes "  [FD]" else codes "  [  ]")
          ++ (codes "  ["
              ++ (print_unsigned 2 frame.size
                  ++ (codes "]  "
                      ++ (show_bytes frame.size 0 frame.size frame.bytes
                          ++ show_time frame.timestamp)))))
