-- ===== src/Examples/Demo/Counts.antt =====
-- What the loop of canfd_demo.cpp counts and remembers, and what it prints for a frame.
pub mod Tallied
use gsusb_canfd.Prelude.{
  ℕ, ◌+◌, ◌-◌, ◌*◌, Bool, true, false, not, ◌&&◌, ◌||◌, Option, none, some, List, [], ◌∷◌, ◌==◌,
  ltb, leb, take, u32, if◌then◌else◌,
}
use gsusb_canfd.Prelude.Int.{ℤ, pos}
use gsusb_canfd.Floats.{Double}
use gsusb_canfd.Text.{Bytes}
use gsusb_canfd.Frame.{CanFrame}
use gsusb_canfd.Frame.Show.{to_string}
use gsusb_canfd.Usb.Text.{text_eq}
use gsusb_canfd.Examples.Demo.{Args, Notice, line, rate}

-- The variables of the loop; `last` is have_last with last_payload. Times are in nanoseconds.
pub record Tally : Type 0 where
  pub counts : List (ℕ × ℕ)
  pub last : Option (List ℕ)
  pub total : ℕ
  pub window : ℕ
  pub last_trigger : ℕ
  pub next_report : ℕ
  pub window_start : ℕ

-- ++counts[id] on a std::map, which is sorted by its keys.
unfoldable pub increment : (id : ℕ) → List (ℕ × ℕ) → List (ℕ × ℕ)
increment id [] = (id, 1) ∷ []
increment id ((key, count) ∷ rest) =
    if ltb id key
    then (id, 1) ∷ ((key, count) ∷ rest)
    else if id == key
    then (key, u32 (count + 1)) ∷ rest
    else (key, count) ∷ increment id rest

module _ {D : Type 0} where
  -- Whether the frame that was received is counted.
  abbrev pub is_wanted : Args D → CanFrame D → Bool
  is_wanted args frame = not frame.echo && not (args.filter_rx_id && not (frame.id == args.rx_id))

  abbrev pub payload : CanFrame D → List ℕ
  payload frame = take frame.size frame.bytes

  -- `changed`
  abbrev pub is_changed : CanFrame D → Option (List ℕ) → Bool
  is_changed frame none = true
  is_changed frame (some last) = not (text_eq (payload frame) last)

  abbrev pub count_frame : CanFrame D → Tally → Tally
  count_frame frame t = record t {
    counts = increment frame.id t.counts;
    total = u32 (t.total + 1);
    window = u32 (t.window + 1);
  }

  -- args.print_all || changed
  abbrev pub is_shown : Args D → CanFrame D → Tally → Bool
  is_shown args frame t = args.print_all || is_changed frame t.last

  module _ (F : Double D) (seconds : D → Bytes) where
    -- Seconds from a reading to a later one.
    abbrev pub elapsed : (since now : ℕ) → D
    elapsed since now = F.div (F.of_long (pos (now - since))) (F.literal 1000000000 0)

    abbrev pub rate_notice : (now : ℕ) → Tally → Notice D
    rate_notice now t =
        let time = elapsed t.window_start now in
        rate t.window time
          (if F.lt (F.literal 0 0) time then F.div (F.of_unsigned t.window) time else F.literal 0 0)

    -- The line of the frame, and the payload remembered.
    abbrev pub show_frame : Args D → CanFrame D → Tally → Tally × List (Notice D)
    show_frame args frame t =
        if is_shown args frame t
        then (record t { last = some (payload frame) }, line (to_string F seconds frame) ∷ [])
        else (t, [])

    -- The report where it is due.
    abbrev pub report : (now : ℕ) → Tally → List (Notice D) → Tally × List (Notice D)
    report now t lines =
        if leb t.next_report now
        then (
          record t { window = 0; window_start = now; next_report = now + 2 * 1000000000 },
          rate_notice now t ∷ lines,
        )
        else (t, lines)

    -- The loop's body behind the filter: the variables, and what is printed, newest first.
    unfoldable pub note_frame : Args D → (now : ℕ) → CanFrame D → Tally → Tally × List (Notice D)
    note_frame args now frame t =
        let (t, lines) = show_frame args frame (count_frame frame t) in report now t lines
