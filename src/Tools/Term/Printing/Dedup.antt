-- ===== src/Tools/Term/Printing/Dedup.antt =====
-- Which of the received frames are printed while repeated payloads are hidden.
use gsusb_canfd.Prelude.{
  ℕ, ◌≡◌, refl, ap, ◌∙◌, Bool, true, not, ◌&&◌, List, [], ◌∷◌, ◌==◌, arith, if◌then◌else◌,
  Bool-cases, inl, inr,
}
use gsusb_canfd.Floats.{Double}
use gsusb_canfd.Text.{Bytes}
use gsusb_canfd.Frame.{CanFrame}
use gsusb_canfd.Usb.Text.{text_eq}
use gsusb_canfd.Tools.Term.{line, View, Term}
use gsusb_canfd.Tools.Term.Printing.{
  passes_filter, payload_of, store_payload, payload, look, received_line, print_rx, after_frames,
}

pub payload_of-store_payload :
    (m : List (ℕ × List ℕ)) (id other : ℕ) (bytes : List ℕ)
    → payload_of (store_payload m id bytes) other
      ≡ (if id == other then bytes else payload_of m other)
unfolding payload_of store_payload
payload_of-store_payload [] id other bytes = refl
payload_of-store_payload ((key, old) ∷ rest) id other bytes = elim (Bool-cases (key == id)) [
  | inl same ↦ rw (same, store_payload) (ground (arith, same))
  | inr differs ↦ ground (arith, differs, payload_of-store_payload rest id other bytes)
]

text_eq_sound : (s t : List ℕ) → text_eq s t ≡ true → s ≡ t
unfolding text_eq
text_eq_sound [] [] h = refl
text_eq_sound [] (y ∷ t) h = cc
text_eq_sound (x ∷ s) [] h = cc
text_eq_sound (x ∷ s) (y ∷ t) h = ground (arith, h, text_eq_sound s t)

module _ {D : Type 0} where
  -- What one frame leaves in the map.
  look-payload_of :
      (frame : CanFrame D) (view : View) (id : ℕ)
      → view.dedup ≡ true
      → payload_of (look frame view).1.last_payload id ≡ (
          if passes_filter view.filter frame.id && frame.id == id
          then payload frame
          else payload_of view.last_payload id)
  unfolding look
  look-payload_of frame view id on =
      let last = payload_of view.last_payload frame.id in
      elim (Bool-cases (passes_filter view.filter frame.id)) [
        | inr out ↦ rw (out, look) refl
        | inl through ↦ elim (Bool-cases (text_eq last (payload frame))) [
          | inl equal ↦
              rw (through, equal, on, look)
                (payload_of-store_payload view.last_payload frame.id id last
                  ∙ ap
                      (λ (bytes : List ℕ).
                        if frame.id == id then bytes else payload_of view.last_payload id)
                      (text_eq_sound last (payload frame) equal))
          | inr differs ↦
              rw (through, differs, on, look)
                (payload_of-store_payload view.last_payload frame.id id (payload frame))
        ]
      ]

  -- Whether a frame is printed.
  look-shown :
      (frame : CanFrame D) (view : View)
      → view.dedup ≡ true
      → (look frame view).0 ≡ (
          passes_filter view.filter frame.id
          && not (text_eq (payload_of view.last_payload frame.id) (payload frame)))
  unfolding look
  look-shown frame view on = ground (arith, on)

  look-settings :
      (frame : CanFrame D) (view : View)
      → ((look frame view).1.dedup ≡ view.dedup) × ((look frame view).1.filter ≡ view.filter)
  unfolding look
  look-settings frame view = ground arith

  -- The settings under which a frame is looked at.
  abbrev pub is_visible : (show_echo : Bool) (filter : List ℕ) → CanFrame D → Bool
  is_visible show_echo filter frame =
      not (frame.echo && not show_echo) && passes_filter filter frame.id

  -- The payload of the newest visible frame with an id; empty if there is none.
  unfoldable pub latest : (show_echo : Bool) (filter : List ℕ) → List (CanFrame D) → ℕ → List ℕ
  latest show_echo filter [] id = []
  latest show_echo filter (frame ∷ older) id =
      if is_visible show_echo filter frame && frame.id == id
      then payload frame
      else latest show_echo filter older id

module _ {D : Type 0} (F : Double D) (seconds : D → Bytes) where
  print_rx-view :
      (frame : CanFrame D) (t : Term D)
      → ((print_rx F seconds frame t).view
          ≡ (if frame.echo && not t.show_echo then t.view else (look frame t.view).1))
        × ((print_rx F seconds frame t).show_echo ≡ t.show_echo)
        × ((print_rx F seconds frame t).printed ≡ (
            if not (frame.echo && not t.show_echo) && (look frame t.view).0
            then line (received_line F seconds frame) ∷ t.printed
            else t.printed))
  unfolding print_rx
  print_rx-view frame t = elim (Bool-cases (frame.echo && not t.show_echo)) [
    | inl hidden ↦ rw (hidden, print_rx) (refl, refl, refl)
    | inr seen ↦ elim (Bool-cases (look frame t.view).0) [
      | inl shown ↦ rw (seen, shown, print_rx) (refl, refl, refl)
      | inr kept ↦ rw (seen, kept, print_rx) (refl, refl, refl)
    ]
  ]

  -- What the state remembers of the frames before.
  record Remembers (show_echo : Bool) (filter : List ℕ) (older : List (CanFrame D)) (t : Term D)
      : Type 0 where
    echo : t.show_echo ≡ show_echo
    dedup : t.view.dedup ≡ true
    filtered : t.view.filter ≡ filter
    payloads : (id : ℕ) → payload_of t.view.last_payload id ≡ latest show_echo filter older id

  print_rx-Remembers :
      (show_echo : Bool) (filter : List ℕ) (frame : CanFrame D) (older : List (CanFrame D))
      (t : Term D)
      → Remembers show_echo filter older t
      → Remembers show_echo filter (frame ∷ older) (print_rx F seconds frame t)
  unfolding latest
  print_rx-Remembers show_echo filter frame older t h =
      elim (Bool-cases (frame.echo && not t.show_echo)) [
        | inl hidden ↦
            let (view, echo, _) = print_rx-view frame t in
            let same : (print_rx F seconds frame t).view ≡ t.view = view ∙ rw hidden refl in
            record {
              echo = echo ∙ h.echo;
              dedup = ap (λ (v : View). v.dedup) same ∙ h.dedup;
              filtered = ap (λ (v : View). v.filter) same ∙ h.filtered;
              payloads = λ id. ground (
                arith,
                ap (λ (v : View). payload_of v.last_payload id) same,
                h.payloads id,
                hidden,
                h.echo,
              );
            }
        | inr seen ↦
            let (view, echo, _) = print_rx-view frame t in
            let same : (print_rx F seconds frame t).view ≡ (look frame t.view).1 =
              view ∙ rw seen refl in
            record {
              echo = echo ∙ h.echo;
              dedup = ap (λ (v : View). v.dedup) same ∙ (look-settings frame t.view).0 ∙ h.dedup;
              filtered =
                  ap (λ (v : View). v.filter) same ∙ (look-settings frame t.view).1 ∙ h.filtered;
              payloads = λ id. ground (
                arith,
                ap (λ (v : View). payload_of v.last_payload id) same,
                h.payloads id,
                seen,
                h.echo,
                h.filtered,
                look-payload_of frame t.view id h.dedup,
              );
            }
      ]

  after_frames-Remembers :
      (frames : List (CanFrame D)) (t : Term D)
      → t.view.dedup ≡ true
      → t.view.last_payload ≡ []
      → Remembers t.show_echo t.view.filter frames (after_frames F seconds frames t)
  unfolding after_frames latest payload_of
  after_frames-Remembers [] t on empty = record {
    echo = refl;
    dedup = on;
    filtered = refl;
    payloads = λ id. ap (λ (m : List (ℕ × List ℕ)). payload_of m id) empty;
  }
  after_frames-Remembers (frame ∷ older) t on empty =
      print_rx-Remembers t.show_echo t.view.filter frame older (after_frames F seconds older t)
        (after_frames-Remembers older t on empty)

  -- While repeated payloads are hidden, starting with nothing remembered, and whatever frames came
  -- before: a frame is printed exactly if it is no hidden echo, passes the filter, and its payload
  -- differs from that of the newest such frame with its identifier, where a frame that is not there
  -- counts as one with an empty payload.
  pub print_rx-dedup :
      (older : List (CanFrame D)) (frame : CanFrame D) (t : Term D)
      → t.view.dedup ≡ true
      → t.view.last_payload ≡ []
      → (print_rx F seconds frame (after_frames F seconds older t)).printed ≡ (
          if is_visible t.show_echo t.view.filter frame
            && not (text_eq (latest t.show_echo t.view.filter older frame.id) (payload frame))
          then line (received_line F seconds frame) ∷ (after_frames F seconds older t).printed
          else (after_frames F seconds older t).printed)
  print_rx-dedup older frame t on empty =
      let h = after_frames-Remembers older t on empty in
      let now = after_frames F seconds older t in
      let (_, _, printed) = print_rx-view frame now in
      printed
      ∙ ground (arith, look-shown frame now.view h.dedup, h.payloads frame.id, h.echo, h.filtered)
