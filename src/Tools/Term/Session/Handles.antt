-- ===== src/Tools/Term/Session/Handles.antt =====
-- The handles over a session of the terminal.
use gsusb_canfd.Prelude.{
  ℕ, zero, suc, ◌≡◌, refl, sym, subst, Bool, true, false, Option, none, some, List, [], ◌∷◌, length,
  Bool-cases, inl, inr,
}
use gsusb_canfd.Errors.{Result, ok, err}
use gsusb_canfd.Floats.{Double}
use gsusb_canfd.Text.{Bytes}
use gsusb_canfd.Text.Scan.{strtol}
use gsusb_canfd.Usb.{Libusb, Log}
use gsusb_canfd.Usb.Text.{is_empty}
use gsusb_canfd.Usb.Discovery.{AdapterInfo, scan_adapters}
use gsusb_canfd.Usb.Discovery.Balance.{open_handles, scan_adapters-balance}
use gsusb_canfd.Device.Traffic.{Clock}
use gsusb_canfd.Device.Worker.{Shared}
use gsusb_canfd.Tools.Term.{
  Term, Outcome, continues, quits, undefined, throws, prompt, help_hint, say, new_term, adapters,
  choice,
}
use gsusb_canfd.Tools.Term.Line.{trim, tokens_of}
use gsusb_canfd.Tools.Term.Open.{open_device, choose_device, valid_choice, choose_line, background}
use gsusb_canfd.Tools.Term.Command.Handles.{handle_command-IsTidy}
use gsusb_canfd.Tools.Term.Handles.{
  IsTidyBus, IsTidy, background-IsTidy, IsGone, drop_bus-IsGone, IsAttempt, open_device-IsAttempt,
}
use gsusb_canfd.Tools.Term.Session.{
  Options, Surroundings, go_on, background_times, handle_line, run_lines, leave, run_opened, pick,
  run_scanned, after_scan_of_main, run_main,
}

module _ {D : Type 0} (base : ℕ → ℕ) where
  go_on-IsTidy :
      (r next : Outcome × Term D)
      → IsTidy base r.1
      → IsTidy base next.1
      → IsTidy base (go_on r next).1
  go_on-IsTidy (continues, t) next h k = k
  go_on-IsTidy (quits, t) next h k = h
  go_on-IsTidy (undefined, t) next h k = h
  go_on-IsTidy (throws e, t) next h k = h

module _ {D : Type 0} (F : Double D) (seconds : D → Bytes) (atof : Bytes → D) (usb : Libusb)
    (clock : Clock D) (fuel : ℕ) (around : Surroundings) (base : ℕ → ℕ) where
  times-IsTidy :
      (n : ℕ) (t : Term D)
      → IsTidy base t
      → IsTidy base (background_times F seconds atof usb clock fuel around n t)
  unfolding background_times
  times-IsTidy zero t h = h
  times-IsTidy (suc n) t h =
      times-IsTidy n (background F seconds usb clock fuel t)
        (background-IsTidy F seconds usb clock fuel base t h)

  handle_line-IsTidy :
      (text : Bytes) (t : Term D)
      → IsTidy base t
      → IsTidy base (handle_line F seconds atof usb clock fuel around text t).1
  unfolding handle_line
  handle_line-IsTidy text t h = elim (Bool-cases (is_empty (trim text))) [
    | inl e ↦ rw (e, handle_line) h
    | inr e ↦
        rw (e, handle_line)
          (handle_command-IsTidy F seconds atof usb clock fuel base (tokens_of (trim text)) t h)
  ]

  run_lines-IsTidy :
      (round : ℕ) (lines : List Bytes) (t : Term D)
      → IsTidy base t
      → IsTidy base (run_lines F seconds atof usb clock fuel around round lines t).1
  unfolding run_lines
  run_lines-IsTidy round [] t h = elim (Bool-cases (around.stopped round)) [
    | inl e ↦ rw (e, run_lines) h
    | inr e ↦ rw (e, run_lines) h
  ]
  run_lines-IsTidy round (text ∷ lines) t h = elim (Bool-cases (around.stopped round)) [
    | inl e ↦ rw (e, run_lines) h
    | inr e ↦
        let heard_line =
          background_times F seconds atof usb clock fuel around (around.turns round)
            (say prompt t) in
        let r = handle_line F seconds atof usb clock fuel around text heard_line in
        let done =
          handle_line-IsTidy text heard_line (times-IsTidy (around.turns round) (say prompt t) h) in
        rw (e, run_lines)
          (go_on-IsTidy base r
            (run_lines F seconds atof usb clock fuel around (suc round) lines r.1) done
            (run_lines-IsTidy (suc round) lines r.1 done))
  ]

  leave-IsGone :
      (o : Outcome) (t : Term D) (code : ℕ)
      → IsTidy base t
      → (leave F seconds atof usb clock fuel around (o, t)).0 ≡ some code
      → IsGone F seconds usb clock fuel base (leave F seconds atof usb clock fuel around (o, t)).1
  leave-IsGone undefined t code h e = cc
  leave-IsGone (throws x) t code h e = drop_bus-IsGone F seconds usb clock fuel base _ h
  leave-IsGone continues t code h e = drop_bus-IsGone F seconds usb clock fuel base _ h
  leave-IsGone quits t code h e = drop_bus-IsGone F seconds usb clock fuel base _ h

  run_opened-IsGone :
      (r : Bool × Term D) (lines : List Bytes) (code : ℕ)
      → IsAttempt F seconds usb clock fuel base r
      → (run_opened F seconds atof usb clock fuel around r lines).0 ≡ some code
      → IsGone F seconds usb clock fuel base
          (run_opened F seconds atof usb clock fuel around r lines).1
  unfolding run_opened
  run_opened-IsGone (false, t) lines code h e = h.1 refl
  run_opened-IsGone (true, t) lines code h e =
      let r = run_lines F seconds atof usb clock fuel around 0 lines (say help_hint t) in
      leave-IsGone r.0 r.1 code (run_lines-IsTidy 0 lines (say help_hint t) h.0) e

  choose_line-IsTidy :
      (found : List AdapterInfo) (text : Bytes) (t : Term D)
      → IsTidy base t
      → IsTidy base (choose_line found (some text) t).1
  unfolding choose_line
  choose_line-IsTidy found text t h = elim (Bool-cases (is_empty (trim text))) [
    | inl e ↦ rw (e, choose_line) h
    | inr e ↦ elim (Bool-cases (valid_choice (strtol (trim text)) found)) [
      | inl v ↦ rw (e, v, choose_line) h
      | inr v ↦ rw (e, v, choose_line) h
    ]
  ]

  -- The choice of a device changes what is printed only.
  choose_device-IsTidy :
      (found : List AdapterInfo) (lines : List Bytes) (t : Term D)
      → IsTidy base t
      → IsTidy base (choose_device found lines t).0.1
  unfolding choose_device choose_line
  choose_device-IsTidy [] lines t h = h
  choose_device-IsTidy (a ∷ []) lines t h = h
  choose_device-IsTidy (a ∷ b ∷ found) [] t h = h
  choose_device-IsTidy (a ∷ b ∷ found) (text ∷ lines) t h =
      choose_line-IsTidy (a ∷ b ∷ found) text (say (choice (length (b ∷ found))) t) h

  pick-IsTidy :
      (o : Options D) (found : List AdapterInfo) (lines : List Bytes) (t : Term D)
      → IsTidy base t
      → IsTidy base (pick F seconds atof usb clock fuel around o found lines t).0.1
  pick-IsTidy o found lines t h = elim (Bool-cases o.index_given) [
    | inl e ↦ rw (e, pick) h
    | inr e ↦ rw (e, pick) (choose_device-IsTidy found lines t h)
  ]

  run_scanned-IsGone :
      (o : Options D) (found : List AdapterInfo) (lines : List Bytes) (t : Term D) (code : ℕ)
      → t.bus ≡ none
      → ((key : ℕ) → open_handles key t.log ≡ base key)
      → (run_scanned F seconds atof usb clock fuel around o found lines t).0 ≡ some code
      → IsGone F seconds usb clock fuel base
          (run_scanned F seconds atof usb clock fuel around o found lines t).1
  unfolding run_scanned
  run_scanned-IsGone o [] lines t code none_yet kept e = (none_yet, kept)
  run_scanned-IsGone o (a ∷ found) lines t code none_yet kept e =
      let told = say (adapters (a ∷ found)) t in
      let tidy : IsTidy base told =
        subst (λ (b : Option (Shared D)). IsTidyBus base b t.log) (sym none_yet) kept in
      let p = pick F seconds atof usb clock fuel around o (a ∷ found) lines told in
      run_opened-IsGone (open_device F seconds usb clock fuel p.0.0 p.0.1) p.1 code
        (open_device-IsAttempt F seconds usb clock fuel base p.0.0 p.0.1
          (pick-IsTidy o (a ∷ found) lines told tidy))
        e

  after_scan-IsGone :
      (o : Options D) (lines : List Bytes) (t : Term D) (r : Result (List AdapterInfo) × Log)
      (code : ℕ)
      → t.bus ≡ none
      → ((key : ℕ) → open_handles key r.1 ≡ base key)
      → (after_scan_of_main F seconds atof usb clock fuel around o lines t r).0 ≡ some code
      → IsGone F seconds usb clock fuel base
          (after_scan_of_main F seconds atof usb clock fuel around o lines t r).1
  after_scan-IsGone o lines t (ok found, log) code none_yet kept e =
      run_scanned-IsGone o found lines (record t { log = log }) code none_yet kept e
  after_scan-IsGone o lines t (err x, log) code none_yet kept e = cc

-- However a session of the terminal ends with an exit code, for whatever input, surroundings and
-- answers of libusb, no bus is left, and for every device as many handles are open as before.
pub run_main-IsGone :
    {D : Type 0} (F : Double D) (seconds : D → Bytes) (atof : Bytes → D) (usb : Libusb)
    (clock : Clock D) (fuel : ℕ) (around : Surroundings) (o : Options D) (lines : List Bytes)
    (log : Log) (code : ℕ)
    → (run_main F seconds atof usb clock fuel around o lines log).0 ≡ some code
    → ((run_main F seconds atof usb clock fuel around o lines log).1.bus ≡ none)
      × ((key : ℕ)
          → open_handles key (run_main F seconds atof usb clock fuel around o lines log).1.log
            ≡ open_handles key log)
unfolding run_main
run_main-IsGone F seconds atof usb clock fuel around o lines log code e =
    after_scan-IsGone F seconds atof usb clock fuel around (λ key. open_handles key log) o lines
      (new_term o.selector o.config o.show_echo log) (scan_adapters usb 0 0 log) code refl
      (λ key. scan_adapters-balance usb key 0 0 log) e
