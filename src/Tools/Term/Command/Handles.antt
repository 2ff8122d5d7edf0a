-- ===== src/Tools/Term/Command/Handles.antt =====
-- The handles over a command of the terminal.
use gsusb_canfd.Prelude.{
  ℕ, ◌≡◌, sym, subst, ap, ◌∙◌, Bool, true, false, ◌||◌, Option, List, [], ◌∷◌, Bool-cases,
  Option-cases, inl, inr,
}
use gsusb_canfd.Errors.{Result, ok, err}
use gsusb_canfd.Floats.{Double}
use gsusb_canfd.Text.{Bytes, codes}
use gsusb_canfd.Text.Scan.{atoi}
use gsusb_canfd.Frame.{CanFrame}
use gsusb_canfd.Usb.{Libusb, Log}
use gsusb_canfd.Usb.Text.{to_lower}
use gsusb_canfd.Usb.Discovery.{AdapterInfo, scan_adapters}
use gsusb_canfd.Usb.Discovery.Balance.{open_handles, scan_adapters-balance}
use gsusb_canfd.Device.State.{Bus}
use gsusb_canfd.Device.Traffic.{Clock, send}
use gsusb_canfd.Device.Lifecycle.{IsSound}
use gsusb_canfd.Device.Lifecycle.Transfers.{send-IsSound}
use gsusb_canfd.Device.Worker.{Shared}
use gsusb_canfd.Tools.Payload.{parse_hex_bytes}
use gsusb_canfd.Tools.HexId.{parse_hex_id}
use gsusb_canfd.Tools.Term.{Term, log_in, log_of, with_log}
use gsusb_canfd.Tools.Term.Printing.{print_frame}
use gsusb_canfd.Tools.Term.Send.{frame_of, after_send, send_frame}
use gsusb_canfd.Tools.Term.Command.{
  Command, quit, help, clear, scan, open_index, fd, brs, echo, identifier, payload, wait, filter,
  dedup, transmit, unknown, command_of, switched, switch_of, set_fd, set_brs, set_echo, set_dedup,
  first_is, rest_of, set_id, after_scan, open_command, send_words, send_command, execute,
  handle_command,
}
use gsusb_canfd.Tools.Term.Handles.{IsTidyBus, IsTidy, with_bus, without_bus, open_device-IsAttempt}

module _ {D : Type 0} (base : ℕ → ℕ) where
  with_log-IsTidy :
      (log : Log) (t : Term D)
      → ((key : ℕ) → open_handles key log ≡ open_handles key (log_of t))
      → IsTidy base t
      → IsTidy base (with_log log t)
  with_log-IsTidy log t same h = elim (Option-cases t.bus) [
    | inl e ↦
        let clear : (key : ℕ) → open_handles key log ≡ base key = λ key.
          same key
          ∙ ap (λ (o : Option (Shared D)). open_handles key (log_in o t.log)) e
          ∙ without_bus base t e h key in
        rw (e, with_log) (subst (λ (o : Option (Shared D)). IsTidyBus base o log) (sym e) clear)
    | inr (s, e) ↦
        let sound = with_bus base t s e h in
        rw (e, with_log)
          (
            λ key.
                same key
                ∙ ap (λ (o : Option (Shared D)). open_handles key (log_in o t.log)) e
                ∙ sound.0 key,
            sound.1,
          )
  ]

  set_id-IsTidy : (args : List Bytes) (t : Term D) → IsTidy base t → IsTidy base (set_id args t)
  set_id-IsTidy [] t h = h
  set_id-IsTidy (token ∷ tokens) t h = elim (Option-cases (parse_hex_id token)) [
    | inl e ↦ rw (e, set_id) h
    | inr (a, e) ↦ rw (e, set_id) h
  ]

  switched-IsTidy :
      (name : Bytes) (now : Bool) (set_to : Bool → Term D → Term D) (args : List Bytes) (t : Term D)
      → ((on : Bool) → IsTidy base (set_to on t))
      → IsTidy base t
      → IsTidy base (switched name now set_to args t)
  switched-IsTidy name now set_to args t sets h = elim (Option-cases (switch_of args)) [
    | inl e ↦ rw (e, switched) h
    | inr (on, e) ↦ rw (e, switched) (sets on)
  ]

module _ {D : Type 0} (F : Double D) (seconds : D → Bytes) (usb : Libusb) (base : ℕ → ℕ) where
  after_send-IsTidy :
      (frame : CanFrame D) (s : Shared D) (t : Term D) (r : Result (Unit {0}) × Bus)
      → IsSound base r.1
      → IsTidy base (after_send F seconds usb frame s t r).1
  unfolding print_frame
  after_send-IsTidy frame s t (ok done, b) h = h
  after_send-IsTidy frame s t (err e, b) h = h

  send_frame-IsTidy :
      (id : ℕ) (bytes : List ℕ) (force : Bool) (t : Term D)
      → IsTidy base t
      → IsTidy base (send_frame F seconds usb id bytes force t).1
  unfolding send_frame
  send_frame-IsTidy id bytes force t h = elim (Option-cases t.bus) [
    | inl e ↦ rw (e, send_frame) h
    | inr (s, e) ↦
        let frame = frame_of F t id bytes force in
        rw (e, send_frame)
          (after_send-IsTidy frame s t (send usb frame t.show_echo s.bus)
            ((send-IsSound F usb base frame t.show_echo).keeps s.bus (with_bus base t s e h)))
  ]

module _ {D : Type 0} (F : Double D) (seconds : D → Bytes) (atof : Bytes → D) (usb : Libusb)
    (clock : Clock D) (fuel : ℕ) (base : ℕ → ℕ) where
  after_scan-IsTidy :
      (r : Result (List AdapterInfo) × Log) (t : Term D)
      → IsTidy base (with_log r.1 t)
      → IsTidy base (after_scan F seconds atof usb clock fuel r t).1
  after_scan-IsTidy (ok found, log) t h = h
  after_scan-IsTidy (err e, log) t h = h

  send_words-IsTidy :
      (force : Bool) (args : List Bytes) (t : Term D)
      → IsTidy base t
      → IsTidy base (send_words F seconds atof usb clock fuel force args t).1
  unfolding send_words
  send_words-IsTidy force [] t h =
      send_frame-IsTidy F seconds usb base t.default_id t.default_data force t h
  send_words-IsTidy force (token ∷ tokens) t h = elim (Option-cases (parse_hex_id token)) [
    | inl e ↦ rw (e, send_words) h
    | inr ((id, prefixed), e) ↦
        rw (e, send_words)
          (send_frame-IsTidy F seconds usb base id (parse_hex_bytes tokens) (force || prefixed) t h)
  ]

  open_command-IsTidy :
      (args : List Bytes) (t : Term D)
      → IsTidy base t
      → IsTidy base (open_command F seconds atof usb clock fuel args t)
  open_command-IsTidy [] t h = h
  open_command-IsTidy (token ∷ tokens) t h =
      (open_device-IsAttempt F seconds usb clock fuel base (atoi token) t h).0

  execute-IsTidy :
      (c : Command) (cmd : Bytes) (args : List Bytes) (t : Term D)
      → IsTidy base t
      → IsTidy base (execute F seconds atof usb clock fuel c cmd args t).1
  unfolding execute
  execute-IsTidy quit cmd args t h = h
  execute-IsTidy help cmd args t h = h
  execute-IsTidy clear cmd args t h = h
  execute-IsTidy scan cmd args t h = after_scan-IsTidy (scan_adapters usb 0 0 (log_of t)) t (
      with_log-IsTidy base (scan_adapters usb 0 0 (log_of t)).1 t
        (λ key. scan_adapters-balance usb key 0 0 (log_of t)) h)
  execute-IsTidy open_index cmd args t h = open_command-IsTidy args t h
  execute-IsTidy fd cmd args t h = switched-IsTidy base cmd t.config.fd set_fd args t (λ on. h) h
  execute-IsTidy brs cmd args t h = switched-IsTidy base cmd t.brs set_brs args t (λ on. h) h
  execute-IsTidy echo cmd args t h =
      switched-IsTidy base cmd t.show_echo set_echo args t (λ on. h) h
  execute-IsTidy identifier cmd args t h = set_id-IsTidy base args t h
  execute-IsTidy payload cmd args t h = h
  execute-IsTidy wait cmd args t h = h
  execute-IsTidy filter cmd args t h = h
  execute-IsTidy dedup cmd args t h =
      switched-IsTidy base cmd t.view.dedup set_dedup args t (λ on. h) h
  execute-IsTidy transmit cmd args t h = elim (Bool-cases (first_is (codes "ext") args)) [
    | inl e ↦ rw (e, send_command) (send_words-IsTidy true (rest_of args) t h)
    | inr e ↦ rw (e, send_command) (send_words-IsTidy false args t h)
  ]
  execute-IsTidy unknown cmd args t h = h

  pub handle_command-IsTidy :
      (tokens : List Bytes) (t : Term D)
      → IsTidy base t
      → IsTidy base (handle_command F seconds atof usb clock fuel tokens t).1
  unfolding handle_command
  handle_command-IsTidy [] t h = h
  handle_command-IsTidy (token ∷ tokens) t h =
      execute-IsTidy (command_of (to_lower token)) (to_lower token) tokens t h
