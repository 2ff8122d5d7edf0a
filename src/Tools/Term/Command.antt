-- ===== src/Tools/Term/Command.antt =====
-- handleCommand of canfd_term.cpp. `atof` is a parameter.
pub mod Handles
use gsusb_canfd.Prelude.{
  ℕ, Bool, true, false, not, ◌&&◌, ◌||◌, Option, none, some, List, [], ◌∷◌, ltb, length,
  if◌then◌else◌,
}
use gsusb_canfd.Prelude.Int.{ℤ, pos}
use gsusb_canfd.Errors.{CanFdError, Result, ok, err}
use gsusb_canfd.Floats.{Double}
use gsusb_canfd.Text.{Bytes, codes}
use gsusb_canfd.Text.Scan.{atoi}
use gsusb_canfd.Usb.{Libusb, Log}
use gsusb_canfd.Usb.Text.{to_lower, text_eq}
use gsusb_canfd.Usb.Discovery.{AdapterInfo, scan_adapters}
use gsusb_canfd.Device.State.{BusConfig}
use gsusb_canfd.Device.Traffic.{Clock}
use gsusb_canfd.Tools.Payload.{parse_hex_bytes}
use gsusb_canfd.Tools.HexId.{parse_hex_id}
use gsusb_canfd.Tools.Term.{
  Notice, adapters, help_text, cleared, usage_open, usage_id, is_now, becomes, id_becomes,
  data_becomes, filtering, invalid_id, unknown_command, slept, View, Term, Outcome, continues,
  quits, undefined, throws, say, log_of, with_log,
}
use gsusb_canfd.Tools.Term.Send.{send_frame}
use gsusb_canfd.Tools.Term.Open.{open_device}

-- The branches of the chain of tests.
pub data Command : Type 0 where
  quit help clear scan open_index fd brs echo identifier payload wait filter dedup transmit
        unknown :
      Command

abbrev pub is_word : Bytes → List Bytes → Bool
is_word cmd [] = false
is_word cmd (word ∷ words) = text_eq cmd word || is_word cmd words

-- The branch that a command, in lower case, takes.
unfoldable pub command_of : Bytes → Command
command_of cmd =
    if is_word cmd (codes "quit" ∷ codes "exit" ∷ codes "q" ∷ [])
    then quit
    else if is_word cmd (codes "help" ∷ codes "?" ∷ [])
    then help
    else if is_word cmd (codes "clear" ∷ [])
    then clear
    else if is_word cmd (codes "scan" ∷ [])
    then scan
    else if is_word cmd (codes "open" ∷ [])
    then open_index
    else if is_word cmd (codes "fd" ∷ [])
    then fd
    else if is_word cmd (codes "brs" ∷ [])
    then brs
    else if is_word cmd (codes "echo" ∷ [])
    then echo
    else if is_word cmd (codes "id" ∷ [])
    then identifier
    else if is_word cmd (codes "data" ∷ [])
    then payload
    else if is_word cmd (codes "wait" ∷ codes "sleep" ∷ [])
    then wait
    else if is_word cmd (codes "filter" ∷ [])
    then filter
    else if is_word cmd (codes "dedup" ∷ [])
    then dedup
    else if is_word cmd (codes "send" ∷ codes "s" ∷ [])
    then transmit
    else unknown

-- Whether the first word behind the command is this one, in any case.
abbrev pub first_is : Bytes → List Bytes → Bool
first_is word [] = false
first_is word (token ∷ tokens) = text_eq (to_lower token) word

-- The words behind the first.
abbrev pub rest_of : List Bytes → List Bytes
rest_of [] = []
rest_of (token ∷ tokens) = tokens

-- The value that a switch is given, if any.
abbrev pub switch_of : List Bytes → Option Bool
switch_of args =
    if first_is (codes "on") args
    then some true
    else if first_is (codes "off") args
    then some false
    else none

-- The identifiers of a filter; a word that is none is left out.
unfoldable pub filter_ids : List Bytes → List ℕ
filter_ids [] = []
filter_ids (token ∷ tokens) = elim (parse_hex_id token) [
  | none ↦ filter_ids tokens
  | some (id, forced) ↦ id ∷ filter_ids tokens
]

module _ {D : Type 0} where
  abbrev pub carry_on : Term D → Outcome × Term D
  carry_on t = (continues, t)

  -- "fd", "brs" and "echo": the value is shown, or set and shown.
  abbrev pub switched :
      Bytes → (now : Bool) → (set_to : Bool → Term D → Term D) → List Bytes → Term D → Term D
  switched name now set_to args t = elim (switch_of args) [
    | none ↦ say (is_now name now) t
    | some on ↦ say (becomes name on) (set_to on t)
  ]

  abbrev pub set_fd : Bool → Term D → Term D
  set_fd on t = record t { config = record t.config { fd = on } }

  abbrev pub set_brs : Bool → Term D → Term D
  set_brs on t = record t { brs = on }

  abbrev pub set_echo : Bool → Term D → Term D
  set_echo on t = record t { show_echo = on }

  abbrev pub set_dedup : Bool → Term D → Term D
  set_dedup on t = record t { view = record t.view { dedup = on; last_payload = [] } }

  abbrev pub set_id : List Bytes → Term D → Term D
  set_id [] t = say usage_id t
  set_id (token ∷ tokens) t = elim (parse_hex_id token) [
    | none ↦ say usage_id t
    | some (id, forced) ↦ say (id_becomes id (ltb 0x7FF id)) (record t { default_id = id })
  ]

  abbrev pub set_filter : List Bytes → Term D → Term D
  set_filter args t =
      let ids : List ℕ = if first_is (codes "off") args then [] else filter_ids args in
      say (filtering ids) (record t { view = record t.view { filter = ids } })

module _ {D : Type 0} (F : Double D) (seconds : D → Bytes) (atof : Bytes → D) (usb : Libusb)
    (clock : Clock D) (fuel : ℕ) where
  abbrev pub after_scan : Result (List AdapterInfo) × Log → Term D → Outcome × Term D
  after_scan (ok found, log) t = carry_on (say (adapters found) (with_log log t))
  after_scan (err e, log) t = (throws e, with_log log t)

  abbrev pub open_command : List Bytes → Term D → Term D
  open_command [] t = say usage_open t
  open_command (token ∷ tokens) t = (open_device F seconds usb clock fuel (atoi token) t).1

  abbrev pub wait_seconds : List Bytes → D
  wait_seconds [] = F.literal 1 0
  wait_seconds (token ∷ tokens) = atof token

  -- "send", from the id on.
  unfoldable pub send_words : (force_extended : Bool) → List Bytes → Term D → Outcome × Term D
  send_words force [] t = send_frame F seconds usb t.default_id t.default_data force t
  send_words force (token ∷ tokens) t = elim (parse_hex_id token) [
    | none ↦ carry_on (say (invalid_id token) t)
    | some (id, prefixed) ↦
        send_frame F seconds usb id (parse_hex_bytes tokens) (force || prefixed) t
  ]

  abbrev pub send_command : List Bytes → Term D → Outcome × Term D
  send_command args t = elim (first_is (codes "ext") args) [
    | true ↦ send_words true (rest_of args) t
    | false ↦ send_words false args t
  ]

  -- One branch, with the words behind the command.
  unfoldable pub execute : Command → (cmd : Bytes) → List Bytes → Term D → Outcome × Term D
  execute quit cmd args t = (quits, t)
  execute help cmd args t = carry_on (say help_text t)
  execute clear cmd args t = carry_on (say cleared t)
  execute scan cmd args t = after_scan (scan_adapters usb 0 0 (log_of t)) t
  execute open_index cmd args t = carry_on (open_command args t)
  execute fd cmd args t = carry_on (switched cmd t.config.fd set_fd args t)
  execute brs cmd args t = carry_on (switched cmd t.brs set_brs args t)
  execute echo cmd args t = carry_on (switched cmd t.show_echo set_echo args t)
  execute identifier cmd args t = carry_on (set_id args t)
  execute payload cmd args t =
      let bytes = parse_hex_bytes args in
      carry_on (say (data_becomes (length bytes)) (record t { default_data = bytes }))
  execute wait cmd args t = carry_on (say (slept (wait_seconds args)) t)
  execute filter cmd args t = carry_on (set_filter args t)
  execute dedup cmd args t = carry_on (switched cmd t.view.dedup set_dedup args t)
  execute transmit cmd args t = send_command args t
  execute unknown cmd args t = carry_on (say (unknown_command cmd) t)

  -- handleCommand: reading tokens[0] where there is none is undefined.
  unfoldable pub handle_command : List Bytes → Term D → Outcome × Term D
  handle_command [] t = (undefined, t)
  handle_command (token ∷ tokens) t =
      let cmd = to_lower token in execute (command_of cmd) cmd tokens t
