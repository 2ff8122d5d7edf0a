-- ===== src/Tools/HexId.antt =====
-- Identifiers in hexadecimal: parseId of canfd_cli.cpp and parseHexId of canfd_term.cpp.
pub mod Parsed
use gsusb_canfd.Prelude.{
  ℕ, zero, suc, Bool, true, false, not, ◌&&◌, ◌||◌, Option, none, some, List, [], ◌∷◌, leb, ltb,
  length, take, u32, if◌then◌else◌,
}
use gsusb_canfd.Text.{Bytes, codes}
use gsusb_canfd.Text.Scan.{is_xdigit, strtoul}
use gsusb_canfd.Text.Hex.{all_of}
use gsusb_canfd.Usb.Text.{to_lower, text_eq, is_empty}

-- parseId
unfoldable pub parse_id : Bytes → ℕ
parse_id text = u32 (strtoul 16 text)

abbrev pub drop_front : ℕ → Bytes → Bytes
drop_front zero text = text
drop_front (suc n) [] = []
drop_front (suc n) (c ∷ cs) = drop_front n cs

-- text.size() > n && lower(text.substr(0, n)) == prefix, for a prefix of n bytes
abbrev pub has_prefix : (prefix : Bytes) → Bytes → Bool
has_prefix prefix text =
    ltb (length prefix) (length text) && text_eq (to_lower (take (length prefix) text)) prefix

-- The text behind the prefix, where it has it.
abbrev pub without : (prefix : Bytes) → Bytes → Bytes
without prefix text = if has_prefix prefix text then drop_front (length prefix) text else text

-- The digits of an identifier, behind both prefixes.
unfoldable pub id_of_digits : Bytes → Option ℕ
id_of_digits text =
    if is_empty text || not (all_of is_xdigit text)
    then none
    else let id = u32 (strtoul 16 text) in if leb id 0x1FFFFFFF then some id else none

-- What an identifier is read as, with the mark of "ext:".
abbrev pub marked : (forced : Bool) → Option ℕ → Option (ℕ × Bool)
marked forced none = none
marked forced (some id) = some (id, forced)

-- parseHexId: the identifier and whether "ext:" was in front of it.
unfoldable pub parse_hex_id : Bytes → Option (ℕ × Bool)
parse_hex_id token =
    marked (has_prefix (codes "ext:") token)
      (id_of_digits (without (codes "0x") (without (codes "ext:") token)))
