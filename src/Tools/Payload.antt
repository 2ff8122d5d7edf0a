-- ===== src/Tools/Payload.antt =====
-- Payloads in hexadecimal: parseData of canfd_cli.cpp, parseHexBytes and formatBytes of
-- canfd_term.cpp.
pub mod RoundTrip
use gsusb_canfd.Prelude.{ℕ, Bool, List, [], ◌∷◌, ◌++◌, u8, if◌then◌else◌}
use gsusb_canfd.Text.{Bytes}
use gsusb_canfd.Text.Scan.{is_xdigit, strtoul}
use gsusb_canfd.Frame.{CanFrame}
use gsusb_canfd.Frame.Show.{show_bytes}

-- The hexadecimal digits of a text.
unfoldable pub clean : Bytes → Bytes
clean [] = []
clean (c ∷ cs) = if is_xdigit c then c ∷ clean cs else clean cs

-- A byte for each two digits; a last digit that is alone is dropped.
unfoldable pub pairs : Bytes → List ℕ
pairs (a ∷ b ∷ rest) = u8 (strtoul 16 (a ∷ b ∷ [])) ∷ pairs rest
pairs (a ∷ []) = []
pairs [] = []

-- parseData
unfoldable pub parse_data : Bytes → List ℕ
parse_data text = pairs (clean text)

unfoldable pub clean_all : List Bytes → Bytes
clean_all [] = []
clean_all (token ∷ tokens) = clean token ++ clean_all tokens

-- parseHexBytes
unfoldable pub parse_hex_bytes : List Bytes → List ℕ
parse_hex_bytes tokens = pairs (clean_all tokens)

-- formatBytes, whose loop is the one of CanFrame::toString.
abbrev pub format_bytes : {D : Type 0} → CanFrame D → Bytes
format_bytes frame = show_bytes frame.size 0 frame.size frame.bytes
