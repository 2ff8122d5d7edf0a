-- ===== src/Text.antt =====
-- Texts as lists of bytes: what the code uses of printf, strtoul, atoi and <cctype>. `unsigned
-- long` and `long` have 64 bits.
pub mod Print
pub mod Scan
pub mod Hex
use Prim.Native.Char.{code}
use Prim.Native.String.{String}
use gsusb_canfd.Prelude.{ℕ, List, [], ◌∷◌}

abbrev pub Bytes : Type 0
Bytes = List ℕ

-- The bytes of a literal.
abbrev pub codes : String → Bytes
codes String.[] = []
codes (String.◌∷◌ c s) = code c ∷ codes s
