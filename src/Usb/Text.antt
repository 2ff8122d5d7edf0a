-- ===== src/Usb/Text.antt =====
-- Descriptor strings as lists of bytes, with the `std::string` operations that the search uses.
use gsusb_canfd.Prelude.{
  ℕ, ◌+◌, Bool, true, false, ◌&&◌, ◌||◌, List, [], ◌∷◌, map, leb, ◌==◌, if◌then◌else◌,
}

-- std::tolower in the "C" locale.
abbrev pub to_lower_char : ℕ → ℕ
to_lower_char c = if leb 65 c && leb c 90 then c + 32 else c

unfoldable pub to_lower : List ℕ → List ℕ
to_lower text = map to_lower_char text

abbrev pub is_empty : List ℕ → Bool
is_empty [] = true
is_empty (_ ∷ _) = false

unfoldable pub text_eq : List ℕ → List ℕ → Bool
text_eq [] [] = true
text_eq [] (y ∷ ys) = false
text_eq (x ∷ xs) [] = false
text_eq (x ∷ xs) (y ∷ ys) = x == y && text_eq xs ys

unfoldable pub starts_with : (text hint : List ℕ) → Bool
starts_with text [] = true
starts_with [] (h ∷ hs) = false
starts_with (c ∷ cs) (h ∷ hs) = c == h && starts_with cs hs

-- text.find(hint) != npos
unfoldable pub contains : (text hint : List ℕ) → Bool
unfolding starts_with
contains [] hint = starts_with [] hint
contains (c ∷ cs) hint = starts_with (c ∷ cs) hint || contains cs hint
