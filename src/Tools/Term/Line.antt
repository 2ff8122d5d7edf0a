-- ===== src/Tools/Term/Line.antt =====
-- A line of the terminal: trim of canfd_term.cpp, and the words that `stream >> token` reads.
use gsusb_canfd.Prelude.{
  ℕ, ap, ◌∙◌, Bool, true, not, ◌&&◌, ◌||◌, ◌≡◌, refl, arith, ◌==◌, List, [], ◌∷◌, ◌++◌,
  if◌then◌else◌, Bool-cases, inl, inr,
}
use gsusb_canfd.Text.{Bytes}
use gsusb_canfd.Text.Scan.{is_space}
use gsusb_canfd.Text.Hex.{all_of}
use gsusb_canfd.Usb.Text.{is_empty}

-- " \t\r\n"
abbrev pub is_blank : ℕ → Bool
is_blank c = c == 32 || (c == 9 || (c == 13 || c == 10))

-- From find_first_not_of on.
unfoldable pub trim_front : Bytes → Bytes
trim_front [] = []
trim_front (c ∷ cs) = let rest = trim_front cs in if is_blank c then rest else c ∷ cs

-- Up to find_last_not_of.
unfoldable pub trim_back : Bytes → Bytes
trim_back [] = []
trim_back (c ∷ cs) = let rest = trim_back cs in if is_empty rest && is_blank c then [] else c ∷ rest

unfoldable pub trim : Bytes → Bytes
trim text = trim_back (trim_front text)

-- A token that is read, put in front of those behind it.
abbrev pub push_token : Bytes → List Bytes → List Bytes
push_token [] tokens = tokens
push_token (c ∷ cs) tokens = (c ∷ cs) ∷ tokens

-- The word at the front, up to the next space, and the words behind it.
unfoldable pub split : Bytes → Bytes × List Bytes
split [] = ([], [])
split (c ∷ cs) =
    let (word, words) = split cs in
    if is_space c then ([], push_token word words) else (c ∷ word, words)

-- while (stream >> token) tokens.push_back(token);
unfoldable pub tokens_of : Bytes → List Bytes
unfolding split
tokens_of text = let (word, words) = split text in push_token word words

-- The bytes of all tokens in order, and the bytes of a text that are no spaces.
abbrev pub joined : List Bytes → Bytes
joined [] = []
joined (token ∷ tokens) = token ++ joined tokens

abbrev pub solid : Bytes → Bytes
solid [] = []
solid (c ∷ cs) = if is_space c then solid cs else c ∷ solid cs

-- A token: at least one byte, and no space.
abbrev pub is_token : Bytes → Bool
is_token text = not (is_empty text) && all_of (λ c. not (is_space c)) text

abbrev pub all_tokens : List Bytes → Bool
all_tokens [] = true
all_tokens (token ∷ tokens) = is_token token && all_tokens tokens

joined-push_token :
    (word : Bytes) (words : List Bytes) → joined (push_token word words) ≡ word ++ joined words
joined-push_token [] words = refl
joined-push_token (c ∷ cs) words = refl

all_tokens-push_token :
    (word : Bytes) (words : List Bytes)
    → all_of (λ c. not (is_space c)) word ≡ true
    → all_tokens words ≡ true
    → all_tokens (push_token word words) ≡ true
all_tokens-push_token [] words h k = k
all_tokens-push_token (c ∷ cs) words h k = ground (arith, h, k)

split-solid : (text : Bytes) → (split text).0 ++ joined (split text).1 ≡ solid text
unfolding split
split-solid [] = refl
split-solid (c ∷ cs) = elim (Bool-cases (is_space c)) [
  | inl space ↦ rw (space, split) (joined-push_token (split cs).0 (split cs).1 ∙ split-solid cs)
  | inr part ↦ rw (part, split) (ap (λ (t : Bytes). c ∷ t) (split-solid cs))
]

split-tokens :
    (text : Bytes)
    → (all_of (λ c. not (is_space c)) (split text).0 ≡ true) × (all_tokens (split text).1 ≡ true)
unfolding split
split-tokens [] = (refl, refl)
split-tokens (c ∷ cs) = elim (Bool-cases (is_space c)) [
  | inl space ↦
      rw (space, split)
        (
          refl,
          all_tokens-push_token (split cs).0 (split cs).1 (split-tokens cs).0 (split-tokens cs).1,
        )
  | inr part ↦ rw (part, split) (ground (arith, part, (split-tokens cs).0), (split-tokens cs).1)
]

-- The tokens of a text have at least one byte and no space each, and one behind the other they are
-- the text without its spaces.
pub tokens_of-solid :
    (text : Bytes) → (all_tokens (tokens_of text) ≡ true) × (joined (tokens_of text) ≡ solid text)
unfolding tokens_of
tokens_of-solid text = (
  all_tokens-push_token (split text).0 (split text).1 (split-tokens text).0 (split-tokens text).1,
  joined-push_token (split text).0 (split text).1 ∙ split-solid text,
)
