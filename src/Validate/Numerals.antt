-- ===== src/Validate/Numerals.antt =====
-- The numerals of a text and their canonical form: numerals, readings, canonical
-- (crates/chat/src/engine/validate.rs).
use fineract_ai_backend.Prelude.{
  ℕ, zero, suc, String, Bool, true, false, not, ◌&&◌, ◌||◌, Option, none, some, coalesce, List, [],
  ◌∷◌, ◌++◌, leb, ◌==◌, length, any, if◌then◌else◌,
}
use Prim.Native.Char.{Char, code}
use Prim.Native.String as Text
use mathlib.Core.Option

-- A text as the sequence of its characters.
abbrev pub Chars : Type 0
Chars = List Char

-- `text.chars().collect()`
abbrev pub chars : String → Chars
chars Text.[] = []
chars (Text.◌∷◌ c s) = c ∷ chars s

-- `chars.iter().collect::<String>()`
abbrev pub text_of : Chars → String
text_of [] = Text.[]
text_of (c ∷ cs) = Text.◌∷◌ c (text_of cs)

abbrev pub is_char : ℕ → Char → Bool
is_char n c = code c == n

-- char::is_ascii_digit
abbrev pub is_ascii_digit : Char → Bool
is_ascii_digit c = leb b'0' (code c) && leb (code c) b'9'

abbrev pub is_numeral_char : Char → Bool
is_numeral_char c = is_ascii_digit c || (is_char b',' c || (is_char b'.' c || is_char b'_' c))

module _ (test : Char → Bool) where
  -- The characters at the front that pass, and what follows them.
  abbrev pub take_while : Chars → Chars
  take_while [] = []
  take_while (c ∷ cs) = if test c then c ∷ take_while cs else []

  abbrev pub drop_while : Chars → Chars
  drop_while [] = []
  drop_while (c ∷ cs) = if test c then drop_while cs else c ∷ cs

  abbrev pub all_chars : Chars → Bool
  all_chars [] = true
  all_chars (c ∷ cs) = test c && all_chars cs

  -- str::replace of the characters that pass by nothing.
  abbrev pub without : Chars → Chars
  without [] = []
  without (c ∷ cs) = if test c then without cs else c ∷ without cs

-- `c` in front of what is left of the characters after it: dropped if nothing is and it passes.
abbrev pub trim_with : Bool → Char → Chars → Chars
trim_with passes c (d ∷ ds) = c ∷ d ∷ ds
trim_with true c [] = []
trim_with false c [] = c ∷ []

-- The characters that pass are dropped from the end.
abbrev pub trim_end : (Char → Bool) → Chars → Chars
trim_end test [] = []
trim_end test (c ∷ cs) = trim_with (test c) c (trim_end test cs)

-- One numeral: the run of digits and separators, without the separators at its end.
abbrev pub token : Chars → Chars
token cs = trim_end (λ c. not (is_ascii_digit c)) (take_while is_numeral_char cs)

-- `none`: the fuel ran out before the end of the text.
unfoldable pub tokens : ℕ → Chars → Option (List Chars)
tokens zero cs = none
tokens (suc fuel) [] = some []
tokens (suc fuel) (c ∷ cs) = elim (is_ascii_digit c) [
  | false ↦ tokens fuel cs
  | true ↦
      Option.map (λ rest. token (c ∷ cs) ∷ rest) (tokens fuel (drop_while is_numeral_char (c ∷ cs)))
]

-- A round for each character, and one that finds the end.
unfoldable pub numerals : Chars → List Chars
unfolding tokens
numerals cs = coalesce (tokens (suc (length cs)) cs) []

-- str::split_once at the first point.
abbrev pub before_point : Chars → Chars
before_point = take_while (λ c. not (is_char b'.' c))

abbrev pub after_point : Chars → Chars
after_point [] = []
after_point (c ∷ cs) = if is_char b'.' c then cs else after_point cs

abbrev pub integer_part : Chars → Chars
integer_part [] = "0" ∷ []
integer_part (c ∷ cs) = c ∷ cs

abbrev pub with_fraction : Chars → Chars → Chars
with_fraction integer [] = integer
with_fraction integer (c ∷ cs) = integer ++ "." ∷ c ∷ cs

abbrev pub is_empty : Chars → Bool
is_empty [] = true
is_empty (c ∷ cs) = false

-- Zeros at the front of the integer and at the end of the fraction are dropped.
unfoldable pub canonical : Chars → Option Chars
canonical value =
    let integer = before_point value in
    let fraction = after_point value in
    if any (is_char b'.') fraction
    then none
    else if is_empty integer && is_empty fraction
    then none
    else if not (all_chars is_ascii_digit integer) || not (all_chars is_ascii_digit fraction)
    then none
    else some (
        with_fraction (integer_part (drop_while (is_char b'0') integer))
          (trim_end (is_char b'0') fraction))

abbrev pub english : Chars → Chars
english = without (λ c. is_char b'_' c || is_char b',' c)

abbrev pub comma_to_point : Chars → Chars
comma_to_point [] = []
comma_to_point (c ∷ cs) = (if is_char b',' c then "." else c) ∷ comma_to_point cs

abbrev pub indonesian : Chars → Chars
indonesian token = comma_to_point (without (λ c. is_char b'_' c || is_char b'.' c) token)

-- Equality of texts.
abbrev pub same_chars : Chars → Chars → Bool
same_chars [] [] = true
same_chars (c ∷ cs) (d ∷ ds) = (code c == code d) && same_chars cs ds
same_chars [] (d ∷ ds) = false
same_chars (c ∷ cs) [] = false

abbrev pub option_list : Option Chars → List Chars
option_list none = []
option_list (some cs) = cs ∷ []

-- `.` as the decimal point, and `,` as the decimal point.
unfoldable pub readings : Chars → List Chars
unfolding canonical
readings token =
    if same_chars (indonesian token) (english token)
    then option_list (canonical (english token))
    else option_list (canonical (english token)) ++ option_list (canonical (indonesian token))
