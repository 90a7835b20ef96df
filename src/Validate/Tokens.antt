-- ===== src/Validate/Tokens.antt =====
-- The numerals that are cut out of a text (numerals, crates/chat/src/engine/validate.rs).
use Prim.Native.Char.{Char}
use mathlib.Core.Option
use fineract_ai_backend.Prelude.{
  ℕ, zero, suc, ◌≤◌, ◌<◌, ◌≡◌, refl, sym, ap, ◌∙◌, inl, inr, Bool, true, false, not, some, coalesce,
  List, [], ◌∷◌, ◌++◌, length, arith, Bool-cases, if◌then◌else◌,
}
use fineract_ai_backend.Validate.Numerals.{
  Chars, is_ascii_digit, is_numeral_char, take_while, drop_while, trim_with, trim_end, token,
  tokens, numerals,
}

abbrev pub is_other : Char → Bool
is_other c = not (is_ascii_digit c)

-- The digits of a text, in order.
abbrev pub digits_of : Chars → Chars
digits_of [] = []
digits_of (c ∷ cs) = if is_ascii_digit c then c ∷ digits_of cs else digits_of cs

abbrev pub concat : List Chars → Chars
concat [] = []
concat (cs ∷ css) = cs ++ concat css

digits_of-append : (cs ds : Chars) → digits_of (cs ++ ds) ≡ digits_of cs ++ digits_of ds
digits_of-append [] ds = refl
digits_of-append (c ∷ cs) ds = ground (arith, digits_of-append cs ds)

digits_of-trim_with :
    (c : Char) (cs : Chars) → digits_of (trim_with (is_other c) c cs) ≡ digits_of (c ∷ cs)
digits_of-trim_with c [] = ground arith
digits_of-trim_with c (d ∷ ds) = refl

digits_of-trim_end : (cs : Chars) → digits_of (trim_end is_other cs) ≡ digits_of cs
digits_of-trim_end [] = refl
digits_of-trim_end (c ∷ cs) =
    ground (arith, digits_of-trim_with c (trim_end is_other cs), digits_of-trim_end cs)

digits_of-take_while :
    (test : Char → Bool) (cs : Chars)
    → digits_of (take_while test cs) ++ digits_of (drop_while test cs) ≡ digits_of cs
digits_of-take_while test [] = refl
digits_of-take_while test (c ∷ cs) = ground (arith, digits_of-take_while test cs)

length-drop_while : (test : Char → Bool) (cs : Chars) → length (drop_while test cs) ≤ length cs
length-drop_while test [] = omega arith
length-drop_while test (c ∷ cs) = ground (arith, length-drop_while test cs)

digits_of_other :
    (c : Char) (cs : Chars) → is_ascii_digit c ≡ false → digits_of (c ∷ cs) ≡ digits_of cs
digits_of_other c cs h = rw h refl

module _ (fuel : ℕ) (c : Char) (cs : Chars) where
  tokens_other : is_ascii_digit c ≡ false → tokens (suc fuel) (c ∷ cs) ≡ tokens fuel cs
  unfolding tokens
  tokens_other h = ground arith

  -- A digit is dropped with the run that it begins, so that a round makes progress.
  tokens_digit :
      is_ascii_digit c ≡ true
      → tokens (suc fuel) (c ∷ cs)
        ≡ Option.map (λ rest. token (c ∷ cs) ∷ rest) (tokens fuel (drop_while is_numeral_char cs))
  unfolding tokens
  tokens_digit h = ground arith

digits_of-token : (cs : Chars) → digits_of (token cs) ≡ digits_of (take_while is_numeral_char cs)
digits_of-token cs = digits_of-trim_end (take_while is_numeral_char cs)

drop_while-digit :
    (c : Char) (cs : Chars)
    → is_ascii_digit c ≡ true
    → drop_while is_numeral_char (c ∷ cs) ≡ drop_while is_numeral_char cs
drop_while-digit c cs h = ground arith

-- The loop over a text comes to its end, with numerals that hold the digits of the text.
abbrev IsScanned : ℕ → Chars → List Chars → Type 0
IsScanned fuel cs css = (tokens fuel cs ≡ some css) × (digits_of (concat css) ≡ digits_of cs)

IsScanned-digit :
    (fuel : ℕ) (c : Char) (cs : Chars) (css : List Chars)
    → is_ascii_digit c ≡ true
    → IsScanned fuel (drop_while is_numeral_char cs) css
    → IsScanned (suc fuel) (c ∷ cs) (token (c ∷ cs) ∷ css)
IsScanned-digit fuel c cs css digit (e, same) = (
  tokens_digit fuel c cs digit ∙ ap (Option.map (λ rest. token (c ∷ cs) ∷ rest)) e,
  digits_of-append (token (c ∷ cs)) (concat css)
      ∙ (λ i. digits_of-token (c ∷ cs) i ++ same i)
      ∙ ap (λ ds. digits_of (take_while is_numeral_char (c ∷ cs)) ++ digits_of ds)
          (sym (drop_while-digit c cs digit))
      ∙ digits_of-take_while is_numeral_char (c ∷ cs),
)

scanned : (fuel : ℕ) (cs : Chars) → length cs < fuel → (css : List Chars) × IsScanned fuel cs css
unfolding tokens
scanned zero cs h = absurd (omega arith)
scanned (suc fuel) [] h = ([], (refl, refl))
scanned (suc fuel) (c ∷ cs) h = elim (Bool-cases (is_ascii_digit c)) [
  | inr other ↦
      let (css, (e, same)) = scanned fuel cs (omega arith) in
      (css, (tokens_other fuel c cs other ∙ e, same ∙ sym (digits_of_other c cs other)))
  | inl digit ↦
      let (css, rest) =
        scanned fuel (drop_while is_numeral_char cs)
          (omega (arith, length-drop_while is_numeral_char cs)) in
      (token (c ∷ cs) ∷ css, IsScanned-digit fuel c cs css digit rest)
]

-- The numerals that are cut out of a text hold all its digits in order: none escapes the check of the
-- prose, and none is read twice.
pub digits_of-numerals : (cs : Chars) → digits_of (concat (numerals cs)) ≡ digits_of cs
unfolding numerals
digits_of-numerals cs =
    let (css, (e, same)) = scanned (suc (length cs)) cs (omega arith) in
    ap (λ o. digits_of (concat (coalesce o []))) e ∙ same

-- Any two numbers of rounds that are enough give the same.
tokens-tokens :
    (fuel more : ℕ) (cs : Chars)
    → length cs < fuel
    → length cs < more
    → tokens fuel cs ≡ tokens more cs
unfolding tokens
tokens-tokens zero more cs h k = absurd (omega arith)
tokens-tokens (suc fuel) zero cs h k = absurd (omega arith)
tokens-tokens (suc fuel) (suc more) [] h k = refl
tokens-tokens (suc fuel) (suc more) (c ∷ cs) h k = elim (Bool-cases (is_ascii_digit c)) [
  | inr other ↦
      tokens_other fuel c cs other
      ∙ tokens-tokens fuel more cs (omega arith) (omega arith)
      ∙ sym (tokens_other more c cs other)
  | inl digit ↦
      let shorter = length-drop_while is_numeral_char cs in
      tokens_digit fuel c cs digit
      ∙ ap (Option.map (λ rest. token (c ∷ cs) ∷ rest)) (
          tokens-tokens fuel more (drop_while is_numeral_char cs) (omega (arith, shorter))
            (omega (arith, shorter)))
      ∙ sym (tokens_digit more c cs digit)
]

-- The loop over a text comes to the end of the text within one round more than the text has
-- characters: with that many rounds or any larger number it does not run out of them, and gives the
-- numerals of the text.
pub tokens-numerals :
    (fuel : ℕ) (cs : Chars) → length cs < fuel → tokens fuel cs ≡ some (numerals cs)
unfolding numerals
tokens-numerals fuel cs h =
    let (css, (e, same)) = scanned (suc (length cs)) cs (omega arith) in
    tokens-tokens fuel (suc (length cs)) cs h (omega arith)
    ∙ e
    ∙ ap (λ o. some (coalesce o [])) (sym e)
