-- ===== src/Validate/Decimals.antt =====
-- The canonical form of a numeral (canonical, crates/chat/src/engine/validate.rs).
use Prim.Native.Char.{Char}
use fineract_ai_backend.Prelude.{
  ℕ, zero, suc, ◌≡◌, refl, sym, ap, ◌∙◌, Bool, true, false, ◌&&◌, some, [], ◌∷◌, ◌++◌, any, arith,
}
use fineract_ai_backend.Validate.Numerals.{
  Chars, is_char, is_ascii_digit, drop_while, all_chars, trim_with, trim_end, before_point,
  after_point, integer_part, with_fraction, is_empty, canonical,
}

-- Only digits.
abbrev pub AreDigits : Chars → Type 0
AreDigits cs = all_chars is_ascii_digit cs ≡ true

abbrev pub zeros : ℕ → Chars
zeros zero = []
zeros (suc n) = "0" ∷ zeros n

AreDigits-append : (cs ds : Chars) → AreDigits cs → AreDigits ds → AreDigits (cs ++ ds)
AreDigits-append [] ds h k = k
AreDigits-append (c ∷ cs) ds h k = ground (arith, AreDigits-append cs ds)

AreDigits-zeros : (n : ℕ) → AreDigits (zeros n)
AreDigits-zeros zero = refl
AreDigits-zeros (suc n) = AreDigits-zeros n

digit_not_point : (c : Char) → is_ascii_digit c ≡ true → is_char b'.' c ≡ false
digit_not_point c h = ground arith

no_point : (cs : Chars) → AreDigits cs → any (is_char b'.') cs ≡ false
no_point [] h = refl
no_point (c ∷ cs) h = ground (arith, no_point cs)

before_point-append : (cs ds : Chars) → AreDigits cs → before_point (cs ++ "." ∷ ds) ≡ cs
before_point-append [] ds h = refl
before_point-append (c ∷ cs) ds h = ground (arith, before_point-append cs ds)

after_point-append : (cs ds : Chars) → AreDigits cs → after_point (cs ++ "." ∷ ds) ≡ ds
after_point-append [] ds h = refl
after_point-append (c ∷ cs) ds h = ground (arith, after_point-append cs ds)

before_point-digits : (cs : Chars) → AreDigits cs → before_point cs ≡ cs
before_point-digits [] h = refl
before_point-digits (c ∷ cs) h = ground (arith, before_point-digits cs)

after_point-digits : (cs : Chars) → AreDigits cs → after_point cs ≡ []
after_point-digits [] h = refl
after_point-digits (c ∷ cs) h = ground (arith, after_point-digits cs)

-- The form that digits around a point take.
abbrev form : Chars → Chars → Chars
form integer fraction =
    with_fraction (integer_part (drop_while (is_char b'0') integer))
      (trim_end (is_char b'0') fraction)

module _ (value integer fraction : Chars) (before : before_point value ≡ integer)
    (after : after_point value ≡ fraction) where
  canonical-form :
      AreDigits integer
      → AreDigits fraction
      → (is_empty integer && is_empty fraction) ≡ false
      → canonical value ≡ some (form integer fraction)
  unfolding canonical
  canonical-form h k some_digit = rw (before, after, no_point fraction k, some_digit, h, k) refl

drop_while-zeros :
    (m : ℕ) (cs : Chars) → drop_while (is_char b'0') (zeros m ++ cs) ≡ drop_while (is_char b'0') cs
drop_while-zeros zero cs = refl
drop_while-zeros (suc m) cs = drop_while-zeros m cs

trim_end-zeros : (n : ℕ) → trim_end (is_char b'0') (zeros n) ≡ []
trim_end-zeros zero = refl
trim_end-zeros (suc n) = ap (trim_with true "0") (trim_end-zeros n)

trim_end-append :
    (test : Char → Bool) (cs ds : Chars)
    → trim_end test ds ≡ []
    → trim_end test (cs ++ ds) ≡ trim_end test cs
trim_end-append test [] ds h = h
trim_end-append test (c ∷ cs) ds h = ap (trim_with (test c) c) (trim_end-append test cs ds h)

padded_digits :
    (m n : ℕ) (i f : Chars)
    → (is_empty i && is_empty f) ≡ false
    → (is_empty (zeros m ++ i) && is_empty (f ++ zeros n)) ≡ false
padded_digits (suc m) n i f h = refl
padded_digits zero n [] [] h = cc
padded_digits zero n [] (d ∷ f) h = refl
padded_digits zero n (c ∷ i) f h = refl

canonical-zeros :
    (m n : ℕ) (i f : Chars)
    → AreDigits i
    → AreDigits f
    → (is_empty i && is_empty f) ≡ false
    → canonical ((zeros m ++ i) ++ "." ∷ (f ++ zeros n)) ≡ canonical (i ++ "." ∷ f)
canonical-zeros m n i f hi hf some_digit =
    let hi' = AreDigits-append (zeros m) i (AreDigits-zeros m) hi in
    let hf' = AreDigits-append f (zeros n) hf (AreDigits-zeros n) in
    canonical-form ((zeros m ++ i) ++ "." ∷ (f ++ zeros n)) (zeros m ++ i) (f ++ zeros n)
      (before_point-append (zeros m ++ i) _ hi') (after_point-append (zeros m ++ i) _ hi') hi' hf'
      (padded_digits m n i f some_digit)
    ∙ (λ k. some (
        with_fraction (integer_part (drop_while-zeros m i k))
          (trim_end-append (is_char b'0') f (zeros n) (trim_end-zeros n) k)))
    ∙ sym (
        canonical-form (i ++ "." ∷ f) i f (before_point-append i f hi) (after_point-append i f hi)
          hi hf some_digit)

canonical-point :
    (n : ℕ) (c : Char) (i : Chars)
    → AreDigits (c ∷ i)
    → canonical ((c ∷ i) ++ "." ∷ zeros n) ≡ canonical (c ∷ i)
canonical-point n c i h =
    canonical-form ((c ∷ i) ++ "." ∷ zeros n) (c ∷ i) (zeros n) (before_point-append (c ∷ i) _ h)
      (after_point-append (c ∷ i) _ h) h (AreDigits-zeros n) refl
    ∙ ap (λ f. some (with_fraction (integer_part (drop_while (is_char b'0') (c ∷ i))) f))
        (trim_end-zeros n)
    ∙ sym (
        canonical-form (c ∷ i) (c ∷ i) [] (before_point-digits (c ∷ i) h)
          (after_point-digits (c ∷ i) h) h refl refl)

-- A number has one canonical form: zeros in front of its integer part and behind its fraction do not
-- change the form, and neither does a point that only zeros follow.
pub canonical-padded :
    (m n : ℕ) (c : Char) (i f : Chars)
    → AreDigits (c ∷ i)
    → AreDigits f
    → (canonical ((zeros m ++ c ∷ i) ++ "." ∷ (f ++ zeros n)) ≡ canonical ((c ∷ i) ++ "." ∷ f))
      × (canonical ((c ∷ i) ++ "." ∷ zeros n) ≡ canonical (c ∷ i))
canonical-padded m n c i f hi hf =
    (canonical-zeros m n (c ∷ i) f hi hf refl, canonical-point n c i hi)
