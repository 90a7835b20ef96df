-- ===== src/Validate/Backed.antt =====
-- A block without a failure of D3 uses numerals with evidence only, and the failures of a block name it
-- (crates/chat/src/engine/validate.rs).
use fineract_ai_backend.Prelude.{
  ◌≡◌, refl, ◌⊎◌, inl, inr, Bool, true, false, not, Option, none, some, String, List, [], ◌∷◌, All,
  All-append, Bool-cases, if-cases,
}
use fineract_ai_backend.Prelude.Json.{Json}
use fineract_ai_backend.Validate.Claims.{Ledger}
use fineract_ai_backend.Validate.Numerals.{Chars}
use fineract_ai_backend.Validate.Evidence.{flat_map, prose_numerals}
use fineract_ai_backend.Validate.Charts.{chart_problem}
use fineract_ai_backend.Validate.Rules.{
  Failure, failing, is_prose, is_backed, is_chart, chart_failure, numeral_failure,
  numeral_failures_of, chart_failures_of,
}
use fineract_ai_backend.Validate.Dropped.{NameBlock}
use fineract_ai_backend.Validate.Shape.{one-NameBlock}
use fineract_ai_backend.Validate.Honest.{append-nil_parts}

-- Prose uses only numerals of which some reading is evidence or excepted.
abbrev pub IsBacked : List Chars → List Chars → Json → Type 0
IsBacked grounded excluded b =
    (is_prose b ≡ false)
    ⊎ All (λ token. is_backed grounded excluded token ≡ true) (prose_numerals b)

module _ (grounded excluded : List Chars) (b : Json) where
  unbacked : (c : Bool) (f : Failure) → failing (not c) f ≡ [] → c ≡ true
  unbacked true f h = refl
  unbacked false f h = cc

  All-backed :
      (tokens : List Chars)
      → flat_map (numeral_failure grounded excluded b) tokens ≡ []
      → All (λ token. is_backed grounded excluded token ≡ true) tokens
  All-backed [] h = tt
  All-backed (token ∷ tokens) h =
      let (here, rest) = append-nil_parts (numeral_failure grounded excluded b token) _ h in
      (unbacked (is_backed grounded excluded token) _ here, All-backed tokens rest)

  pub numeral_failures_of-nil :
      numeral_failures_of grounded excluded b ≡ [] → IsBacked grounded excluded b
  unfolding numeral_failures_of
  numeral_failures_of-nil h = elim (Bool-cases (is_prose b)) [
    | inl prose ↦ inr (All-backed (prose_numerals b) (rw prose at h))
    | inr other ↦ inl other
  ]

  tokens-NameBlock :
      (tokens : List Chars) → NameBlock b (flat_map (numeral_failure grounded excluded b) tokens)
  tokens-NameBlock [] = tt
  tokens-NameBlock (token ∷ tokens) =
      All-append _ (numeral_failure grounded excluded b token) _
        (one-NameBlock b (not (is_backed grounded excluded token)) _ refl) (tokens-NameBlock tokens)

  pub numeral_failures_of-NameBlock : NameBlock b (numeral_failures_of grounded excluded b)
  unfolding numeral_failures_of
  numeral_failures_of-NameBlock =
      if-cases (NameBlock b) (is_prose b) (λ _. tokens-NameBlock (prose_numerals b)) (λ _. tt)

chart_failure-NameBlock : (b : Json) (p : Option String) → NameBlock b (chart_failure b p)
chart_failure-NameBlock b none = tt
chart_failure-NameBlock b (some problem) = (refl, tt)

pub chart_failures_of-NameBlock :
    (to_string : Json → String) (ledger : Ledger) (b : Json)
    → NameBlock b (chart_failures_of to_string ledger b)
unfolding chart_failures_of
chart_failures_of-NameBlock to_string ledger b =
    if-cases (NameBlock b) (is_chart b)
      (λ _. chart_failure-NameBlock b (chart_problem to_string b ledger)) (λ _. tt)
