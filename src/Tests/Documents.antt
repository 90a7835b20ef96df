-- ===== src/Tests/Documents.antt =====
-- A composed document, the ledger that it is checked against, and the theorems on it.
use mathlib.Core.Option
use fineract_ai_backend.Prelude.{
  ◌≤◌, ◌≡◌, refl, ◌↔◌, String, none, some, List, [], ◌∷◌, ◌++◌, map, All, arith,
}
use fineract_ai_backend.Prelude.Json.{Json, num, str, arr, obj, array, field, end}
use fineract_ai_backend.Prelude.Sorted.{
  map_get, map_insert, sorted_set, same_texts, decimal, concat_texts, join,
}
use fineract_ai_backend.Store.Vocabulary.{Completeness, Outcome}
use fineract_ai_backend.Engine.Settle.{SettledResponse, Validated}
use fineract_ai_backend.Validate.Claims.{
  Ledger, rank, worst, contributions, per_block_completeness, aggregate, contributor_key, block_id,
}
use fineract_ai_backend.Validate.Numerals.{chars, canonical, numerals, tokens, readings}
use fineract_ai_backend.Validate.Evidence.{grounded_numerals, excluded_numerals, prose_numerals}
use fineract_ai_backend.Validate.Rules.{blocks_of, failures, disclosed_slots}
use fineract_ai_backend.Validate.Apply.{apply, block}
use fineract_ai_backend.Validate.Worst.{badness, worst-IsLeast}
use fineract_ai_backend.Validate.Honest.{IsCovered, apply-IsCovered}
use fineract_ai_backend.Validate.Contributors.{
  CoversRefs, refs_of, HaveOwnIds, apply-CoversRefs, last_refs, map_get-per_block_completeness,
}
use fineract_ai_backend.Validate.Served.{IsSound, apply-AreSound}
use fineract_ai_backend.Validate.Tokens.{digits_of, concat, digits_of-numerals, tokens-numerals}
use fineract_ai_backend.Validate.Decimals.{zeros, canonical-padded}

abbrev from_node : String → List Json
from_node id = obj (field "node_run_id" (str id) end) ∷ []

abbrev table : Json
table =
    block "result" "table" (from_node "run-1")
      (obj (field "rows" (arr (array (num 1500 ∷ num 7 ∷ []))) end))

abbrev told : String → Json
told text = block "story" "narrative" (from_node "run-1") (obj (field "body" (str text) end))

abbrev document : String → SettledResponse
document text = record {
  kind = "analysis";
  outcome = Outcome.answered;
  completeness = Completeness.complete;
  completeness_reason = "";
  blocks = arr (array (table ∷ told text ∷ []));
  evidence = obj end;
  response_hash = "";
}

abbrev ledger : String → Ledger
ledger completeness = record {
  contributors = ("run-1", completeness) ∷ [];
  auto_bound = [];
  derivations = [];
  parameters = [];
  outputs = [];
}

abbrev text_value : Json → String
text_value value = "digest"

abbrev checked : String → String → Validated
checked text completeness = apply text_value text_value (document text) (ledger completeness)

-- The numeral of the prose stands in the table.
passed : (checked "1.500 clients." "Complete").rejected ≡ none
unfolding apply failures prose_numerals numerals rank aggregate worst per_block_completeness
    map_insert contributor_key same_texts disclosed_slots sorted_set readings grounded_numerals
    decimal excluded_numerals
passed = refl

kept_ids : SettledResponse → List String
kept_ids response = map block_id (blocks_of response.blocks)

-- A numeral without evidence costs its block, and a claim beyond the ledger is lowered.
replaced :
    (kept_ids (checked "1600 clients." "Complete").served ≡ "result" ∷ "validation_rejected" ∷ [])
    × ((checked "1,500 clients" "Partial").served.completeness ≡ Completeness.partial)
    × ((checked "1,500 clients" "Partial").served.completeness_reason ≡ "validation_failed:D1")
unfolding apply failures prose_numerals numerals rank aggregate worst per_block_completeness
    map_insert contributor_key same_texts disclosed_slots sorted_set readings grounded_numerals
    decimal excluded_numerals kept_ids concat_texts join
replaced = (refl, refl, refl)

apply-IsCovered_example :
    IsCovered (ledger "Partial") Completeness.complete (checked "1600 clients." "Partial").served
apply-IsCovered_example =
    apply-IsCovered text_value text_value (document "1600 clients.") (ledger "Partial")

apply-AreSound_example :
    All
      (IsSound text_value (ledger "Partial") (table ∷ told "1600 clients." ∷ []))
      (blocks_of (checked "1600 clients." "Partial").served.blocks)
unfolding block
apply-AreSound_example =
    apply-AreSound text_value text_value (document "1600 clients.") (ledger "Partial")

own_ids : HaveOwnIds (blocks_of (checked "1600 clients." "Partial").served.blocks)
unfolding apply failures prose_numerals numerals rank aggregate worst per_block_completeness
    map_insert contributor_key same_texts disclosed_slots sorted_set readings grounded_numerals
    decimal excluded_numerals
own_ids = ((refl, tt), (tt, tt))

apply-CoversRefs_example :
    All
      (λ b.
        CoversRefs
          (ledger "Partial")
          (refs_of b)
          (badness (checked "1600 clients." "Partial").served.completeness))
      (blocks_of (checked "1600 clients." "Partial").served.blocks)
apply-CoversRefs_example =
    apply-CoversRefs text_value text_value (document "1600 clients.") (ledger "Partial") own_ids

-- The second of two blocks with one id hides the first.
twin : String → Json
twin run = block "result" "table" (from_node run) (obj end)

mixed : Ledger
mixed = record (ledger "Partial") {
  contributors = ("run-1", "Partial") ∷ ("run-2", "Complete") ∷ [];
}

hidden :
    aggregate (per_block_completeness (twin "run-1" ∷ twin "run-2" ∷ []) mixed)
    ≡ Completeness.complete
unfolding aggregate per_block_completeness map_insert rank worst contributor_key twin mixed block
hidden = refl

map_get-per_block_completeness_example :
    map_get "result" (per_block_completeness (twin "run-1" ∷ twin "run-2" ∷ []) mixed)
    ≡ Option.map
        (λ refs. worst (contributions mixed refs))
        (last_refs "result" (twin "run-1" ∷ twin "run-2" ∷ []))
map_get-per_block_completeness_example =
    map_get-per_block_completeness mixed (twin "run-1" ∷ twin "run-2" ∷ []) "result"

worst-IsLeast_example :
    (badness (worst ("Complete" ∷ "Partial" ∷ [])) ≤ 1)
    ↔ All (λ u. rank u ≤ 1) ("Complete" ∷ "Partial" ∷ [])
worst-IsLeast_example = worst-IsLeast "Complete" ("Partial" ∷ []) 1

digits_of-numerals_example :
    digits_of (concat (numerals (chars "In 2026: 1.500, or 7.")))
    ≡ digits_of (chars "In 2026: 1.500, or 7.")
digits_of-numerals_example = digits_of-numerals (chars "In 2026: 1.500, or 7.")

tokens-numerals_example :
    tokens 40 (chars "In 2026: 1.500, or 7.") ≡ some (numerals (chars "In 2026: 1.500, or 7."))
tokens-numerals_example = tokens-numerals 40 (chars "In 2026: 1.500, or 7.") (omega arith)

found : numerals (chars "In 2026: 1.500, or 7.") ≡ chars "2026" ∷ chars "1.500" ∷ chars "7" ∷ []
unfolding numerals
found = refl

canonical-padded_example :
    (canonical ((zeros 1 ++ chars "1500") ++ "." ∷ (chars "25" ++ zeros 2))
      ≡ canonical (chars "1500" ++ "." ∷ chars "25"))
    × (canonical (chars "1500" ++ "." ∷ zeros 2) ≡ canonical (chars "1500"))
canonical-padded_example = canonical-padded 1 2 "1" (chars "500") (chars "25") refl refl
