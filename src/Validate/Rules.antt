-- ===== src/Validate/Rules.antt =====
-- The rules that a document is checked by: chart_failures, failures, and those on one block of Blocks
-- (crates/chat/src/engine/validate.rs).
mod Blocks
unfoldable pub use Blocks.*
use Prim.Native.Char.{code}
use text.Mathlib.Text.{◌==◌ as str_eq}
use fineract_ai_backend.Prelude.{
  ℕ, String, Bool, not, ◌&&◌, ◌||◌, Option, none, some, List, [], ◌∷◌, ◌++◌, map, length, leb, ltb,
  ◌==◌, if◌then◌else◌,
}
use fineract_ai_backend.Prelude.Json.{Json, get_str, get_array, as_array}
use fineract_ai_backend.Prelude.Sorted.{
  difference, same_texts, sorted_set, join, decimal, concat_texts,
}
use fineract_ai_backend.Store.Vocabulary.{Completeness, completeness_text}
use fineract_ai_backend.Engine.Settle.{SettledResponse}
use fineract_ai_backend.Validate.Claims.{Ledger, rank, block_id}
use fineract_ai_backend.Validate.Numerals.{chars, all_chars}
use fineract_ai_backend.Validate.Evidence.{
  block_type, flat_map, grounded_numerals, excluded_numerals,
}
use fineract_ai_backend.Validate.Charts.{chart_problem}

-- The texts of the entries that have one.
abbrev pub some_texts : List (Option String) → List String
some_texts [] = []
some_texts (none ∷ xs) = some_texts xs
some_texts (some text ∷ xs) = text ∷ some_texts xs

abbrev slots_of : Option (List Json) → List Json
slots_of none = []
slots_of (some slots) = slots

abbrev is_note : Json → Bool
is_note block = str_eq (block_type block) "note"

-- The automatically bound slots that the document's notes disclose.
unfoldable pub disclosed_slots : List Json → List String
disclosed_slots blocks = sorted_set (
    some_texts (
      map (get_str "field_id") (
        flat_map
          (λ block. if is_note block then slots_of (get_array "auto_bound_slots" block) else [])
          blocks)))

abbrev pub is_chart : Json → Bool
is_chart block = str_eq (block_type block) "chart_spec"

-- The characters with Unicode's White_Space property, which str::trim drops.
abbrev is_white : ℕ → Bool
is_white c =
    (leb 9 c && leb c 13)
    || c == 32
    || c == 133
    || c == 160
    || c == 5760
    || (leb 8192 c && leb c 8202)
    || c == 8232
    || c == 8233
    || c == 8239
    || c == 8287
    || c == 12288

-- `text.trim().is_empty()`
unfoldable pub is_blank : String → Bool
is_blank text = all_chars (λ c. is_white (code c)) (chars text)

abbrev claim_rank : Completeness → ℕ
claim_rank completeness = rank (completeness_text completeness)

abbrev entry_texts : List (String × Completeness) → List String
entry_texts [] = []
entry_texts ((id, value) ∷ entries) =
    concat_texts (id ∷ "=" ∷ completeness_text value ∷ []) ∷ entry_texts entries

abbrev pub chart_failure : Json → Option String → List Failure
chart_failure block none = []
chart_failure block (some problem) =
    failure_of "§7" block
      (concat_texts ("chart_spec tidak memenuhi bentuk yang dideklarasikannya: " ∷ problem ∷ []))
    ∷ []

module _ (to_string : Json → String) where
  -- One round of chart_failures.
  unfoldable pub chart_failures_of : Ledger → Json → List Failure
  chart_failures_of ledger block =
      if is_chart block then chart_failure block (chart_problem to_string block ledger) else []

  unfoldable pub chart_failures : List Json → Ledger → List Failure
  unfolding chart_failures_of
  chart_failures blocks ledger = flat_map (chart_failures_of ledger) blocks

abbrev document_failure : String → String → Failure
document_failure rule detail = record { rule = rule; block_id = none; detail = detail }

-- D1: a claim may be worse than the computed one, never better.
unfoldable pub overclaim_failures :
    Completeness → Completeness → List (String × Completeness) → List Failure
overclaim_failures claimed computed per_block =
    failing (ltb (claim_rank claimed) (claim_rank computed)) (
      document_failure "D1" (
        concat_texts (
          "composer mengklaim "
          ∷ completeness_text claimed
          ∷ " sementara ledger menghitung "
          ∷ completeness_text computed
          ∷ " dari "
          ∷ decimal (length per_block)
          ∷ " blok penyaji data ("
          ∷ join ", " (entry_texts per_block)
          ∷ ")"
          ∷ [])))

-- D1: a claim other than Complete has a reason.
unfoldable pub unexplained_failures : Completeness → String → List Failure
unfolding is_blank
unexplained_failures claimed reason =
    failing (not (str_eq (completeness_text claimed) "Complete") && is_blank reason) (
      document_failure "D1" (
        concat_texts
          ("completeness " ∷ completeness_text claimed ∷ " tanpa completeness_reason" ∷ [])))

-- D2: the disclosed slots are the bound ones.
unfoldable pub slot_failures : List Json → Ledger → List Failure
slot_failures blocks ledger =
    let disclosed = disclosed_slots blocks in
    failing (not (same_texts disclosed ledger.auto_bound)) (
      document_failure "D2" (
        concat_texts (
          "slot auto-bind pada blok `note` tidak cocok dengan input_binding_json — tidak diungkap: ["
          ∷ join ", " (difference ledger.auto_bound disclosed)
          ∷ "], diungkap tanpa dasar: ["
          ∷ join ", " (difference disclosed ledger.auto_bound)
          ∷ "]"
          ∷ [])))

unfoldable pub numeral_failures : List Json → Ledger → List Failure
unfolding numeral_failures_of
numeral_failures blocks ledger =
    flat_map
      (numeral_failures_of (grounded_numerals blocks ledger.derivations)
        (excluded_numerals ledger.parameters))
      blocks

-- `response.blocks.as_array().map(Vec::as_slice).unwrap_or(&[])`
abbrev pub blocks_of : Json → List Json
blocks_of blocks = slots_of (as_array blocks)

unfoldable pub failures :
    (Json → String)
    → SettledResponse
    → Ledger
    → Completeness
    → List (String × Completeness)
    → List Failure
unfolding shape_failures chart_failures overclaim_failures unexplained_failures slot_failures
    numeral_failures
failures to_string response ledger computed per_block =
    let blocks = blocks_of response.blocks in
    shape_failures blocks
    ++ (chart_failures to_string blocks ledger
        ++ (overclaim_failures response.completeness computed per_block
            ++ (unexplained_failures response.completeness response.completeness_reason
                ++ (slot_failures blocks ledger ++ numeral_failures blocks ledger))))
