-- ===== src/Validate/Rules/Blocks.antt =====
-- The rules on one block: shape_failures and the loop over the prose
-- (crates/chat/src/engine/validate.rs).
use text.Mathlib.Text.{◌==◌ as str_eq}
use fineract_ai_backend.Prelude.{
  ℕ, String, Bool, true, false, not, ◌&&◌, ◌||◌, Option, none, some, List, [], ◌∷◌, ◌++◌, any, ◌==◌,
  if◌then◌else◌,
}
use fineract_ai_backend.Prelude.Json.{Json, num, get, get_str, get_array}
use fineract_ai_backend.Prelude.Sorted.{contains_text, join, decimal, concat_texts}
use fineract_ai_backend.Validate.Claims.{block_id}
use fineract_ai_backend.Validate.Numerals.{Chars, text_of, readings}
use fineract_ai_backend.Validate.Evidence.{
  prose_blocks, prose_numerals, block_type, flat_map, contains_chars,
}

abbrev pub block_schema_version : ℕ
block_schema_version = 1

abbrev pub block_types : List String
block_types =
    "narrative" ∷ "metric" ∷ "table" ∷ "chart_spec" ∷ "comparison" ∷ "finding" ∷ "limitation"
    ∷ "suggestion" ∷ "note" ∷ []

abbrev pub data_blocks : List String
data_blocks = "metric" ∷ "table" ∷ "chart_spec" ∷ "comparison" ∷ "finding" ∷ []

-- A rule that was broken; `block_id = none` is a failure of the whole document.
pub record Failure : Type 0 where
  pub rule : String
  pub block_id : Option String
  pub detail : String

abbrev pub failure_of : String → Json → String → Failure
failure_of rule block detail = record {
  rule = rule;
  block_id = some (block_id block);
  detail = detail;
}

-- `Vec::extend` by one failure where the test holds.
abbrev pub failing : Bool → Failure → List Failure
failing true failure = failure ∷ []
failing false failure = []

abbrev pub is_empty_text : Option String → Bool
is_empty_text none = true
is_empty_text (some text) = str_eq text ""

abbrev pub has_schema_version : Option Json → Bool
has_schema_version (some (num n)) = n == block_schema_version
has_schema_version _ = false

abbrev pub is_nonempty {ℓ} : {A : Type ℓ} → List A → Bool
is_nonempty [] = false
is_nonempty (x ∷ xs) = true

abbrev pub is_nonempty_array : Option (List Json) → Bool
is_nonempty_array none = false
is_nonempty_array (some refs) = is_nonempty refs

abbrev pub in_vocabulary : Json → Bool
in_vocabulary block = contains_text (block_type block) block_types

abbrev pub has_id : Json → Bool
has_id block = not (is_empty_text (get_str "block_id" block))

abbrev pub has_version : Json → Bool
has_version block = has_schema_version (get "schema_version" block)

abbrev pub has_refs : Json → Bool
has_refs block = is_nonempty_array (get_array "derived_from" block)

abbrev pub needs_refs : Json → Bool
needs_refs block =
    contains_text (block_type block) data_blocks
    || (str_eq (block_type block) "narrative" && is_nonempty (prose_numerals block))

-- One round of shape_failures.
unfoldable pub shape_failures_of : Json → List Failure
shape_failures_of block =
    if not (in_vocabulary block)
    then failure_of "§2" block (
        concat_texts
          ("tipe blok `" ∷ block_type block ∷ "` di luar kosakata: " ∷ join ", " block_types ∷ []))
      ∷ []
    else failing (not (has_id block)) (failure_of "§1" block "blok tanpa `block_id`")
      ++ (failing (not (has_version block)) (
            failure_of "§1" block
              (concat_texts ("blok tanpa `schema_version` = " ∷ decimal block_schema_version ∷ [])))
          ++ failing (needs_refs block && not (has_refs block)) (
              failure_of "§1" block (
                concat_texts
                  ("blok `" ∷ block_type block ∷ "` menyajikan data tanpa `derived_from`" ∷ []))))

unfoldable pub shape_failures : List Json → List Failure
unfolding shape_failures_of
shape_failures = flat_map shape_failures_of

-- One round of the loop over the prose (D3).
abbrev pub is_backed : List Chars → List Chars → Chars → Bool
is_backed grounded excluded token =
    any (λ value. contains_chars value grounded || contains_chars value excluded) (readings token)

abbrev pub numeral_failure : List Chars → List Chars → Json → Chars → List Failure
numeral_failure grounded excluded block token = failing (not (is_backed grounded excluded token)) (
    failure_of "D3" block (
      concat_texts (
        "numeral "
        ∷ text_of token
        ∷ " pada blok "
        ∷ block_type block
        ∷ " tidak cocok dengan blok ber-evidence, entri derivation, maupun daftar pengecualian §4"
        ∷ [])))

abbrev pub is_prose : Json → Bool
is_prose block = contains_text (block_type block) prose_blocks

unfoldable pub numeral_failures_of : List Chars → List Chars → Json → List Failure
numeral_failures_of grounded excluded block =
    if is_prose block
    then flat_map (numeral_failure grounded excluded block) (prose_numerals block)
    else []
