-- ===== src/Validate/Evidence.antt =====
-- The numerals that a document may use: collect, grounded_numerals, excluded_numerals, prose_numerals
-- (crates/chat/src/engine/validate.rs). A BTreeSet of numerals is a list: it is only searched.
use fineract_ai_backend.Prelude.{
  String, Bool, false, ◌||◌, Option, none, some, List, [], ◌∷◌, ◌++◌, coalesce, if◌then◌else◌,
}
use fineract_ai_backend.Prelude.Json.{
  Json, null, bool, num, real, str, arr, obj, Items, nil, cons, Fields, end, field, get, get_str,
}
use fineract_ai_backend.Prelude.Sorted.{contains_text, decimal}
use fineract_ai_backend.Validate.Numerals.{
  Chars, chars, numerals, readings, canonical, option_list, same_chars,
}

abbrev pub prose_blocks : List String
prose_blocks = "narrative" ∷ "finding" ∷ "comparison" ∷ []

abbrev pub prose_keys : List String
prose_keys = "body" ∷ "text" ∷ "summary" ∷ []

abbrev neutral_blocks : List String
neutral_blocks = "limitation" ∷ "suggestion" ∷ []

abbrev structural_keys : List String
structural_keys = "schema_version" ∷ "block_id" ∷ "type" ∷ "derived_from" ∷ []

abbrev pub block_type : Json → String
block_type block = coalesce (get_str "type" block) ""

module _ {ℓ κ} {A : Type ℓ} {B : Type κ} where
  -- Iterator::flat_map into a list.
  abbrev pub flat_map : (A → List B) → List A → List B
  flat_map f [] = []
  flat_map f (x ∷ xs) = f x ++ flat_map f xs

abbrev is_skipped_key : String → Bool
is_skipped_key key = contains_text key prose_keys || contains_text key structural_keys

-- The canonical numbers in a value, prose and structural fields aside.
unfoldable mutual
  pub collect : Json → List Chars
  collect null = []
  collect (bool b) = []
  collect (num n) = option_list (canonical (chars (decimal n)))
  collect (real text) = option_list (canonical (chars text))
  collect (str text) = flat_map readings (numerals (chars text))
  collect (arr items) = collect_items items
  collect (obj fields) = collect_fields fields

  pub collect_items : Items → List Chars
  collect_items nil = []
  collect_items (cons item items) = collect item ++ collect_items items

  pub collect_fields : Fields → List Chars
  collect_fields end = []
  collect_fields (field key value fields) =
      (if is_skipped_key key then [] else collect value) ++ collect_fields fields

abbrev collect_option : Option Json → List Chars
collect_option none = []
collect_option (some value) = collect value

unfoldable pub grounded_numerals : List Json → List Json → List Chars
unfolding collect
grounded_numerals blocks derivations =
    flat_map
      (λ block. if contains_text (block_type block) neutral_blocks then [] else collect block)
      blocks
    ++ flat_map (λ derivation. collect_option (get "result" derivation)) derivations

unfoldable pub excluded_numerals : List Json → List Chars
unfolding collect
excluded_numerals = flat_map (λ parameter. collect_option (get "value" parameter))

abbrev pub numerals_option : Option String → List Chars
numerals_option none = []
numerals_option (some text) = numerals (chars text)

unfoldable pub prose_numerals : Json → List Chars
prose_numerals block = flat_map (λ key. numerals_option (get_str key block)) prose_keys

-- BTreeSet::contains
abbrev pub contains_chars : Chars → List Chars → Bool
contains_chars value [] = false
contains_chars value (other ∷ others) = same_chars value other || contains_chars value others
