-- ===== src/Clarification/Answers.antt =====
-- The answers of a form (AcceptedAnswer, insert_answer, answered_fields,
-- crates/chat/src/clarification/repository.rs; the constraints of clarification_answers,
-- migrations/20260913000005_memory_clarification_messages.sql).
use text.Mathlib.Text.{◌==◌ as str_eq}
use fineract_ai_backend.Prelude.{
  ℕ, String, Bool, ◌&&◌, not, Option, none, some, List, [], ◌∷◌, ◌++◌, ◌==◌, ◌>>=◌, any,
  if◌then◌else◌,
}
use fineract_ai_backend.Prelude.Sorted.{contains_text}
use fineract_ai_backend.Prelude.Json.{Json, str}
use fineract_ai_backend.Store.Rows.{Answer}

pub record AcceptedAnswer : Type 0 where
  pub field_id : String
  pub answer_kind : String
  pub raw_text : Option String
  pub binding_json : Json
  pub provenance : String
  pub resolver_ref : Option String
  pub option_set_ref : Option String

abbrev answer_row : ℕ → Option ℕ → AcceptedAnswer → Answer
answer_row form_id answered_by a = record {
  form_id = form_id;
  field_id = a.field_id;
  answer_kind = a.answer_kind;
  raw_text = a.raw_text;
  binding_json = a.binding_json;
  provenance = a.provenance;
  resolver_ref = a.resolver_ref;
  option_set_ref = a.option_set_ref;
  answered_by_user_id = answered_by;
}

abbrev answer_kinds : List String
answer_kinds = "option_id" ∷ "typed_value" ∷ "refine_search" ∷ "change_intent" ∷ []

abbrev unbound_kinds : List String
unbound_kinds = "refine_search" ∷ "change_intent" ∷ []

abbrev provenances : List String
provenances = "user_confirmed" ∷ "resolver_unique" ∷ "deterministic_parse" ∷ []

-- The three CHECKs of clarification_answers. `binding_json` is bound as a JSON value, which is never
-- the NULL that the third allows for the unbound kinds.
abbrev pub is_storable : AcceptedAnswer → Bool
is_storable a =
    contains_text a.answer_kind answer_kinds
    && (contains_text a.provenance provenances && not (contains_text a.answer_kind unbound_kinds))

-- PRIMARY KEY (form_id, field_id)
abbrev pub is_answer_of : ℕ → String → Answer → Bool
is_answer_of form_id field_id a = a.form_id == form_id && str_eq a.field_id field_id

-- `none`: a constraint of the table is violated, and the transaction fails.
unfoldable pub insert_answer : ℕ → Option ℕ → AcceptedAnswer → List Answer → Option (List Answer)
insert_answer form_id answered_by a rows =
    if is_storable a && not (any (is_answer_of form_id a.field_id) rows)
    then some (rows ++ answer_row form_id answered_by a ∷ [])
    else none

-- The loop over the answers; the first that fails ends it.
unfoldable pub insert_answers :
    ℕ → Option ℕ → List AcceptedAnswer → List Answer → Option (List Answer)
unfolding insert_answer
insert_answers form_id answered_by [] rows = some rows
insert_answers form_id answered_by (a ∷ answers) rows =
    insert_answer form_id answered_by a rows >>= insert_answers form_id answered_by answers

abbrev pub field_names : List AcceptedAnswer → List Json
field_names [] = []
field_names (a ∷ answers) = str a.field_id ∷ field_names answers
