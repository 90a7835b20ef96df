-- ===== src/Proposal/Parse.antt =====
-- Proposal::parse and UniqueValue (crates/chat/src/engine/proposal.rs).
use fineract_ai_backend.Prelude.{
  ℕ, suc, String, Bool, true, false, ◌||◌, not, Option, none, some, List, [], map, length, ◌==◌,
  ◌>>=◌, is_some, if◌then◌else◌,
}
use fineract_ai_backend.Prelude.Json.{
  Json, arr, obj, Items, nil, cons, Fields, end, field, lookup_field, insert_field,
}
use fineract_ai_backend.Prelude.Sorted.{contains_text}
use fineract_ai_backend.Proposal.Model.{
  Proposal, Validation, validation, Category, category_text, is_planned, has_no_nodes,
}
use fineract_ai_backend.Proposal.Graph.{distinct, node_id, first_failure, settle_order}

-- The visitor of UniqueValue on the value that the text spells, with its keys as they stand there. The
-- value of a key is visited before the key is inserted.
unfoldable mutual
  pub unique : Json → Option Json
  unique (arr xs) = do ys ← unique_items xs; some (arr ys)
  unique (obj fs) = do gs ← unique_fields fs end; some (obj gs)
  unique j = some j

  pub unique_items : Items → Option Items
  unique_items nil = some nil
  unique_items (cons x xs) = do y ← unique x; ys ← unique_items xs; some (cons y ys)

  pub unique_fields : Fields → Fields → Option Fields
  unique_fields end result = some result
  unique_fields (field k v fs) result = do
    w ← unique v
    let rest = unique_fields fs (insert_field k w result) in
        if is_some (lookup_field k result) then none else rest

-- Where serde_json stopped.
pub record ErrorAt : Type 0 where
  pub at_line : ℕ
  pub at_column : ℕ
  pub kind : Category

abbrev pub invalid_json : ErrorAt → Validation
invalid_json error = record {
  code = "invalid_json";
  line = some error.at_line;
  column = some error.at_column;
  category = some (category_text error.kind);
}

pub data Parsed : Type 0 where
  accepted : Proposal → Parsed
  refused : Validation → Parsed

abbrev pub same_truth : Bool → Bool → Bool
same_truth true b = b
same_truth false b = not b

unfoldable pub after_order : Proposal → Option Bool → Option Parsed
after_order proposal none = none
after_order proposal (some false) = some (refused (validation "dependency_cycle"))
after_order proposal (some true) = some (accepted proposal)

unfoldable pub after_nodes : Proposal → List String → Option String → Option Parsed
unfolding after_order settle_order
after_nodes proposal ids (some code) = some (refused (validation code))
after_nodes proposal ids none =
    after_order proposal (settle_order (suc (length ids)) proposal.nodes (length ids) [])

abbrev pub is_mismatched : Proposal → Bool
is_mismatched proposal = same_truth (is_planned proposal.decision) (has_no_nodes proposal.nodes)

abbrev pub node_ids : Proposal → List String
node_ids proposal = distinct (map node_id proposal.nodes)

abbrev pub has_bad_ids : Proposal → Bool
has_bad_ids proposal =
    not (length (node_ids proposal) == length proposal.nodes)
    || contains_text "" (node_ids proposal)

-- What follows the two deserializations. `none`: the fuel of the loop has run out.
unfoldable pub check_proposal : Proposal → Option Parsed
unfolding after_nodes distinct first_failure
check_proposal proposal =
    let ids = node_ids proposal in
    if not (proposal.schema_version == 1)
    then some (refused (validation "invalid_schema_version"))
    else if is_mismatched proposal
    then some (refused (validation "decision_nodes_mismatch"))
    else if has_bad_ids proposal
    then some (refused (validation "invalid_node_ids"))
    else after_nodes proposal ids (first_failure ids proposal.nodes)

unfoldable pub after_value : Option Proposal → Option Parsed
unfolding check_proposal
after_value none = some (refused (validation "invalid_schema"))
after_value (some proposal) = check_proposal proposal

unfoldable pub after_syntax : (Json → Option Proposal) → ErrorAt → Option Json → Option Parsed
unfolding after_value
after_syntax from_value error none = some (refused (invalid_json error))
after_syntax from_value error (some value) = after_value (from_value value)

-- `syntax_of` is serde_json's reader of the text, `error_of` where it or the visitor stops, and
-- `from_value` the derived Deserialize of a proposal.
unfoldable pub parse :
    (String → Option Json) → (String → ErrorAt) → (Json → Option Proposal) → String → Option Parsed
unfolding after_syntax unique
parse syntax_of error_of from_value text =
    after_syntax from_value (error_of text) (syntax_of text >>= unique)
