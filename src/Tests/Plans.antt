-- ===== src/Tests/Plans.antt =====
-- Proposals on which the theorems of Proposal are applied.
use fineract_ai_backend.Prelude.{
  ◌≡◌, ◌↔◌, refl, String, true, Option, none, some, List, [], ◌∷◌, map,
}
use fineract_ai_backend.Prelude.Json.{Json, null, num, str, obj, field, end}
use fineract_ai_backend.Proposal.Model.{
  node_output, date_phrase, Node, Proposal, planned, high, validation, mismatch,
}
use fineract_ai_backend.Proposal.Graph.{node_id}
use fineract_ai_backend.Proposal.Parse.{
  Parsed, refused, accepted, ErrorAt, check_proposal, parse, unique, unique_items, unique_fields,
}
use fineract_ai_backend.Proposal.Unique.{HasUniqueKeys, parse-HasUniqueKeys}
use fineract_ai_backend.Proposal.Founded.{AreFounded}
use fineract_ai_backend.Proposal.Acyclic.{settled, settled-AreFounded_iff}
use fineract_ai_backend.Proposal.Checked.{parse_returns}
use fineract_ai_backend.Proposal.Sound.{IsSound, parse-IsSound}

abbrev totals : Node
totals = record {
  id = "totals";
  capability_id = "loan_totals";
  depends_on = "office" ∷ [];
  slots = ("office_id", node_output "office" "id") ∷ [];
}

abbrev office : Node
office = record {
  id = "office";
  capability_id = "office_lookup";
  depends_on = [];
  slots = ("from_date", date_phrase (record { quote = "this year"; occurrence = 0 })) ∷ [];
}

abbrev circular : Node
circular = record {
  id = "office";
  capability_id = "office_lookup";
  depends_on = "totals" ∷ [];
  slots = [];
}

abbrev plan : List Node → Proposal
plan nodes = record { schema_version = 1; decision = planned; confidence = high; nodes = nodes }

-- The graph is settled whatever the order of the nodes, and a cycle is refused.
orders :
    (check_proposal (plan (totals ∷ office ∷ [])) ≡ some (accepted (plan (totals ∷ office ∷ []))))
    × (check_proposal (plan (office ∷ totals ∷ [])) ≡ some (accepted (plan (office ∷ totals ∷ []))))
    × (check_proposal (plan (totals ∷ circular ∷ []))
        ≡ some (refused (validation "dependency_cycle")))
    × (check_proposal (plan (totals ∷ [])) ≡ some (refused (validation "invalid_dependencies")))
    × (check_proposal (plan []) ≡ some (refused (validation "decision_nodes_mismatch")))
unfolding check_proposal
orders = (refl, refl, refl, refl, refl)

abbrev syntax_of : String → Option Json
syntax_of text = some (obj (field "schema_version" (num 1) (field "text" (str text) end)))

abbrev error_of : String → ErrorAt
error_of text = record { at_line = 1; at_column = 1; kind = mismatch }

abbrev from_value : Json → Option Proposal
from_value value = some (plan (totals ∷ office ∷ []))

parsed : parse syntax_of error_of from_value "…" ≡ some (accepted (plan (totals ∷ office ∷ [])))
unfolding parse
parsed = refl

parse-IsSound_example : IsSound (plan (totals ∷ office ∷ []))
parse-IsSound_example =
    parse-IsSound syntax_of error_of from_value "…" (plan (totals ∷ office ∷ [])) parsed

parse_returns_example : (r : Parsed) × (parse syntax_of error_of from_value "…" ≡ some r)
parse_returns_example = parse_returns syntax_of error_of from_value "…"

settled-AreFounded_iff_example :
    (settled (totals ∷ office ∷ []) ≡ some true)
    ↔ AreFounded (totals ∷ office ∷ []) (map node_id (totals ∷ office ∷ []))
settled-AreFounded_iff_example = settled-AreFounded_iff (totals ∷ office ∷ [])

parse-HasUniqueKeys_example :
    (j : Json) × (syntax_of "…" ≡ some j)
    × (from_value j ≡ some (plan (totals ∷ office ∷ [])))
    × HasUniqueKeys j
parse-HasUniqueKeys_example =
    parse-HasUniqueKeys syntax_of error_of from_value "…" (plan (totals ∷ office ∷ [])) parsed

-- A key that is repeated below the top is found too.
repeated :
    (unique (obj (field "slots" (obj (field "x" null (field "x" null end))) end)) ≡ none)
    × (unique (obj (field "x" null (field "y" null end)))
        ≡ some (obj (field "x" null (field "y" null end))))
unfolding unique unique_items unique_fields
repeated = (refl, refl)
