-- ===== src/Proposal/Graph.antt =====
-- The checks on the graph of a proposal's nodes (Proposal::parse of
-- crates/chat/src/engine/proposal.rs). The order of a `BTreeSet` is not observed here, so a set is the
-- list of its members without repeats.
use text.Mathlib.Text.{◌==◌ as str_eq}
use fineract_ai_backend.Prelude.{
  ℕ, zero, suc, String, Bool, true, false, ◌&&◌, ◌||◌, not, Option, none, some, List, [], ◌∷◌, any,
  length, ◌==◌, ltb, if◌then◌else◌,
}
use fineract_ai_backend.Prelude.Sorted.{contains_text, map_values}
use fineract_ai_backend.Proposal.Model.{Slot, node_output, Node}

-- BTreeSet::insert
unfoldable pub visit : String → List String → List String
visit id visited = if contains_text id visited then visited else id ∷ visited

-- `collect::<BTreeSet<_>>()`
unfoldable pub distinct : List String → List String
unfolding visit
distinct [] = []
distinct (id ∷ ids) = visit id (distinct ids)

abbrev pub node_id : Node → String
node_id node = node.id

abbrev pub all_visited : List String → List String → Bool
all_visited visited [] = true
all_visited visited (id ∷ ids) = contains_text id visited && all_visited visited ids

-- The body of `for node in &proposal.nodes` in the loop.
unfoldable pub visit_node : Node → List String → List String
unfolding visit
visit_node node visited =
    if all_visited visited node.depends_on then visit node.id visited else visited

unfoldable pub visit_nodes : List Node → List String → List String
unfolding visit_node
visit_nodes [] visited = visited
visit_nodes (node ∷ nodes) visited = visit_nodes nodes (visit_node node visited)

-- The loop: `some false` is its error, and `none` that the fuel has run out.
unfoldable pub settle_order : ℕ → List Node → ℕ → List String → Option Bool
unfolding visit_nodes
settle_order zero nodes count visited = none
settle_order (suc fuel) nodes count visited =
    let after = visit_nodes nodes visited in
    let rest = settle_order fuel nodes count after in
    if ltb (length visited) count
    then (if length visited == length after then some false else rest)
    else some true

abbrev is_bad_dependency : List String → String → String → Bool
is_bad_dependency ids own id = not (contains_text id ids) || str_eq id own

abbrev pub is_unbound : List String → Slot → Bool
is_unbound dependencies (node_output id output_slot) =
    not (contains_text id dependencies) || str_eq output_slot ""
is_unbound dependencies _ = false

-- The body of the first loop over the nodes.
unfoldable pub node_failure : List String → Node → Option String
unfolding distinct
node_failure ids node =
    let dependencies = distinct node.depends_on in
    if not (length dependencies == length node.depends_on)
      || any (is_bad_dependency ids node.id) dependencies
    then some "invalid_dependencies"
    else if any (is_unbound dependencies) (map_values node.slots)
    then some "invalid_output_binding"
    else none

abbrev pub or_failure : Option String → Option String → Option String
or_failure none other = other
or_failure (some code) other = some code

unfoldable pub first_failure : List String → List Node → Option String
unfolding node_failure
first_failure ids [] = none
first_failure ids (node ∷ nodes) = or_failure (node_failure ids node) (first_failure ids nodes)
