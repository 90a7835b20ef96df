-- ===== src/Proposal/Sound.antt =====
-- The proposals that Proposal::parse (crates/chat/src/engine/proposal.rs) accepts.
use text.Mathlib.Text.{◌==◌ as str_eq}
use fineract_ai_backend.Prelude.{
  ◌≡◌, ◌≢◌, ◌↔◌, refl, subst, String, Bool, true, false, ◌||◌, not, Option, none, some, List, [],
  ◌∷◌, map, length, All, any, arith, if◌then◌else◌, ◌>>=◌,
}
use fineract_ai_backend.Prelude.Json.{Json}
use fineract_ai_backend.Prelude.Sorted.{contains_text, map_values}
use fineract_ai_backend.Proposal.Model.{
  Decision, planned, abstain, no_fit, Node, Slot, is_planned, has_no_nodes, value, date_phrase,
  probe, node_output, Proposal,
}
use fineract_ai_backend.Proposal.Graph.{
  distinct, node_id, is_unbound, node_failure, or_failure, first_failure,
}
use fineract_ai_backend.Proposal.Parse.{
  accepted, same_truth, ErrorAt, after_value, after_syntax, parse, unique, is_mismatched, node_ids,
}
use fineract_ai_backend.Proposal.Counts.{contains_text-distinct}
use fineract_ai_backend.Proposal.Founded.{AreFounded}
use fineract_ai_backend.Proposal.Checked.{IsChecked, check_proposal_accepted}

-- A slot that takes another node's output takes a named one, of a node that its own declares to depend
-- on.
abbrev pub IsBound : List String → Slot → Type 0
IsBound dependencies (node_output id output) =
    (contains_text id dependencies ≡ true) × (str_eq output "" ≡ false)
IsBound dependencies _ = Unit

abbrev pub AreBound : Node → Type 0
AreBound n = All (IsBound n.depends_on) (map_values n.slots)

slot-IsBound : (ids : List String) (s : Slot) → is_unbound (distinct ids) s ≡ false → IsBound ids s
slot-IsBound ids (value v source) h = tt
slot-IsBound ids (date_phrase source) h = tt
slot-IsBound ids (probe arguments) h = tt
slot-IsBound ids (node_output id output) h =
    let h' : (not (contains_text id ids) || str_eq output "") ≡ false =
      rw (contains_text-distinct id ids) at h in
    (ground arith, ground arith)

slots-AreBound :
    (ids : List String) (ss : List Slot)
    → any (is_unbound (distinct ids)) ss ≡ false
    → All (IsBound ids) ss
slots-AreBound ids [] h = tt
slots-AreBound ids (s ∷ ss) h =
    (slot-IsBound ids s (ground arith), slots-AreBound ids ss (ground arith))

neither :
    (x y : String) (a b : Bool)
    → (if a then some x else if b then some y else none) ≡ none
    → b ≡ false
neither x y true b h = cc
neither x y false true h = cc
neither x y false false h = refl

node-AreBound : (ids : List String) (n : Node) → node_failure ids n ≡ none → AreBound n
unfolding node_failure
node-AreBound ids n h = slots-AreBound n.depends_on (map_values n.slots) (neither _ _ _ _ h)

neither_failure : (a b : Option String) → or_failure a b ≡ none → (a ≡ none) × (b ≡ none)
neither_failure none b h = (refl, h)
neither_failure (some code) b h = cc

nodes-AreBound :
    (ids : List String) (ns : List Node) → first_failure ids ns ≡ none → All AreBound ns
unfolding first_failure
nodes-AreBound ids [] h = tt
nodes-AreBound ids (n ∷ ns) h =
    let (fine, rest) = neither_failure (node_failure ids n) (first_failure ids ns) h in
    (node-AreBound ids n fine, nodes-AreBound ids ns rest)

-- Of version 1; planned exactly when it has nodes; with distinct ids, none of them empty; without a
-- cycle or a dependency on an id that no node has; and with bound outputs.
pub record IsSound (p : Proposal) : Type 0 where
  pub version : p.schema_version ≡ 1
  pub decided : (p.decision ≡ planned) ↔ (p.nodes ≢ [])
  pub distinct_ids : length (distinct (map node_id p.nodes)) ≡ length p.nodes
  pub named : contains_text "" (map node_id p.nodes) ≡ false
  pub acyclic : AreFounded p.nodes (map node_id p.nodes)
  pub bound : All AreBound p.nodes

decided_cases :
    (d : Decision) (ns : List Node)
    → same_truth (is_planned d) (has_no_nodes ns) ≡ false
    → (d ≡ planned) ↔ (ns ≢ [])
decided_cases planned [] h = cc
decided_cases planned (n ∷ ns) h = (λ _ e. cc, λ _. refl)
decided_cases abstain [] h = (λ e. cc, λ k. elim (k refl) [ ])
decided_cases abstain (n ∷ ns) h = cc
decided_cases no_fit [] h = (λ e. cc, λ k. elim (k refl) [ ])
decided_cases no_fit (n ∷ ns) h = cc

planned-nodes : (p : Proposal) → is_mismatched p ≡ false → (p.decision ≡ planned) ↔ (p.nodes ≢ [])
planned-nodes p h = decided_cases p.decision p.nodes h

IsChecked-IsSound : (p : Proposal) → IsChecked p → IsSound p
IsChecked-IsSound p c =
    let ids = c.ids in
    let has_no_empty : contains_text "" (distinct (map node_id p.nodes)) ≡ false = ground arith in
    record {
      version = c.version;
      decided = planned-nodes p c.planned;
      distinct_ids = ground arith;
      named = rw (contains_text-distinct "" (map node_id p.nodes)) at has_no_empty;
      acyclic = c.acyclic;
      bound = nodes-AreBound (node_ids p) p.nodes c.nodes;
    }

value-IsSound : (o : Option Proposal) (p : Proposal) → after_value o ≡ some (accepted p) → IsSound p
unfolding after_value
value-IsSound none p h = cc
value-IsSound (some q) p h =
    let (e, c) = check_proposal_accepted q p h in subst IsSound e (IsChecked-IsSound q c)

syntax-IsSound :
    (from_value : Json → Option Proposal) (error : ErrorAt) (o : Option Json) (p : Proposal)
    → after_syntax from_value error o ≡ some (accepted p)
    → IsSound p
unfolding after_syntax
syntax-IsSound from_value error none p h = cc
syntax-IsSound from_value error (some v) p h = value-IsSound (from_value v) p h

-- Each proposal that parse accepts, of whatever text, is of version 1, is a plan exactly when it has
-- nodes, has distinct and non-empty node ids, no cycle of dependencies and none on an id without a
-- node, and binds an output slot only to a declared dependency.
pub parse-IsSound :
    (syntax_of : String → Option Json) (error_of : String → ErrorAt)
    (from_value : Json → Option Proposal) (text : String) (p : Proposal)
    → parse syntax_of error_of from_value text ≡ some (accepted p)
    → IsSound p
unfolding parse
parse-IsSound syntax_of error_of from_value text p h =
    syntax-IsSound from_value (error_of text) (syntax_of text >>= unique) p h
