-- ===== src/Proposal/Checked.antt =====
-- What Proposal::parse (crates/chat/src/engine/proposal.rs) promises of the proposals that it accepts.
use fineract_ai_backend.Prelude.{
  ◌≡◌, refl, String, Bool, true, false, not, Option, none, some, [], map, length, arith, ◌==◌,
  if◌then◌else◌, ◌>>=◌,
}
use fineract_ai_backend.Prelude.Json.{Json}
use fineract_ai_backend.Proposal.Model.{Proposal, Validation}
use fineract_ai_backend.Proposal.Graph.{distinct, node_id, first_failure}
use fineract_ai_backend.Proposal.Parse.{
  Parsed, accepted, refused, ErrorAt, after_order, after_nodes, check_proposal, after_value,
  after_syntax, parse, unique, is_mismatched, has_bad_ids, node_ids,
}
use fineract_ai_backend.Proposal.Counts.{settle_order_returns}
use fineract_ai_backend.Proposal.Founded.{AreFounded}
use fineract_ai_backend.Proposal.Acyclic.{settled, settled-AreFounded_iff}

-- Some result, whatever it is.
abbrev pub Returns {ℓ} : {A : Type ℓ} → Option A → Type ℓ
Returns {A = A} o = (a : A) × (o ≡ some a)

after_order-Returns : (p : Proposal) (b : Bool) → Returns (after_order p (some b))
unfolding after_order
after_order-Returns p true = (_, refl)
after_order-Returns p false = (_, refl)

after_nodes-Returns :
    (p : Proposal) (failure : Option String)
    → Returns (after_nodes p (distinct (map node_id p.nodes)) failure)
unfolding after_nodes
after_nodes-Returns p (some code) = (_, refl)
after_nodes-Returns p none =
    let ids = distinct (map node_id p.nodes) in
    let (b, e) = settle_order_returns (length ids) p.nodes (length ids) [] (omega arith) in
    rw e (after_order-Returns p b)

if-Returns {ℓ} :
    {A : Type ℓ} (b : Bool) (a : A) (o : Option A) → Returns o → Returns (if b then some a else o)
if-Returns true a o h = (a, refl)
if-Returns false a o h = h

check_proposal-Returns : (p : Proposal) → Returns (check_proposal p)
unfolding check_proposal
check_proposal-Returns p =
    let last = after_nodes-Returns p (first_failure (node_ids p) p.nodes) in
    if-Returns (not (p.schema_version == 1)) _ _
      (if-Returns (is_mismatched p) _ _ (if-Returns (has_bad_ids p) _ _ last))

value-Returns : (o : Option Proposal) → Returns (after_value o)
unfolding after_value
value-Returns none = (_, refl)
value-Returns (some p) = check_proposal-Returns p

syntax-Returns :
    (from_value : Json → Option Proposal) (error : ErrorAt) (o : Option Json)
    → Returns (after_syntax from_value error o)
unfolding after_syntax
syntax-Returns from_value error none = (_, refl)
syntax-Returns from_value error (some value) = value-Returns (from_value value)

-- For every text, and whatever the reader of JSON and the derived deserializer give, parse returns a
-- proposal or an error: the fuel of its loop does not run out.
pub parse_returns :
    (syntax_of : String → Option Json) (error_of : String → ErrorAt)
    (from_value : Json → Option Proposal) (text : String)
    → (r : Parsed) × (parse syntax_of error_of from_value text ≡ some r)
unfolding parse
parse_returns syntax_of error_of from_value text =
    syntax-Returns from_value (error_of text) (syntax_of text >>= unique)

if-accepted :
    {p : Proposal} (b : Bool) (v : Validation) (o : Option Parsed)
    → (if b then some (refused v) else o) ≡ some (accepted p)
    → (b ≡ false) × (o ≡ some (accepted p))
if-accepted true v o h = cc
if-accepted false v o h = (refl, h)

-- What the checks of a proposal establish.
pub record IsChecked (p : Proposal) : Type 0 where
  pub version : p.schema_version ≡ 1
  pub planned : is_mismatched p ≡ false
  pub ids : has_bad_ids p ≡ false
  pub nodes : first_failure (node_ids p) p.nodes ≡ none
  pub acyclic : AreFounded p.nodes (map node_id p.nodes)

order_accepted :
    (p q : Proposal) (o : Option Bool)
    → after_order p o ≡ some (accepted q)
    → (p ≡ q) × (o ≡ some true)
unfolding after_order
order_accepted p q none h = cc
order_accepted p q (some false) h = cc
order_accepted p q (some true) h = (cc, refl)

nodes_accepted :
    (p q : Proposal) (o : Option String)
    → after_nodes p (node_ids p) o ≡ some (accepted q)
    → (p ≡ q) × (o ≡ none) × (settled p.nodes ≡ some true)
unfolding after_nodes
nodes_accepted p q (some code) h = cc
nodes_accepted p q none h = let (e, k) = order_accepted p q (settled p.nodes) h in (e, refl, k)

pub check_proposal_accepted :
    (p q : Proposal) → check_proposal p ≡ some (accepted q) → (p ≡ q) × IsChecked p
unfolding check_proposal
check_proposal_accepted p q h =
    let (version, h1) = if-accepted (not (p.schema_version == 1)) _ _ h in
    let (planned, h2) = if-accepted (is_mismatched p) _ _ h1 in
    let (ids, h3) = if-accepted (has_bad_ids p) _ _ h2 in
    let (e, nodes, order) = nodes_accepted p q (first_failure (node_ids p) p.nodes) h3 in
    (
      e,
      record {
        version = ground arith;
        planned = planned;
        ids = ids;
        nodes = nodes;
        acyclic = (settled-AreFounded_iff p.nodes).0 order;
      },
    )
