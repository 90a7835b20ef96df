-- ===== src/Proposal/Acyclic.antt =====
-- The loop of Proposal::parse (crates/chat/src/engine/proposal.rs) refuses the cyclic graphs only.
use text.Mathlib.TextPositions.{eq_refl}
use fineract_ai_backend.Prelude.{
  ℕ, zero, suc, ◌≡◌, ◌≢◌, refl, inl, inr, ◌↔◌, String, Bool, true, false, Option, some, List, [],
  ◌∷◌, map, length, All, arith, ◌==◌, ltb, Bool-cases,
}
use fineract_ai_backend.Prelude.Sorted.{contains_text}
use fineract_ai_backend.Proposal.Model.{Node}
use fineract_ai_backend.Proposal.Graph.{
  node_id, visit, distinct, all_visited, visit_node, visit_nodes, settle_order,
}
use fineract_ai_backend.Proposal.Counts.{
  IsWithin, contains_text-distinct, length-visit_nodes, length-visit_node, distinct-counted,
  count_where_le, settle_order_returns,
}
use fineract_ai_backend.Proposal.Founded.{
  HasNode, first, later, IsFounded, founded, AreFounded, settled-AreFounded,
}

-- A node whose dependencies are visited is visited.
abbrev IsClosed : List String → Node → Type 0
IsClosed visited n = all_visited visited n.depends_on ≡ true → contains_text n.id visited ≡ true

visit_stuck :
    (a : String) (ids : List String)
    → length (visit a ids) ≡ length ids
    → (visit a ids ≡ ids) × (contains_text a ids ≡ true)
unfolding visit
visit_stuck a ids h = elim (Bool-cases (contains_text a ids)) [
  | inl old ↦ (rw old refl, old)
  | inr fresh ↦
      let h' : suc (length ids) ≡ length ids = rw fresh at h in
      let none_such : ⊥ = omega arith in elim none_such [ ]
]

visit_node_stuck :
    (n : Node) (ids : List String)
    → length (visit_node n ids) ≡ length ids
    → (visit_node n ids ≡ ids) × IsClosed ids n
unfolding visit_node
visit_node_stuck n ids h = elim (Bool-cases (all_visited ids n.depends_on)) [
  | inl ready ↦ let (e, k) = visit_stuck n.id ids (rw ready at h) in (rw ready e, λ _. k)
  | inr early ↦ (rw early refl, λ ready. cc)
]

visit_nodes_stuck :
    (ns : List Node) (ids : List String)
    → length (visit_nodes ns ids) ≡ length ids
    → All (IsClosed ids) ns
unfolding visit_nodes
visit_nodes_stuck [] ids h = tt
visit_nodes_stuck (n ∷ ns) ids h =
    let (e, closed) =
      visit_node_stuck n ids
        (omega (arith, h, length-visit_node n ids, length-visit_nodes ns (visit_node n ids))) in
    (closed, visit_nodes_stuck ns ids (rw e at h))

IsClosed-at :
    (visited : List String) (n : Node) (ns : List Node)
    → HasNode n ns
    → All (IsClosed visited) ns
    → IsClosed visited n
IsClosed-at visited n [] there h = elim there [ ]
IsClosed-at visited n (_ ∷ ns) first h = h.0
IsClosed-at visited n (_ ∷ ns) (later k) h = IsClosed-at visited n ns k h.1

all_visited-each :
    (visited deps : List String) → IsWithin deps visited → all_visited visited deps ≡ true
all_visited-each visited [] h = refl
all_visited-each visited (d ∷ deps) h =
    rw (h d (rw (eq_refl d) refl), all_visited-each visited deps (λ x k. h x (ground arith))) refl

founded-visited :
    (nodes : List Node) (visited : List String) (x : String)
    → All (IsClosed visited) nodes
    → IsFounded nodes x
    → contains_text x visited ≡ true
founded-visited nodes visited _ closed (founded n h below) = IsClosed-at visited n nodes h closed (
    all_visited-each visited n.depends_on
      (λ d k. founded-visited nodes visited d closed (below d k)))

-- A loop whose round adds nothing leaves an id out, which is then not founded.
unsettled :
    (fuel : ℕ) (nodes : List Node) (ids visited : List String)
    → AreFounded nodes (distinct ids)
    → settle_order fuel nodes (length (distinct ids)) visited ≢ some false
unfolding settle_order
unsettled zero nodes ids visited all h = cc
unsettled (suc fuel) nodes ids visited all h =
    let count = length (distinct ids) in
    elim (Bool-cases (ltb (length visited) (length (distinct ids)))) [
      | inr over ↦ let h' : some true ≡ some false = rw over at h in cc
      | inl under ↦ elim (Bool-cases (length visited == length (visit_nodes nodes visited))) [
        | inl stuck ↦
            let closed = visit_nodes_stuck nodes visited (ground arith) in
            let within : IsWithin ids visited = λ x k.
              founded-visited nodes visited x closed
                (all x (rw (contains_text-distinct x ids) k)) in
            let counted = distinct-counted ids visited within in
            let most = count_where_le (distinct ids) visited in ground arith
        | inr moved ↦
            unsettled fuel nodes ids (visit_nodes nodes visited) all (rw (under, moved) at h)
      ]
    ]

abbrev node_ids : List Node → List String
node_ids nodes = map node_id nodes

-- The loop with the fuel of check_proposal.
abbrev pub settled : List Node → Option Bool
settled nodes =
    let ids = distinct (node_ids nodes) in settle_order (suc (length ids)) nodes (length ids) []

decided : (o : Option Bool) (b : Bool) → o ≡ some b → o ≢ some false → o ≡ some true
decided o true h k = h
decided o false h k = elim (k h) [ ]

-- For every list of nodes the loop returns, and it returns without the error of a cycle exactly when
-- the id of each node is founded: all that it depends on, directly or not, are ids of nodes without a
-- cycle.
pub settled-AreFounded_iff :
    (nodes : List Node) → (settled nodes ≡ some true) ↔ AreFounded nodes (map node_id nodes)
unfolding distinct
settled-AreFounded_iff nodes =
    let ids = map node_id nodes in
    let within : IsWithin ids (distinct ids) = λ x k. rw (contains_text-distinct x ids) k in
    let (b, e) =
      settle_order_returns (length (distinct ids)) nodes (length (distinct ids)) [] (omega arith) in
    (
      λ h x k.
          settled-AreFounded (suc (length (distinct ids))) nodes (distinct ids) [] within
            (omega arith) (λ y l. cc) h x (within x k),
      λ all. decided (settled nodes) b e (
          unsettled (suc (length (distinct ids))) nodes ids []
            (λ x k. all x (rw (contains_text-distinct x ids) at k))),
    )
