-- ===== src/Proposal/Founded.antt =====
-- Which nodes the loop of Proposal::parse (crates/chat/src/engine/proposal.rs) visits.
use text.Mathlib.Text.{◌==◌ as str_eq}
use text.Mathlib.TextEquality.{eq_iff}
use fineract_ai_backend.Prelude.{
  ℕ, zero, suc, ◌≤◌, ◌≡◌, subst, inl, inr, String, true, false, ◌||◌, some, List, [], ◌∷◌, map,
  length, All, arith, ◌==◌, ltb, Bool-cases, count_where,
}
use fineract_ai_backend.Prelude.Sorted.{contains_text}
use fineract_ai_backend.Proposal.Model.{Node}
use fineract_ai_backend.Proposal.Graph.{
  node_id, visit, all_visited, visit_node, visit_nodes, settle_order,
}
use fineract_ai_backend.Proposal.Counts.{
  is_in, IsWithin, contains_text-visit, visit_nodes-counted, counted-IsWithin,
}

pub data HasNode (n : Node) : List Node → Type 0 where
  first : {ns : List Node} → HasNode n (n ∷ ns)
  later : {m : Node} {ns : List Node} → HasNode n ns → HasNode n (m ∷ ns)

-- An id of a node all of whose dependencies are founded: below it is no cycle, and no id without a node.
pub data IsFounded (nodes : List Node) : String → Type 0 where
  founded :
      (n : Node)
      → HasNode n nodes
      → ((d : String) → contains_text d n.depends_on ≡ true → IsFounded nodes d)
      → IsFounded nodes n.id

abbrev pub AreFounded : List Node → List String → Type 0
AreFounded nodes ids = (x : String) → contains_text x ids ≡ true → IsFounded nodes x

pub all_visited-IsWithin :
    (visited deps : List String) → all_visited visited deps ≡ true → IsWithin deps visited
all_visited-IsWithin visited [] h x k = cc
all_visited-IsWithin visited (d ∷ deps) h x k = elim (Bool-cases (str_eq d x)) [
  | inl same ↦
      let own : contains_text d visited ≡ true = ground arith in rw ((eq_iff d x).0 same) at own
  | inr other ↦
      let rest : contains_text x deps ≡ true = rw other at k in
      all_visited-IsWithin visited deps (ground arith) x rest
]

visit-AreFounded :
    (nodes : List Node) (a : String) (ids : List String)
    → IsFounded nodes a
    → AreFounded nodes ids
    → AreFounded nodes (visit a ids)
visit-AreFounded nodes a ids h old x k =
    let k' : (str_eq a x || contains_text x ids) ≡ true = rw (contains_text-visit x a ids) at k in
    elim (Bool-cases (str_eq a x)) [
      | inl same ↦ subst (IsFounded nodes) ((eq_iff a x).0 same) h
      | inr other ↦ old x (rw other at k')
    ]

visit_node-AreFounded :
    (nodes : List Node) (n : Node) (ids : List String)
    → HasNode n nodes
    → AreFounded nodes ids
    → AreFounded nodes (visit_node n ids)
unfolding visit_node
visit_node-AreFounded nodes n ids h old = elim (Bool-cases (all_visited ids n.depends_on)) [
  | inl ready ↦
      let own : IsFounded nodes n.id =
        founded n h (λ d k. old d (all_visited-IsWithin ids n.depends_on ready d k)) in
      rw ready (visit-AreFounded nodes n.id ids own old)
  | inr early ↦ rw early old
]

abbrev pub HasNodes : List Node → List Node → Type 0
HasNodes nodes = All (λ n. HasNode n nodes)

visit_nodes-AreFounded :
    (nodes ns : List Node) (ids : List String)
    → HasNodes nodes ns
    → AreFounded nodes ids
    → AreFounded nodes (visit_nodes ns ids)
unfolding visit_nodes
visit_nodes-AreFounded nodes [] ids h old = old
visit_nodes-AreFounded nodes (n ∷ ns) ids h old =
    visit_nodes-AreFounded nodes ns (visit_node n ids) h.1
      (visit_node-AreFounded nodes n ids h.0 old)

later_nodes : (n : Node) (nodes ns : List Node) → HasNodes nodes ns → HasNodes (n ∷ nodes) ns
later_nodes n nodes [] h = tt
later_nodes n nodes (m ∷ ns) h = (later h.0, later_nodes n nodes ns h.1)

pub own_nodes : (ns : List Node) → HasNodes ns ns
own_nodes [] = tt
own_nodes (n ∷ ns) = (first, later_nodes n ns ns (own_nodes ns))

-- A loop that ends without an error has visited each id, and only founded ones.
pub settled-AreFounded :
    (fuel : ℕ) (nodes : List Node) (ids visited : List String)
    → IsWithin (map node_id nodes) ids
    → length visited ≤ count_where (is_in visited) ids
    → AreFounded nodes visited
    → settle_order fuel nodes (length ids) visited ≡ some true
    → AreFounded nodes ids
unfolding settle_order
settled-AreFounded zero nodes ids visited within counted old h = cc
settled-AreFounded (suc fuel) nodes ids visited within counted old h =
    elim (Bool-cases (ltb (length visited) (length ids))) [
      | inr over ↦
          let full : length ids ≤ count_where (is_in visited) ids = ground arith in
          λ x k. old x (counted-IsWithin visited ids full x k)
      | inl under ↦ elim (Bool-cases (length visited == length (visit_nodes nodes visited))) [
        | inl stuck ↦ let h' : some false ≡ some true = rw (under, stuck) at h in cc
        | inr moved ↦
            settled-AreFounded fuel nodes ids (visit_nodes nodes visited) within
              (visit_nodes-counted nodes visited ids within counted)
              (visit_nodes-AreFounded nodes nodes visited (own_nodes nodes) old)
              (rw (under, moved) at h)
      ]
    ]
