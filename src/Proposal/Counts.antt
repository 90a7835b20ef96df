-- ===== src/Proposal/Counts.antt =====
-- The sets of the loop over a proposal's nodes counted: visit, visit_nodes and settle_order
-- (crates/chat/src/engine/proposal.rs).
use text.Mathlib.Text.{◌==◌ as str_eq}
use text.Mathlib.TextEquality.{eq_iff}
use text.Mathlib.TextPositions.{eq_refl}
use fineract_ai_backend.Prelude.{
  ℕ, zero, suc, ◌+◌, ◌≤◌, ◌<◌, ◌≡◌, refl, inl, inr, String, Bool, true, false, ◌||◌, some, List, [],
  ◌∷◌, map, length, count_where, arith, ◌==◌, ltb, Bool-cases,
}
use fineract_ai_backend.Prelude.Sorted.{contains_text}
use fineract_ai_backend.Proposal.Model.{Node}
use fineract_ai_backend.Proposal.Graph.{
  node_id, visit, distinct, all_visited, visit_node, visit_nodes, settle_order,
}

abbrev pub is_in : List String → String → Bool
is_in ids id = contains_text id ids

pub contains_text-visit :
    (x a : String) (ids : List String)
    → contains_text x (visit a ids) ≡ (str_eq a x || contains_text x ids)
unfolding visit
contains_text-visit x a ids = ground (arith, eq_iff a x)

pub contains_text-distinct :
    (x : String) (ids : List String) → contains_text x (distinct ids) ≡ contains_text x ids
unfolding distinct
contains_text-distinct x [] = refl
contains_text-distinct x (a ∷ ids) =
    rw (contains_text-visit x a (distinct ids), contains_text-distinct x ids) refl

pub length-visit : (a : String) (ids : List String) → length ids ≤ length (visit a ids)
unfolding visit
length-visit a ids = ground arith

pub length-visit_node : (n : Node) (ids : List String) → length ids ≤ length (visit_node n ids)
unfolding visit_node
length-visit_node n ids = ground (arith, length-visit n.id ids)

pub length-visit_nodes :
    (ns : List Node) (ids : List String) → length ids ≤ length (visit_nodes ns ids)
unfolding visit_nodes
length-visit_nodes [] ids = omega arith
length-visit_nodes (n ∷ ns) ids =
    omega (arith, length-visit_node n ids, length-visit_nodes ns (visit_node n ids))

bound : (fuel count a b : ℕ) → a ≤ b → (a == b) ≡ false → count ≤ suc fuel + a → count ≤ fuel + b
bound fuel count a b h k l = ground arith

-- A round that does not end the loop visits an id more, so as many rounds as there are ids are enough.
pub settle_order_returns :
    (fuel : ℕ) (ns : List Node) (count : ℕ) (ids : List String)
    → count ≤ fuel + length ids
    → (b : Bool) × (settle_order (suc fuel) ns count ids ≡ some b)
unfolding settle_order
settle_order_returns zero ns count ids h = (true, ground arith)
settle_order_returns (suc fuel) ns count ids h =
    let grown = length-visit_nodes ns ids in
    elim (Bool-cases (ltb (length ids) count)) [
      | inr over ↦ (true, rw over refl)
      | inl under ↦ elim (Bool-cases (length ids == length (visit_nodes ns ids))) [
        | inl stuck ↦ (false, rw (under, stuck) refl)
        | inr moved ↦
            let (b, e) =
              settle_order_returns fuel ns count (visit_nodes ns ids)
                (bound fuel count (length ids) _ grown moved h) in
            (b, rw (under, moved) e)
      ]
    ]

counted-cons_le :
    (a : String) (ids ys : List String)
    → count_where (is_in ids) ys ≤ count_where (is_in (a ∷ ids)) ys
counted-cons_le a ids [] = omega arith
counted-cons_le a ids (y ∷ ys) = ground (arith, counted-cons_le a ids ys)

counted-cons :
    (a : String) (ids ys : List String)
    → contains_text a ids ≡ false
    → contains_text a ys ≡ true
    → count_where (is_in ids) ys < count_where (is_in (a ∷ ids)) ys
counted-cons a ids [] h k = cc
counted-cons a ids (y ∷ ys) h k = elim (Bool-cases (str_eq y a)) [
  | inl same ↦
      let e : y ≡ a = (eq_iff y a).0 same in
      let apart : contains_text y ids ≡ false = rw e h in
      let own : str_eq a y ≡ true = rw e (eq_refl a) in
      rw (apart, own) (omega (arith, counted-cons_le a ids ys))
  | inr other ↦
      let rest : contains_text a ys ≡ true = rw other at k in
      ground (arith, counted-cons a ids ys h rest)
]

-- A set visited from a list counts no more than that list.
pub visit-counted :
    (a : String) (ids ys : List String)
    → contains_text a ys ≡ true
    → length ids ≤ count_where (is_in ids) ys
    → length (visit a ids) ≤ count_where (is_in (visit a ids)) ys
unfolding visit
visit-counted a ids ys h k = elim (Bool-cases (contains_text a ids)) [
  | inl old ↦ rw (old) k
  | inr fresh ↦ rw (fresh) (omega (arith, counted-cons a ids ys fresh h))
]

-- Every member of one list is a member of the other.
abbrev pub IsWithin : List String → List String → Type 0
IsWithin ids ys = (x : String) → contains_text x ids ≡ true → contains_text x ys ≡ true

tail-IsWithin : (a : String) (ids ys : List String) → IsWithin (a ∷ ids) ys → IsWithin ids ys
tail-IsWithin a ids ys h x k = h x (ground arith)

head-IsWithin :
    (a : String) (ids ys : List String) → IsWithin (a ∷ ids) ys → contains_text a ys ≡ true
head-IsWithin a ids ys h = h a (rw (eq_refl a) refl)

pub distinct-counted :
    (ids ys : List String)
    → IsWithin ids ys
    → length (distinct ids) ≤ count_where (is_in (distinct ids)) ys
unfolding distinct
distinct-counted [] ys h = omega arith
distinct-counted (a ∷ ids) ys h =
    visit-counted a (distinct ids) ys (head-IsWithin a ids ys h)
      (distinct-counted ids ys (tail-IsWithin a ids ys h))

visit_node-counted :
    (n : Node) (ids ys : List String)
    → contains_text n.id ys ≡ true
    → length ids ≤ count_where (is_in ids) ys
    → length (visit_node n ids) ≤ count_where (is_in (visit_node n ids)) ys
unfolding visit_node
visit_node-counted n ids ys h k = elim (Bool-cases (all_visited ids n.depends_on)) [
  | inl ready ↦ rw ready (visit-counted n.id ids ys h k)
  | inr early ↦ rw early k
]

pub visit_nodes-counted :
    (ns : List Node) (ids ys : List String)
    → IsWithin (map node_id ns) ys
    → length ids ≤ count_where (is_in ids) ys
    → length (visit_nodes ns ids) ≤ count_where (is_in (visit_nodes ns ids)) ys
unfolding visit_nodes
visit_nodes-counted [] ids ys h k = k
visit_nodes-counted (n ∷ ns) ids ys h k =
    visit_nodes-counted ns (visit_node n ids) ys (tail-IsWithin n.id (map node_id ns) ys h)
      (visit_node-counted n ids ys (head-IsWithin n.id (map node_id ns) ys h) k)

pub count_where_le : (ids ys : List String) → count_where (is_in ids) ys ≤ length ys
count_where_le ids [] = omega arith
count_where_le ids (y ∷ ys) = ground (arith, count_where_le ids ys)

-- A set that counts all of a list contains all of it.
pub counted-IsWithin :
    (ids ys : List String) → length ys ≤ count_where (is_in ids) ys → IsWithin ys ids
counted-IsWithin ids [] h x k = cc
counted-IsWithin ids (y ∷ ys) h x k = elim (Bool-cases (str_eq y x)) [
  | inl same ↦
      let e : y ≡ x = (eq_iff y x).0 same in
      let own : contains_text y ids ≡ true = ground (arith, count_where_le ids ys) in rw e at own
  | inr other ↦
      let rest : contains_text x ys ≡ true = rw other at k in
      counted-IsWithin ids ys (ground (arith, count_where_le ids ys)) x rest
]
