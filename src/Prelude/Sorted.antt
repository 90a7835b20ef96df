-- ===== src/Prelude/Sorted.antt =====
-- The standard collections: `BTreeSet<String>` as a sorted list without repeats, and
-- `BTreeMap<String, V>` as a list of entries sorted by key; and the texts that `format!` writes.
use Prim.Native.Nat.{ℕ, zero, suc, Ordering, ◌+◌, ◌/◌, ◌%◌}
use Prim.Native.String.{String, compare, ◌++◌}
use text.Mathlib.Text.{◌==◌ as str_eq}
use mathlib.Core.Bool.{Bool, true, false, ◌&&◌, ◌||◌}
use mathlib.Core.List.{List, [], ◌∷◌}
use mathlib.Core.Option.{Option, none, some}
use fineract_ai_backend.Prelude.Tests.{if◌then◌else◌, ◌==◌}

-- BTreeSet::insert
unfoldable pub set_insert : String → List String → List String
set_insert a [] = a ∷ []
set_insert a (b ∷ bs) = elim (compare a b) [
  | Ordering.lt ↦ a ∷ b ∷ bs
  | Ordering.eq ↦ b ∷ bs
  | Ordering.gt ↦ b ∷ set_insert a bs
]

-- `iter().collect::<BTreeSet<_>>()`, and `sort_unstable(); dedup()` on a Vec.
unfoldable pub sorted_set : List String → List String
unfolding set_insert
sorted_set [] = []
sorted_set (a ∷ as') = set_insert a (sorted_set as')

abbrev pub contains_text : String → List String → Bool
contains_text a [] = false
contains_text a (b ∷ bs) = str_eq b a || contains_text a bs

-- BTreeSet::difference
unfoldable pub difference : List String → List String → List String
difference [] bs = []
difference (a ∷ as') bs = if contains_text a bs then difference as' bs else a ∷ difference as' bs

-- Equality of vectors of texts.
unfoldable pub same_texts : List String → List String → Bool
same_texts [] [] = true
same_texts (a ∷ as') (b ∷ bs) = str_eq a b && same_texts as' bs
same_texts [] (b ∷ bs) = false
same_texts (a ∷ as') [] = false

module _ {V : Type 0} where
  -- BTreeMap::get
  abbrev pub map_get : String → List (String × V) → Option V
  map_get k [] = none
  map_get k ((j, v) ∷ m) = if str_eq j k then some v else map_get k m

  -- BTreeMap::insert: the value of a present key is replaced.
  unfoldable pub map_insert : String → V → List (String × V) → List (String × V)
  map_insert k v [] = (k, v) ∷ []
  map_insert k v ((j, w) ∷ m) = elim (compare k j) [
    | Ordering.lt ↦ (k, v) ∷ (j, w) ∷ m
    | Ordering.eq ↦ (k, v) ∷ m
    | Ordering.gt ↦ (j, w) ∷ map_insert k v m
  ]

  -- BTreeMap::values
  abbrev pub map_values : List (String × V) → List V
  map_values [] = []
  map_values ((j, v) ∷ m) = v ∷ map_values m

-- `[…].join(separator)`
unfoldable pub join : String → List String → String
join separator [] = ""
join separator (a ∷ []) = a
join separator (a ∷ b ∷ bs) = a ++ (separator ++ join separator (b ∷ bs))

digit_text : ℕ → String
digit_text d =
    if d == 0
    then "0"
    else if d == 1
    then "1"
    else if d == 2
    then "2"
    else if d == 3
    then "3"
    else if d == 4
    then "4"
    else if d == 5
    then "5"
    else if d == 6
    then "6"
    else if d == 7
    then "7"
    else if d == 8
    then "8"
    else "9"

-- A number has fewer digits than its successor, which is the fuel.
digits_onto : ℕ → ℕ → String → String
unfolding digit_text
digits_onto zero n text = text
digits_onto (suc fuel) n text =
    let rest = digits_onto fuel (n / 10) (digit_text (n % 10) ++ text) in
    if n == 0 then text else rest

-- `to_string()` of an unsigned integer.
unfoldable pub decimal : ℕ → String
unfolding digits_onto
decimal n = if n == 0 then "0" else digits_onto (n + 1) n ""

-- The text that `format!` makes of its parts.
unfoldable pub concat_texts : List String → String
concat_texts [] = ""
concat_texts (a ∷ as') = a ++ concat_texts as'
