-- ===== src/Validate/Contributors.antt =====
-- What reaches a document's claim from its contributors (section 3 of
-- crates/chat/src/engine/validate.rs).
use text.Mathlib.Text.{◌==◌ as str_eq}
use text.Mathlib.TextEquality.{eq_iff}
use text.Mathlib.TextPositions.{eq_refl}
use mathlib.Core.Option
use fineract_ai_backend.Prelude.{
  ℕ, ◌≤◌, ◌≡◌, refl, ◌∙◌, inl, inr, String, Bool-cases, Option-cases, if◌then◌else◌, false, Option,
  none, some, List, [], ◌∷◌, map, All, arith,
}
use fineract_ai_backend.Prelude.Json.{Json, get_array}
use fineract_ai_backend.Prelude.Sorted.{map_get, map_insert, map_values}
use fineract_ai_backend.Store.Vocabulary.{Completeness, completeness_text}
use fineract_ai_backend.Engine.Settle.{SettledResponse}
use fineract_ai_backend.Validate.Claims.{
  Ledger, rank, worst, block_id, contribution, contributions, note_block, first_some,
  per_block_from, per_block_completeness, aggregate,
}
use fineract_ai_backend.Validate.Worst.{badness, worst-IsLeast}
use fineract_ai_backend.Validate.Rules.{blocks_of}
use fineract_ai_backend.Validate.Apply.{apply}
use fineract_ai_backend.Validate.Honest.{apply-IsCovered}

module _ {V : Type 0} (k : String) (v : V) where
  map_get-map_insert_self : (m : List (String × V)) → map_get k (map_insert k v m) ≡ some v
  unfolding map_insert
  map_get-map_insert_self [] = rw (eq_refl k)
  map_get-map_insert_self ((j, w) ∷ m) =
      ground (arith, eq_iff k j, eq_iff j k, eq_refl k, map_get-map_insert_self m)

  map_get-map_insert_other :
      (j : String) (m : List (String × V))
      → str_eq k j ≡ false
      → map_get j (map_insert k v m) ≡ map_get j m
  unfolding map_insert
  map_get-map_insert_other j [] h = rw h
  map_get-map_insert_other j ((i, w) ∷ m) h =
      ground (arith, eq_iff k i, eq_iff i j, eq_iff k j, map_get-map_insert_other j m)

-- How bad the references of a block are: nothing where it has none.
abbrev pub CoversRefs : Ledger → Option (List Json) → ℕ → Type 0
CoversRefs ledger none n = Unit {0}
CoversRefs ledger (some refs) n = All (λ ref. rank (contribution ledger ref) ≤ n) refs

abbrev pub refs_of : Json → Option (List Json)
refs_of block = get_array "derived_from" block

-- No two blocks have the same id.
abbrev pub HaveOwnIds : List Json → Type 0
HaveOwnIds [] = Unit {0}
HaveOwnIds (b ∷ bs) = All (λ c. str_eq (block_id c) (block_id b) ≡ false) bs × HaveOwnIds bs

-- The map has an entry for the block's id that covers the block's references.
abbrev IsListed : Ledger → List (String × Completeness) → Json → Option (List Json) → Type 0
IsListed ledger m b none = Unit {0}
IsListed ledger m b (some refs) =
    (c : Completeness) × (map_get (block_id b) m ≡ some c)
    × (All (λ ref. rank (contribution ledger ref) ≤ badness c) refs)

All-contributions :
    (ledger : Ledger) (refs : List Json) (n : ℕ)
    → All (λ u. rank u ≤ n) (contributions ledger refs)
    → All (λ ref. rank (contribution ledger ref) ≤ n) refs
All-contributions ledger [] n h = tt
All-contributions ledger (ref ∷ refs) n h = (h.0, All-contributions ledger refs n h.1)

covers_contributions :
    (ledger : Ledger) (refs : List Json)
    → All (λ ref. rank (contribution ledger ref) ≤ badness (worst (contributions ledger refs))) refs
covers_contributions ledger [] = tt
covers_contributions ledger (ref ∷ refs) = All-contributions ledger (ref ∷ refs) _ (
    (worst-IsLeast (contribution ledger ref) (contributions ledger refs)
        (badness (worst (contributions ledger (ref ∷ refs))))).0
      (omega arith))

note_block-IsListed :
    (ledger : Ledger) (b : Json) (refs : Option (List Json)) (m : List (String × Completeness))
    → IsListed ledger (note_block ledger (block_id b) refs m) b refs
note_block-IsListed ledger b none m = tt
note_block-IsListed ledger b (some refs) m = (
  worst (contributions ledger refs),
  map_get-map_insert_self _ _ m,
  covers_contributions ledger refs,
)

note_block-keeps :
    (ledger : Ledger) (id : String) (refs : Option (List Json)) (m : List (String × Completeness))
    (b : Json) (brefs : Option (List Json))
    → str_eq id (block_id b) ≡ false
    → IsListed ledger m b brefs
    → IsListed ledger (note_block ledger id refs m) b brefs
note_block-keeps ledger id none m b brefs other listed = listed
note_block-keeps ledger id (some refs) m b none other listed = tt
note_block-keeps ledger id (some refs) m b (some brefs) other (c, e, h) =
    (c, map_get-map_insert_other id _ (block_id b) m other ∙ e, h)

per_block_from-keeps :
    (ledger : Ledger) (bs : List Json) (m : List (String × Completeness)) (b : Json)
    → All (λ c. str_eq (block_id c) (block_id b) ≡ false) bs
    → IsListed ledger m b (refs_of b)
    → IsListed ledger (per_block_from ledger bs m) b (refs_of b)
unfolding per_block_from
per_block_from-keeps ledger [] m b others listed = listed
per_block_from-keeps ledger (c ∷ cs) m b others listed =
    per_block_from-keeps ledger cs _ b others.1
      (note_block-keeps ledger (block_id c) (refs_of c) m b (refs_of b) others.0 listed)

per_block_from-IsListed :
    (ledger : Ledger) (bs : List Json) (m : List (String × Completeness))
    → HaveOwnIds bs
    → All (λ b. IsListed ledger (per_block_from ledger bs m) b (refs_of b)) bs
unfolding per_block_from
per_block_from-IsListed ledger [] m own = tt
per_block_from-IsListed ledger (b ∷ bs) m own = (
  per_block_from-keeps ledger bs _ b own.0 (note_block-IsListed ledger b (refs_of b) m),
  per_block_from-IsListed ledger bs _ own.1,
)

All-map_get :
    (m : List (String × Completeness)) (id : String) (c : Completeness) (n : ℕ)
    → All (λ u. rank u ≤ n) (map completeness_text (map_values m))
    → map_get id m ≡ some c
    → badness c ≤ n
All-map_get [] id c n h e = cc
All-map_get ((j, w) ∷ m) id c n h e = ground (arith, All-map_get m id c n h.1)

map_get-aggregate :
    (m : List (String × Completeness)) (id : String) (c : Completeness)
    → map_get id m ≡ some c
    → badness c ≤ badness (aggregate m)
unfolding aggregate
map_get-aggregate [] id c e = cc
map_get-aggregate ((j, w) ∷ m) id c e =
    All-map_get ((j, w) ∷ m) id c _
      ((worst-IsLeast (completeness_text w) (map completeness_text (map_values m))
          (badness (aggregate ((j, w) ∷ m)))).0
        (omega arith))
      e

All-weaken :
    (ledger : Ledger) (refs : List Json) (m n : ℕ)
    → m ≤ n
    → All (λ ref. rank (contribution ledger ref) ≤ m) refs
    → All (λ ref. rank (contribution ledger ref) ≤ n) refs
All-weaken ledger [] m n h all = tt
All-weaken ledger (ref ∷ refs) m n h all =
    (omega (arith, all.0), All-weaken ledger refs m n h all.1)

listed-covers :
    (ledger : Ledger) (m : List (String × Completeness)) (b : Json) (refs : Option (List Json))
    (n : ℕ)
    → badness (aggregate m) ≤ n
    → IsListed ledger m b refs
    → CoversRefs ledger refs n
listed-covers ledger m b none n h listed = tt
listed-covers ledger m b (some refs) n h (c, e, all) =
    let bound = map_get-aggregate m (block_id b) c e in
    All-weaken ledger refs (badness c) n (omega arith) all

All-listed-covers :
    (ledger : Ledger) (m : List (String × Completeness)) (bs : List Json) (n : ℕ)
    → badness (aggregate m) ≤ n
    → All (λ b. IsListed ledger m b (refs_of b)) bs
    → All (λ b. CoversRefs ledger (refs_of b) n) bs
All-listed-covers ledger m [] n h all = tt
All-listed-covers ledger m (b ∷ bs) n h all =
    (listed-covers ledger m b (refs_of b) n h all.0, All-listed-covers ledger m bs n h all.1)

-- Where no two blocks of the document that is served have the same id, its claim is at least as bad
-- as every contributor of every block of it is in the ledger.
pub apply-CoversRefs :
    (digest to_string : Json → String) (response : SettledResponse) (ledger : Ledger)
    → HaveOwnIds (blocks_of (apply digest to_string response ledger).served.blocks)
    → All
        (λ b.
          CoversRefs ledger
            (refs_of b)
            (badness (apply digest to_string response ledger).served.completeness))
        (blocks_of (apply digest to_string response ledger).served.blocks)
unfolding per_block_completeness
apply-CoversRefs digest to_string response ledger own =
    let served = (apply digest to_string response ledger).served in
    All-listed-covers ledger _ (blocks_of served.blocks) _
      (apply-IsCovered digest to_string response ledger).0
      (per_block_from-IsListed ledger (blocks_of served.blocks) [] own)

-- The references of the last block with this id that has some.
abbrev pub last_refs : String → List Json → Option (List Json)
last_refs id [] = none
last_refs id (b ∷ bs) =
    first_some (last_refs id bs) (if str_eq (block_id b) id then refs_of b else none)

-- What a document's blocks add to the entry of an id.
entry_of : Ledger → Option (List Json) → Option Completeness → Option Completeness
entry_of ledger none before = before
entry_of ledger (some refs) before = some (worst (contributions ledger refs))

entry_of-note_block :
    (ledger : Ledger) (id : String) (b : Json) (refs last : Option (List Json))
    (m : List (String × Completeness))
    → entry_of ledger last (map_get id (note_block ledger (block_id b) refs m))
      ≡ entry_of ledger
          (first_some last (if str_eq (block_id b) id then refs else none))
          (map_get id m)
unfolding entry_of
entry_of-note_block ledger id b refs (some last) m = refl
entry_of-note_block ledger id b none none m = ground arith
entry_of-note_block ledger id b (some refs) none m = elim (Bool-cases (str_eq (block_id b) id)) [
  | inl same ↦ rw ((eq_iff (block_id b) id).0 same, eq_refl id) (map_get-map_insert_self id _ m)
  | inr other ↦ rw other (map_get-map_insert_other (block_id b) _ id m other)
]

map_get-per_block_from :
    (ledger : Ledger) (id : String) (bs : List Json) (m : List (String × Completeness))
    → map_get id (per_block_from ledger bs m) ≡ entry_of ledger (last_refs id bs) (map_get id m)
unfolding per_block_from
map_get-per_block_from ledger id [] m = unfold entry_of in refl
map_get-per_block_from ledger id (b ∷ bs) m =
    map_get-per_block_from ledger id bs (note_block ledger (block_id b) (refs_of b) m)
    ∙ entry_of-note_block ledger id b (refs_of b) (last_refs id bs) m

-- The entry that the ledger's computation has for a block id is the worst of what the contributors of
-- the last block with this id that has references contribute, whatever earlier blocks with the same
-- id have; there is no entry where no block with this id has references.
pub map_get-per_block_completeness :
    (ledger : Ledger) (blocks : List Json) (id : String)
    → map_get id (per_block_completeness blocks ledger)
      ≡ Option.map (λ refs. worst (contributions ledger refs)) (last_refs id blocks)
unfolding per_block_completeness entry_of
map_get-per_block_completeness ledger blocks id =
    map_get-per_block_from ledger id blocks [] ∙ elim (Option-cases (last_refs id blocks)) [
      | inl unlisted ↦ rw unlisted refl
      | inr (refs, listed) ↦ rw listed refl
    ]
