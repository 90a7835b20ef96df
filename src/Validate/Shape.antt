-- ===== src/Validate/Shape.antt =====
-- A block without a failure of shape_failures is well shaped (crates/chat/src/engine/validate.rs).
use text.Mathlib.Text.{◌==◌ as str_eq}
use fineract_ai_backend.Prelude.{
  ◌≡◌, refl, ◌⊎◌, inl, inr, String, Bool, true, false, not, ◌&&◌, Option, none, some, List, [], ◌∷◌,
  ◌++◌, arith, if◌then◌else◌,
}
use fineract_ai_backend.Prelude.Json.{
  Json, null, bool, real, str, arr, obj, num, get, get_str, get_array,
}
use fineract_ai_backend.Prelude.Sorted.{contains_text}
use fineract_ai_backend.Validate.Claims.{block_id}
use fineract_ai_backend.Validate.Evidence.{block_type}
use fineract_ai_backend.Validate.Rules.{
  Failure, failing, block_types, needs_refs, in_vocabulary, has_id, has_version, has_refs,
  shape_failures_of, is_empty_text, is_nonempty_array, has_schema_version,
}
use fineract_ai_backend.Validate.Dropped.{NameBlock}

abbrev pub HasId : Json → Type 0
HasId b = (id : String) × (get_str "block_id" b ≡ some id) × (str_eq id "" ≡ false)

abbrev pub HasRefs : Json → Type 0
HasRefs b = (ref : Json) × (refs : List Json) × (get_array "derived_from" b ≡ some (ref ∷ refs))

-- A block of a known type with an id, the schema's version, and the references that it needs.
abbrev pub IsWellShaped : Json → Type 0
IsWellShaped b =
    (contains_text (block_type b) block_types ≡ true)
    × HasId b
    × (get "schema_version" b ≡ some (num 1))
    × ((needs_refs b ≡ false) ⊎ HasRefs b)

text-HasId :
    (o : Option String)
    → not (is_empty_text o) ≡ true
    → (id : String) × (o ≡ some id) × (str_eq id "" ≡ false)
text-HasId none h = cc
text-HasId (some id) h = (id, refl, ground arith)

version-num : (o : Option Json) → has_schema_version o ≡ true → o ≡ some (num 1)
version-num none h = cc
version-num (some null) h = cc
version-num (some (bool b)) h = cc
version-num (some (num n)) h = ground arith
version-num (some (real text)) h = cc
version-num (some (str text)) h = cc
version-num (some (arr items)) h = cc
version-num (some (obj fields)) h = cc

refs-some :
    (o : Option (List Json))
    → is_nonempty_array o ≡ true
    → (ref : Json) × (refs : List Json) × (o ≡ some (ref ∷ refs))
refs-some none h = cc
refs-some (some []) h = cc
refs-some (some (ref ∷ refs)) h = (ref, refs, refl)

needed_refs :
    (needs : Bool) (o : Option (List Json))
    → (needs && not (is_nonempty_array o)) ≡ false
    → (needs ≡ false) ⊎ ((ref : Json) × (refs : List Json) × (o ≡ some (ref ∷ refs)))
needed_refs false o h = inl refl
needed_refs true o h = inr (refs-some o (ground arith))

shape_parts :
    (known id version refs : Bool) (f x y z : Failure)
    → (if not known
        then f ∷ []
        else failing (not id) x ++ (failing (not version) y ++ failing refs z))
      ≡ []
    → (known ≡ true) × (id ≡ true) × (version ≡ true) × (refs ≡ false)
shape_parts false id version refs f x y z h = cc
shape_parts true false version refs f x y z h = cc
shape_parts true true false refs f x y z h = cc
shape_parts true true true true f x y z h = cc
shape_parts true true true false f x y z h = (refl, refl, refl, refl)

pub shape_failures_of-nil : (b : Json) → shape_failures_of b ≡ [] → IsWellShaped b
unfolding shape_failures_of
shape_failures_of-nil b h =
    let (known, id, version, refs) =
      shape_parts (in_vocabulary b) (has_id b) (has_version b) (needs_refs b && not (has_refs b)) _
        _ _ _ h in
    (known, text-HasId _ id, version-num _ version, needed_refs _ _ refs)

-- Every failure of one round names the block.
module _ (b : Json) where
  abbrev pub Names : Failure → Type 0
  Names f = f.block_id ≡ some (block_id b)

  failing-NameBlock :
      (c : Bool) (f : Failure) (rest : List Failure)
      → Names f
      → NameBlock b rest
      → NameBlock b (failing c f ++ rest)
  failing-NameBlock true f rest e h = (e, h)
  failing-NameBlock false f rest e h = h

  pub one-NameBlock : (c : Bool) (f : Failure) → Names f → NameBlock b (failing c f)
  one-NameBlock true f e = (e, tt)
  one-NameBlock false f e = tt

  shape-Names :
      (known id version refs : Bool) (f x y z : Failure) (fs : List Failure)
      → fs ≡ (
          if not known
          then f ∷ []
          else failing (not id) x ++ (failing (not version) y ++ failing refs z))
      → Names f
      → Names x
      → Names y
      → Names z
      → NameBlock b fs
  shape-Names false id version refs f x y z fs e hf hx hy hz = rw e (hf, tt)
  shape-Names true id version refs f x y z fs e hf hx hy hz = rw e (
      failing-NameBlock (not id) x _ hx
        (failing-NameBlock (not version) y _ hy (one-NameBlock refs z hz)))

  pub shape_failures_of-NameBlock : NameBlock b (shape_failures_of b)
  unfolding shape_failures_of
  shape_failures_of-NameBlock =
      shape-Names (in_vocabulary b) (has_id b) (has_version b) (needs_refs b && not (has_refs b)) _
        _ _ _ _ refl refl refl refl refl
