-- ===== src/Validate/Dropped.antt =====
-- A block of which a failure is named is not among those that the fallback keeps
-- (crates/chat/src/engine/validate.rs).
use text.Mathlib.Text.{◌==◌ as str_eq}
use text.Mathlib.TextEquality.{eq_iff}
use text.Mathlib.TextPositions.{eq_refl}
use mathlib.Core.List.{map-append}
use fineract_ai_backend.Prelude.{
  ◌≡◌, refl, sym, ap, ◌∙◌, inl, inr, String, Bool, false, not, ◌||◌, Option, none, some, List, [],
  ◌∷◌, ◌++◌, map, All, where_rows, arith, Bool-cases,
}
use fineract_ai_backend.Prelude.Json.{Json}
use fineract_ai_backend.Prelude.Sorted.{contains_text, set_insert, sorted_set}
use fineract_ai_backend.Validate.Claims.{block_id}
use fineract_ai_backend.Validate.Evidence.{flat_map}
use fineract_ai_backend.Validate.Rules.{Failure, some_texts}
use fineract_ai_backend.Validate.Apply.{id_of}

abbrev pub is_named : List Failure → String → Bool
is_named fs id = contains_text id (some_texts (map id_of fs))

contains_text-set_insert :
    (x a : String) (bs : List String)
    → contains_text x (set_insert a bs) ≡ (str_eq a x || contains_text x bs)
unfolding set_insert
contains_text-set_insert x a [] = refl
contains_text-set_insert x a (b ∷ bs) = ground (arith, eq_iff a b, contains_text-set_insert x a bs)

pub contains_text-sorted_set :
    (x : String) (bs : List String) → contains_text x (sorted_set bs) ≡ contains_text x bs
unfolding sorted_set
contains_text-sorted_set x [] = refl
contains_text-sorted_set x (b ∷ bs) =
    contains_text-set_insert x b (sorted_set bs)
    ∙ ap (λ r. str_eq b x || r) (contains_text-sorted_set x bs)

contains_text-some_texts :
    (x : String) (as' bs : List (Option String))
    → contains_text x (some_texts (as' ++ bs))
      ≡ (contains_text x (some_texts as') || contains_text x (some_texts bs))
contains_text-some_texts x [] bs = refl
contains_text-some_texts x (none ∷ as') bs = contains_text-some_texts x as' bs
contains_text-some_texts x (some a ∷ as') bs = ground (arith, contains_text-some_texts x as' bs)

pub is_named-append :
    (fs gs : List Failure) (x : String) → is_named (fs ++ gs) x ≡ (is_named fs x || is_named gs x)
is_named-append fs gs x =
    rw (map-append id_of fs gs) (contains_text-some_texts x (map id_of fs) (map id_of gs))

-- Every failure of the list names this block.
abbrev pub NameBlock : Json → List Failure → Type 0
NameBlock b = All (λ f. f.block_id ≡ some (block_id b))

unnamed-nil :
    (b : Json) (fs : List Failure) → NameBlock b fs → is_named fs (block_id b) ≡ false → fs ≡ []
unnamed-nil b [] names h = refl
unnamed-nil b (f ∷ fs) names h =
    let h' : (str_eq (block_id b) (block_id b) || is_named fs (block_id b)) ≡ false =
      rw names.0 at h in
    ground (arith, eq_refl (block_id b))

pub false_parts : (a b : Bool) → (a || b) ≡ false → (a ≡ false) × (b ≡ false)
false_parts a b h = ground arith

module _ (per : Json → List Failure) (named : (b : Json) → NameBlock b (per b)) where
  pub kept-nil :
      (test : String → Bool) (bs : List Json)
      → ((x : String) → test x ≡ false → is_named (flat_map per bs) x ≡ false)
      → All (λ b. per b ≡ []) (where_rows (λ b. not (test (block_id b))) bs)
  kept-nil test [] h = tt
  kept-nil test (b ∷ bs) h =
      let parts = λ (x : String) (e : test x ≡ false).
        false_parts _ _ (sym (is_named-append (per b) (flat_map per bs) x) ∙ h x e) in
      let rest = kept-nil test bs (λ x e. (parts x e).1) in
      elim (Bool-cases (test (block_id b))) [
        | inl t ↦ rw t rest
        | inr f ↦ rw f (unnamed-nil b (per b) (named b) (parts (block_id b) f).0, rest)
      ]
