-- ===== src/Proposal/Unique.antt =====
-- The JSON values that the visitor of UniqueValue lets through (crates/chat/src/engine/proposal.rs).
use text.Mathlib.Text.{◌==◌ as str_eq}
use text.Mathlib.TextEquality.{eq_iff}
use text.Mathlib.TextPositions.{eq_refl}
use fineract_ai_backend.Prelude.{
  ◌≡◌, refl, sym, ap, ◌∙◌, subst, inl, inr, String, Bool, true, false, Option, none, some,
  Bool-cases, if◌then◌else◌, ◌>>=◌, >>=-eq-some, is_some, some_injective,
}
use fineract_ai_backend.Prelude.Json.{
  Json, null, bool, num, real, str, arr, obj, Items, nil, cons, Fields, end, field, lookup_field,
  insert_field,
}
use fineract_ai_backend.Proposal.Model.{Proposal}
use fineract_ai_backend.Proposal.Parse.{
  unique, unique_items, unique_fields, accepted, ErrorAt, after_value, after_syntax, parse,
}
use fineract_ai_backend.Proposal.Checked.{check_proposal_accepted}

-- No object in the value, at any depth, has a key twice.
unfoldable mutual
  pub HasUniqueKeys : Json → Type 0
  HasUniqueKeys (arr xs) = ItemsHaveUniqueKeys xs
  HasUniqueKeys (obj fs) = FieldsHaveUniqueKeys fs
  HasUniqueKeys _ = Unit

  pub ItemsHaveUniqueKeys : Items → Type 0
  ItemsHaveUniqueKeys nil = Unit
  ItemsHaveUniqueKeys (cons x xs) = HasUniqueKeys x × ItemsHaveUniqueKeys xs

  pub FieldsHaveUniqueKeys : Fields → Type 0
  FieldsHaveUniqueKeys end = Unit
  FieldsHaveUniqueKeys (field k v fs) =
      (lookup_field k fs ≡ none) × HasUniqueKeys v × FieldsHaveUniqueKeys fs

abbrev append_fields : Fields → Fields → Fields
append_fields end gs = gs
append_fields (field k v fs) gs = field k v (append_fields fs gs)

append_fields-end : (fs : Fields) → append_fields fs end ≡ fs
append_fields-end end = refl
append_fields-end (field k v fs) = ap (field k v) (append_fields-end fs)

insert_field-append_fields :
    (k : String) (v : Json) (fs gs : Fields)
    → lookup_field k fs ≡ none
    → append_fields (insert_field k v fs) gs ≡ append_fields fs (field k v gs)
insert_field-append_fields k v end gs h = refl
insert_field-append_fields k v (field j w fs) gs h = elim (Bool-cases (str_eq j k)) [
  | inl same ↦ let h' : some w ≡ none = rw same at h in cc
  | inr other ↦
      let rest : lookup_field k fs ≡ none = rw other at h in
      rw other (ap (field j w) (insert_field-append_fields k v fs gs rest))
]

-- A key of the first fields is none of the second.
abbrev AreApart : Fields → Fields → Type 0
AreApart end gs = Unit
AreApart (field k v fs) gs = (lookup_field k gs ≡ none) × AreApart fs gs

else_none :
    (b : Bool) (v : Json) (o : Option Json)
    → (if b then some v else o) ≡ none
    → (b ≡ false) × (o ≡ none)
else_none true v o h = cc
else_none false v o h = (refl, h)

eq_false : (a b : String) → str_eq a b ≡ false → str_eq b a ≡ false
eq_false a b h = elim (Bool-cases (str_eq b a)) [
  | inl same ↦ let own : str_eq a b ≡ true = rw ((eq_iff b a).0 same) (eq_refl a) in cc
  | inr other ↦ other
]

lookup_field-insert_field :
    (k j : String) (v : Json) (gs : Fields)
    → lookup_field k (insert_field j v gs) ≡ none
    → (lookup_field k gs ≡ none) × (str_eq j k ≡ false)
lookup_field-insert_field k j v end h = (refl, (else_none (str_eq j k) v none h).0)
lookup_field-insert_field k j v (field i w gs) h = elim (Bool-cases (str_eq i j)) [
  | inl same ↦
      let (apart, rest) = else_none (str_eq i k) v (lookup_field k gs) (rw same at h) in
      (rw apart rest, subst (λ (x : String). str_eq x k ≡ false) ((eq_iff i j).0 same) apart)
  | inr other ↦
      let (apart, rest) =
        else_none (str_eq i k) w (lookup_field k (insert_field j v gs)) (rw other at h) in
      let (absent, distinct) = lookup_field-insert_field k j v gs rest in
      (rw apart absent, distinct)
]

apart_inserted :
    (k : String) (w : Json) (fs gs : Fields)
    → AreApart fs (insert_field k w gs)
    → AreApart fs gs × (lookup_field k fs ≡ none)
apart_inserted k w end gs h = (tt, refl)
apart_inserted k w (field j u fs) gs h =
    let (other, apart) = lookup_field-insert_field j k w gs h.0 in
    let (rest, absent) = apart_inserted k w fs gs h.1 in
    ((other, rest), rw (eq_false k j apart) absent)

unless_present :
    (o : Option Json) (rest : Option Fields) (g : Fields)
    → (if is_some o then none else rest) ≡ some g
    → (o ≡ none) × (rest ≡ some g)
unless_present none rest g h = (refl, h)
unless_present (some v) rest g h = cc

mutual
  unfolding unique unique_items unique_fields HasUniqueKeys ItemsHaveUniqueKeys FieldsHaveUniqueKeys

  pub unique_kept : (j u : Json) → unique j ≡ some u → (u ≡ j) × HasUniqueKeys j
  unique_kept null u h = (sym (some_injective h), tt)
  unique_kept (bool b) u h = (sym (some_injective h), tt)
  unique_kept (num n) u h = (sym (some_injective h), tt)
  unique_kept (real t) u h = (sym (some_injective h), tt)
  unique_kept (str t) u h = (sym (some_injective h), tt)
  unique_kept (arr xs) u h =
      let (ys, e, k) = >>=-eq-some (unique_items xs) (λ ys. some (arr ys)) h in
      let (same, all) = items_kept xs ys e in (sym (some_injective k) ∙ ap arr same, all)
  unique_kept (obj fs) u h =
      let (gs, e, k) = >>=-eq-some (unique_fields fs end) (λ gs. some (obj gs)) h in
      let (same, apart, all) = fields_kept fs end gs e in
      (sym (some_injective k) ∙ ap obj same, all)

  items_kept : (xs ys : Items) → unique_items xs ≡ some ys → (ys ≡ xs) × ItemsHaveUniqueKeys xs
  items_kept nil ys h = (sym (some_injective h), tt)
  items_kept (cons x xs) ys h =
      let (y, e, k) =
        >>=-eq-some (unique x) (λ y. unique_items xs >>= (λ zs. some (cons y zs))) h in
      let (zs, e', k') = >>=-eq-some (unique_items xs) (λ zs. some (cons y zs)) k in
      let (same, one) = unique_kept x y e in
      let (rest, all) = items_kept xs zs e' in
      (sym (some_injective k') ∙ (ap (λ (z : Json). cons z zs) same ∙ ap (cons x) rest), (one, all))

  fields_kept :
      (fs gs result : Fields)
      → unique_fields fs gs ≡ some result
      → (result ≡ append_fields gs fs) × AreApart fs gs × FieldsHaveUniqueKeys fs
  fields_kept end gs result h = (sym (some_injective h) ∙ sym (append_fields-end gs), tt, tt)
  fields_kept (field k v fs) gs result h =
      let (w, e, h') =
        >>=-eq-some (unique v)
          (λ w.
            if is_some (lookup_field k gs) then none else unique_fields fs (insert_field k w gs))
          h in
      let (absent, rest) =
        unless_present (lookup_field k gs) (unique_fields fs (insert_field k w gs)) result h' in
      let (kept, one) = unique_kept v w e in
      let (same, apart, all) = fields_kept fs (insert_field k w gs) result rest in
      let (others, own) = apart_inserted k w fs gs apart in
      (
        same
            ∙ (insert_field-append_fields k w gs fs absent
                ∙ ap (λ (x : Json). append_fields gs (field k x fs)) kept),
        (absent, others),
        (own, one, all),
      )

value_accepted :
    (o : Option Proposal) (p : Proposal) → after_value o ≡ some (accepted p) → o ≡ some p
unfolding after_value
value_accepted none p h = cc
value_accepted (some q) p h = ap some (check_proposal_accepted q p h).0

syntax_accepted :
    (from_value : Json → Option Proposal) (error : ErrorAt) (o : Option Json) (p : Proposal)
    → after_syntax from_value error o ≡ some (accepted p)
    → (u : Json) × (o ≡ some u) × (from_value u ≡ some p)
unfolding after_syntax
syntax_accepted from_value error none p h = cc
syntax_accepted from_value error (some u) p h = (u, refl, value_accepted (from_value u) p h)

-- Each proposal that parse accepts is what the deserializer makes of the very value that the text
-- spells, and no object in that value has a key twice.
pub parse-HasUniqueKeys :
    (syntax_of : String → Option Json) (error_of : String → ErrorAt)
    (from_value : Json → Option Proposal) (text : String) (p : Proposal)
    → parse syntax_of error_of from_value text ≡ some (accepted p)
    → (j : Json) × (syntax_of text ≡ some j) × (from_value j ≡ some p) × HasUniqueKeys j
unfolding parse
parse-HasUniqueKeys syntax_of error_of from_value text p h =
    let (u, read, value) =
      syntax_accepted from_value (error_of text) (syntax_of text >>= unique) p h in
    let (j, spelled, visited) = >>=-eq-some (syntax_of text) unique read in
    let (same, keys) = unique_kept j u visited in
    (j, spelled, subst (λ (x : Json). from_value x ≡ some p) same value, keys)
