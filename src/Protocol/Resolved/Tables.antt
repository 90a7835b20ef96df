-- ===== src/Protocol/Resolved/Tables.antt =====
-- The forms of a job after the writes of a clarification (clarification_forms and resolve).
use fineract_ai_backend.Prelude.{
  ℕ, ◌≡◌, refl, ap, ◌∙◌, Bool, true, false, ◌&&◌, ◌||◌, String, List, [], ◌∷◌, ◌++◌, ◌==◌, any,
  if-cases, update_where, arith,
}
use fineract_ai_backend.Store.Vocabulary.{FormState, is_open}
use fineract_ai_backend.Store.Rows.{Form}
use fineract_ai_backend.Clarification.{is_open_form, resolve}

abbrev pub has_id : ℕ → Form → Bool
has_id id f = f.id == id

-- The job has the form, and no row of it is open.
abbrev pub IsResolved : ℕ → List Form → Type 0
IsResolved id fs = (any (has_id id) fs ≡ true) × (any (is_open_form id) fs ≡ false)

or_false : (a b : Bool) → (a || b) ≡ false → (a ≡ false) × (b ≡ false)
or_false a b h = ground arith

and_false : (a b : Bool) → b ≡ false → (a && b) ≡ false
and_false a b h = ground arith

or_falses : (a b : Bool) → a ≡ false → b ≡ false → (a || b) ≡ false
or_falses a b h k = ground arith

any-append :
    (test : Form → Bool) (fs : List Form) (f : Form)
    → any test (fs ++ f ∷ []) ≡ (any test fs || test f)
any-append test [] f = ground arith
any-append test (g ∷ fs) f = ground (arith, any-append test fs f)

-- An id that the job's forms have is not one that they do not have.
other_id :
    (id k : ℕ) (fs : List Form)
    → any (has_id id) fs ≡ true
    → any (has_id k) fs ≡ false
    → (k == id) ≡ false
other_id id k [] h new = cc
other_id id k (f ∷ fs) h new = ground (arith, other_id id k fs)

-- A new row has another id, since the id is the key of the table.
pub IsResolved-append :
    (id : ℕ) (f : Form) (fs : List Form)
    → any (has_id f.id) fs ≡ false
    → IsResolved id fs
    → IsResolved id (fs ++ f ∷ [])
IsResolved-append id f fs new h = (
  any-append (has_id id) fs f ∙ rw h.0 refl,
  any-append (is_open_form id) fs f ∙ rw (h.1, other_id id f.id fs h.0 new) refl,
)

open-has_id : (j : ℕ) (fs : List Form) → any (is_open_form j) fs ≡ true → any (has_id j) fs ≡ true
open-has_id j [] h = cc
open-has_id j (f ∷ fs) h = ground (arith, open-has_id j fs)

module _ (now actor : ℕ) (state : FormState) (reason : String) (closed : is_open state ≡ false)
    (j : ℕ) where
  abbrev pub resolved : List Form → List Form
  resolved fs = update_where (is_open_form j) (resolve now actor state reason) fs

  has_id-resolved : (id : ℕ) (fs : List Form) → any (has_id id) (resolved fs) ≡ any (has_id id) fs
  unfolding resolve
  has_id-resolved id [] = refl
  has_id-resolved id (f ∷ fs) =
      let rest = ap (λ b. f.id == id || b) (has_id-resolved id fs) in
      if-cases
        (λ (x : Form).
          (x.id == id || any (has_id id) (resolved fs)) ≡ (f.id == id || any (has_id id) fs))
        (is_open_form j f) (λ _. rest) (λ _. rest)

  resolve-closed : (id : ℕ) (f : Form) → is_open_form id (resolve now actor state reason f) ≡ false
  unfolding resolve
  resolve-closed id f = and_false (f.id == id) (is_open state) closed

  open-resolved :
      (id : ℕ) (fs : List Form)
      → any (is_open_form id) fs ≡ false
      → any (is_open_form id) (resolved fs) ≡ false
  open-resolved id [] h = refl
  open-resolved id (f ∷ fs) h =
      let (here, there) = or_false (is_open_form id f) (any (is_open_form id) fs) h in
      or_falses _ _
        (if-cases (λ (x : Form). is_open_form id x ≡ false) (is_open_form j f)
          (λ _. resolve-closed id f) (λ _. here))
        (open-resolved id fs there)

  pub IsResolved-resolved :
      (id : ℕ) (fs : List Form) → IsResolved id fs → IsResolved id (resolved fs)
  IsResolved-resolved id fs h = (has_id-resolved id fs ∙ h.0, open-resolved id fs h.1)

  none_open : (fs : List Form) → any (is_open_form j) (resolved fs) ≡ false
  none_open [] = refl
  none_open (f ∷ fs) =
      or_falses _ _
        (if-cases (λ (x : Form). is_open_form j x ≡ false) (is_open_form j f)
          (λ _. resolve-closed j f) (λ passed. passed))
        (none_open fs)

  -- The update resolves its form.
  pub resolved-IsResolved :
      (fs : List Form) → any (is_open_form j) fs ≡ true → IsResolved j (resolved fs)
  resolved-IsResolved fs h = (has_id-resolved j fs ∙ open-has_id j fs h, none_open fs)
