-- ===== src/Protocol/Resolved.antt =====
-- A form that was answered or skipped stays so (crates/chat/src/clarification/repository.rs).
mod Forms
mod Tables
use fineract_ai_backend.Protocol.Resolved.Tables.{
  has_id, IsResolved, IsResolved-append, IsResolved-resolved, resolved-IsResolved,
}
use mathlib.Core.Option.{some_inj}
use fineract_ai_backend.Prelude.{
  ℕ, ◌≡◌, refl, sym, ap, ◌∙◌, subst, ◌⊎◌, inl, inr, Bool, true, false, ◌&&◌, ◌||◌, Option, none,
  some, String, List, [], ◌∷◌, ◌++◌, ◌==◌, ◌>>=◌, any, Bool-cases, if◌then◌else◌, if-cases,
  update_where, arith,
}
use fineract_ai_backend.Store.Vocabulary.{FormState, is_open, is_waiting}
use fineract_ai_backend.Store.Rows.{Form, Answer, JobRows}
use fineract_ai_backend.Store.Sessions.{Session}
use fineract_ai_backend.Job.Cancel.{request_cancel}
use fineract_ai_backend.Engine.Claim.{renew_lease}
use fineract_ai_backend.Engine.Model.{ModelAdmission, admit_model, finish_model}
use fineract_ai_backend.Engine.Node.{complete_node, write_outcome}
use fineract_ai_backend.Engine.Settle.{
  FailureActor, reaper, settle_with_response, settle_failed, record_failure, settle_cancelled,
}
use fineract_ai_backend.Engine.Reaper.{expire, cancel_orphan}
use fineract_ai_backend.Clarification.{
  AcceptedAnswer, SkippedResponse, Question, open_form, insert_form, insert_answers, accept_answers,
  skip, is_open_form, resolve,
}
use fineract_ai_backend.Protocol.Step.{
  committed, committed_with, committed_rows, Step, cancels, claims, renews, admits_model,
  finishes_model, persists_plan, admits_node, completes_node, settles, fails, settles_cancelled,
  expires, closes_orphan, recovers, asks, answers, skips, Reach, Run-preserves,
}
use fineract_ai_backend.Protocol.Resolved.Forms.{
  abandon-forms, skip_unadmitted-forms, claim-forms, persist_plan-forms, admit_node-forms,
  recover-forms,
}

and_left : (a b : Bool) → (a && b) ≡ true → a ≡ true
and_left a b h = ground arith

stored_pair :
    (known open' : Bool) (m : Option (List Answer)) (fs : List Form) (w : List Form × List Answer)
    → (if known || open' then none else (m >>= λ answers. some (fs, answers))) ≡ some w
    → (known ≡ false) × (w.0 ≡ fs)
stored_pair true open' m fs w e = cc
stored_pair false true m fs w e = cc
stored_pair false false none fs w e = cc
stored_pair false false (some rows) fs w e = (refl, ap (λ x. x.0) (sym (some_inj.0 e)))

-- What the two inserts of a new form left.
insert_form-forms :
    (form : Form) (auto_bound : List AcceptedAnswer) (r : JobRows) (w : List Form × List Answer)
    → insert_form form auto_bound r ≡ some w
    → (any (has_id form.id) r.forms ≡ false) × (w.0 ≡ r.forms ++ form ∷ [])
unfolding insert_form
insert_form-forms form auto_bound r w e =
    stored_pair (any (has_id form.id) r.forms) _ (insert_answers form.id none auto_bound r.answers)
      _ w e

Step-IsResolved :
    {cap : ℕ} {label : Option ℕ} (id : ℕ) (r u : JobRows)
    → Step cap r label u
    → IsResolved id r.forms
    → IsResolved id u.forms
unfolding request_cancel renew_lease admit_model finish_model complete_node write_outcome
    settle_with_response settle_failed record_failure settle_cancelled expire cancel_orphan
    open_form accept_answers skip
Step-IsResolved id r u (cancels now actor e) h = committed (λ x. IsResolved id x.forms) _ e (λ _. h)
Step-IsResolved id r u (claims now worker token lease_secs ttl_secs c) h =
    subst (IsResolved id) (sym (claim-forms now worker token lease_secs ttl_secs r)) h
Step-IsResolved id r u (renews now token lease_secs e) h =
    committed (λ x. IsResolved id x.forms) _ e (λ _. h)
Step-IsResolved id r u (admits_model now call token max_calls max_tokens reserved key tries detail)
      h =
    if-cases (λ (x : JobRows × ModelAdmission). IsResolved id x.0.forms) _ (λ _. h) (λ _. h)
Step-IsResolved id r u (finishes_model now call token reserved observed result failure d detail e)
      h =
    committed (λ x. IsResolved id x.forms) _ e (λ _. h)
Step-IsResolved id r u (persists_plan jsonb_eq now new token p) h =
    subst (IsResolved id) (sym (persist_plan-forms jsonb_eq now new token p r)) h
Step-IsResolved id r u (admits_node now token plan_version e) h =
    subst (IsResolved id) (sym (admit_node-forms now token plan_version r e)) h
Step-IsResolved id r u (completes_node digest now token plan_version attempt outcome e) h =
    committed_rows (λ x. IsResolved id x.0.forms) _ _ _ e (λ _ _. h)
Step-IsResolved id r u (settles s t now fresh owner token v facts e) h =
    committed (λ (x : JobRows × Session). IsResolved id x.0.forms) _ e (λ _. h)
Step-IsResolved id r u (fails now token code response e) h =
    committed (λ x. IsResolved id x.forms) _ e (λ _. h)
Step-IsResolved id r u (settles_cancelled now token e) h =
    committed (λ x. IsResolved id x.forms) _ e
      (λ _. subst (IsResolved id) (sym (skip_unadmitted-forms now FailureActor.worker _)) h)
Step-IsResolved id r u (expires now name c) h =
    subst (IsResolved id)
      (sym (skip_unadmitted-forms now (reaper name) _ ∙ abandon-forms now name _)) h
Step-IsResolved id r u (closes_orphan now name c) h =
    subst (IsResolved id)
      (sym (skip_unadmitted-forms now (reaper name) _ ∙ abandon-forms now name _)) h
Step-IsResolved {cap} id r u (recovers now name fresh response c) h =
    subst (IsResolved id) (sym (recover-forms now name fresh cap response r)) h
Step-IsResolved id r u (asks now form_id clarification_id token q auto_bound wait ttl e) h =
    committed_with (λ (x : JobRows × Form). IsResolved id x.0.forms) _ _ _ e
      (λ _ w stored.
        let (new, forms) = insert_form-forms _ auto_bound r w stored in
        subst (IsResolved id) (sym forms) (IsResolved-append id _ r.forms new h))
Step-IsResolved id r u (answers now form actor given ttl e) h =
    committed_with (λ x. IsResolved id x.forms) _ _ _ e
      (λ _ _ _.
        IsResolved-resolved now actor FormState.answered "answered" refl form.id id r.forms h)
Step-IsResolved id r u (skips now form actor response e) h =
    committed (λ x. IsResolved id x.forms) _ e
      (λ _.
        IsResolved-resolved now actor FormState.skipped "skipped_by_user" refl form.id id r.forms h)

accept_answers-IsResolved :
    (now : ℕ) (form : Form) (actor : ℕ) (given : List AcceptedAnswer) (ttl_secs : ℕ) (r s : JobRows)
    → accept_answers now form actor given ttl_secs r ≡ some s
    → IsResolved form.id s.forms
unfolding accept_answers
accept_answers-IsResolved now form actor given ttl_secs r s e =
    committed_with (λ x. IsResolved form.id x.forms) _ _ _ e
      (λ was_open _ _.
        resolved-IsResolved now actor FormState.answered "answered" refl form.id r.forms was_open)

skip-IsResolved :
    (now : ℕ) (form : Form) (actor : ℕ) (response : SkippedResponse) (r s : JobRows)
    → skip now form actor response r ≡ some s
    → IsResolved form.id s.forms
unfolding skip
skip-IsResolved now form actor response r s e =
    committed (λ x. IsResolved form.id x.forms) _ e
      (λ g.
        resolved-IsResolved now actor FormState.skipped "skipped_by_user" refl form.id r.forms
          (and_left _ _ g))

-- Both transactions ask for the open form first.
resolved-refused :
    (now : ℕ) (form : Form) (actor : ℕ) (given : List AcceptedAnswer) (ttl_secs : ℕ)
    (response : SkippedResponse) (u : JobRows)
    → any (is_open_form form.id) u.forms ≡ false
    → (accept_answers now form actor given ttl_secs u ≡ none)
      × (skip now form actor response u ≡ none)
unfolding accept_answers skip
resolved-refused now form actor given ttl_secs response u closed = (rw closed refl, rw closed refl)

-- A form is answered or skipped once: after an answer to it or a skip of it was accepted, whatever
-- transactions run on the job, every later answer to the same form, whatever it gives, and every later
-- skip of it is refused.
pub resolved_once :
    {cap : ℕ} (now actor ttl_secs : ℕ) (form : Form) (given : List AcceptedAnswer)
    (response : SkippedResponse) (r s u : JobRows) (now' actor' ttl_secs' : ℕ) (later : Form)
    (given' : List AcceptedAnswer) (response' : SkippedResponse)
    → (accept_answers now form actor given ttl_secs r ≡ some s)
      ⊎ (skip now form actor response r ≡ some s)
    → Reach cap s u
    → later.id ≡ form.id
    → (accept_answers now' later actor' given' ttl_secs' u ≡ none)
      × (skip now' later actor' response' u ≡ none)
resolved_once now actor ttl_secs form given response r s u now' actor' ttl_secs' later given'
      response' first run same =
    let start : IsResolved form.id s.forms = elim first [
      | inl e ↦ accept_answers-IsResolved now form actor given ttl_secs r s e
      | inr e ↦ skip-IsResolved now form actor response r s e
    ] in
    let kept =
      Run-preserves (λ x. IsResolved form.id x.forms)
        (λ x y label _ step. Step-IsResolved form.id x y step) run start in
    resolved-refused now' later actor' given' ttl_secs' response' u
      (subst (λ id. any (is_open_form id) u.forms ≡ false) (sym same) kept.1)
