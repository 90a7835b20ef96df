-- ===== src/Protocol/Fence.antt =====
-- What the fence refuses: where the token does not hold the job, no statement of a worker changes
-- a row.
use fineract_ai_backend.Prelude.{ℕ, String, Bool, false, ◌≡◌, refl, Option, none, some, List}
use fineract_ai_backend.Prelude.Json.{Json}
use fineract_ai_backend.Store.Rows.{JobRows}
use fineract_ai_backend.Store.Sessions.{Session}
use fineract_ai_backend.Store.Lease.{holds}
use fineract_ai_backend.Engine.Claim.{renew_lease}
use fineract_ai_backend.Engine.Model.{ModelAdmission, CallDetail, admit_model, finish_model}
use fineract_ai_backend.Engine.Plan.{VerifiedPlan, PlanPersisted, persist_plan}
use fineract_ai_backend.Engine.Node.{Admission, NodeOutcome, admit_node, complete_node}
use fineract_ai_backend.Engine.Memory.{MemoryFact}
use fineract_ai_backend.Engine.Settle.{
  SettledResponse, Validated, settle_with_response, settle_failed,
}
use fineract_ai_backend.Clarification.{Question, AcceptedAnswer, open_form}

module _ (now token : ℕ) (r : JobRows) (lost : holds token r.job ≡ false) where
  pub renew_lease-refused : (lease_secs : ℕ) → renew_lease now token lease_secs r ≡ none
  unfolding renew_lease
  renew_lease-refused lease_secs = rw lost refl

  pub admit_model-refused :
      (call max_calls max_tokens reserved : ℕ) (key : String) (max_attempts : ℕ)
      (detail : CallDetail)
      → admit_model now call token max_calls max_tokens reserved key max_attempts detail r
        ≡ (r, ModelAdmission.fenced)
  unfolding admit_model
  admit_model-refused call max_calls max_tokens reserved key max_attempts detail = rw lost refl

  pub finish_model-refused :
      (call reserved : ℕ) (observed : Option ℕ) (result : String) (failure : Option String)
      (duration : ℕ) (detail : CallDetail)
      → finish_model now call token reserved observed result failure duration detail r ≡ none
  unfolding finish_model
  finish_model-refused call reserved observed result failure duration detail = rw lost refl

  pub persist_plan-refused :
      (jsonb_eq : Json → Json → Bool) (id : ℕ) (p : VerifiedPlan)
      → persist_plan jsonb_eq now id token p r ≡ (r, PlanPersisted.fenced)
  unfolding persist_plan
  persist_plan-refused jsonb_eq id p = rw lost refl

  pub admit_node-refused :
      (plan_version : ℕ) → admit_node now token plan_version r ≡ some (r, Admission.fenced)
  unfolding admit_node
  admit_node-refused plan_version = rw lost refl

  pub complete_node-refused :
      (digest : Json → String) (plan_version attempt : ℕ) (outcome : NodeOutcome)
      → complete_node digest now token plan_version attempt outcome r ≡ none
  unfolding complete_node
  complete_node-refused digest plan_version attempt outcome = rw lost refl

  pub settle_with_response-refused :
      (fresh : ℕ → ℕ) (owner : ℕ) (v : Validated) (facts : List MemoryFact) (s : Session)
      → settle_with_response now fresh owner token v facts (r, s) ≡ none
  unfolding settle_with_response
  settle_with_response-refused fresh owner v facts s = rw lost refl

  pub settle_failed-refused :
      (code : String) (response : SettledResponse) → settle_failed now token code response r ≡ none
  unfolding settle_failed
  settle_failed-refused code response = rw lost refl

  pub open_form-refused :
      (form_id clarification_id : ℕ) (q : Question) (auto_bound : List AcceptedAnswer)
      (wait_secs ttl_secs : ℕ)
      → open_form now form_id clarification_id token q auto_bound wait_secs ttl_secs r ≡ none
  unfolding open_form
  open_form-refused form_id clarification_id q auto_bound wait_secs ttl_secs = rw lost refl

-- Nothing comes out of a transaction that was rolled back.
pub none_some {ℓ} : {A : Type 0} {B : Type ℓ} {o : Option A} {a : A} → o ≡ none → o ≡ some a → B
none_some h e = cc
