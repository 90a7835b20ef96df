-- ===== src/Protocol/Served/Views.antt =====
-- What the served version shows, and the writes that leave it alone.
use fineract_ai_backend.Prelude.{
  ℕ, String, ◌≡◌, Bool, Option, none, some, List, [], ◌∷◌, ◌++◌, Bool-cases, inl, inr, if-cases,
}
use fineract_ai_backend.Prelude.Json.{Json}
use fineract_ai_backend.Store.Vocabulary.{Outcome, Completeness}
use fineract_ai_backend.Store.Rows.{Job, JobRows, Plan, Response, Message}
use fineract_ai_backend.Store.Lease.{holds}
use fineract_ai_backend.Engine.Claim.{claim, was_suspended}
use fineract_ai_backend.Engine.Model.{ModelAdmission, CallDetail, admit_model}
use fineract_ai_backend.Engine.Plan.{
  VerifiedPlan, PlanPersisted, is_same_plan, persist_over, persist_plan, insert_plan, adopt,
}

-- What a reader of the served version sees.
pub record View : Type 0 where
  pub outcome : Option Outcome
  pub completeness : Option Completeness
  pub responses : List Response
  pub messages : List Message

abbrev view : JobRows → View
view r = record {
  outcome = r.job.outcome;
  completeness = r.job.completeness;
  responses = r.responses;
  messages = r.messages;
}

-- The last response has the version, no successor, and the job's outcome and completeness, and the
-- last message of the job shows it.
abbrev ServedBy : Option ℕ → View → Type 0
ServedBy none v = Unit
ServedBy (some version) v =
    (earlier : List Response) × (response : Response) × (before : List Message)
    × (message : Message) × (v.responses ≡ earlier ++ response ∷ [])
    × (v.messages ≡ before ++ message ∷ [])
    × (response.response_version ≡ version)
    × (response.superseded_by_version ≡ none)
    × (response.outcome ≡ v.outcome)
    × (some response.completeness ≡ v.completeness)
    × (message.response_version ≡ some version)

abbrev pub IsServed : JobRows → Type 0
IsServed r = ServedBy r.job.final_response_version (view r)

-- The column of the served version is empty.
abbrev pub Unserved : Job → Type 0
Unserved j = j.final_response_version ≡ none

pub unserved : (o : Option ℕ) (v : View) → o ≡ none → ServedBy o v
unserved o v e = rw e tt

pub claim-IsServed :
    (now : ℕ) (worker : String) (token lease_secs ttl_secs : ℕ) (r : JobRows)
    → IsServed r
    → IsServed (claim now worker token lease_secs ttl_secs r)
unfolding claim
claim-IsServed now worker token lease_secs ttl_secs r h = elim (Bool-cases (was_suspended r)) [
  | inl resumed ↦ rw resumed h
  | inr first ↦ rw first h
]

pub admit_model-IsServed :
    (now call token max_calls max_tokens reserved : ℕ) (key : String) (max_attempts : ℕ)
    (detail : CallDetail) (r : JobRows)
    → IsServed r
    → IsServed
        (admit_model now call token max_calls max_tokens reserved key max_attempts detail r).0
unfolding admit_model
admit_model-IsServed now call token max_calls max_tokens reserved key max_attempts detail r h =
    if-cases (λ (x : JobRows × ModelAdmission). IsServed x.0) _ (λ _. h) (λ _. h)

persist_over-IsServed :
    (jsonb_eq : Json → Json → Bool) (now id : ℕ) (p : VerifiedPlan) (r : JobRows) (o : Option Plan)
    → IsServed r
    → IsServed (persist_over jsonb_eq now id p r o).0
unfolding persist_over insert_plan adopt
persist_over-IsServed jsonb_eq now id p r none h = h
persist_over-IsServed jsonb_eq now id p r (some stored) h =
    if-cases (λ (x : JobRows × PlanPersisted). IsServed x.0) (is_same_plan jsonb_eq p stored)
      (λ _. h) (λ _. h)

pub persist_plan-IsServed :
    (jsonb_eq : Json → Json → Bool) (now id token : ℕ) (p : VerifiedPlan) (r : JobRows)
    → IsServed r
    → IsServed (persist_plan jsonb_eq now id token p r).0
unfolding persist_plan
persist_plan-IsServed jsonb_eq now id token p r h = elim (Bool-cases (holds token r.job)) [
  | inl held ↦ rw held (persist_over-IsServed jsonb_eq now id p r _ h)
  | inr lost ↦ rw lost h
]
