-- ===== src/Protocol/Lease/Moves.antt =====
-- What a transaction does to the token of a job's lease.
use mathlib.Core.Option.{some_inj}
use fineract_ai_backend.Prelude.{
  ℕ, String, Bool, ◌≡◌, refl, subst, Option, none, some, List, [], ◌∷◌, inl, inr, ◌⊎◌, if-cases,
  any, Bool-cases,
}
use fineract_ai_backend.Prelude.Json.{Json}
use fineract_ai_backend.Store.Rows.{JobRows, NodeRun, Plan}
use fineract_ai_backend.Store.Lease.{holds}
use fineract_ai_backend.Engine.Claim.{claim, was_suspended}
use fineract_ai_backend.Engine.Model.{ModelAdmission, CallDetail, admit_model}
use fineract_ai_backend.Engine.Plan.{
  VerifiedPlan, PlanPersisted, is_same_plan, persist_over, persist_plan, insert_plan, adopt,
}
use fineract_ai_backend.Engine.Node.{Admission, admit_matched, admit_node}
use fineract_ai_backend.Engine.Settle.{SettledResponse}
use fineract_ai_backend.Engine.Reaper.{is_at_cap, running_attempts, recover}

-- What a step does to the token of the job's lease: it keeps it, clears it, or issues one.
abbrev pub LeaseMoves : Option ℕ → Option ℕ → Option ℕ → Type 0
LeaseMoves label before after = (after ≡ before) ⊎ ((after ≡ none) ⊎ (after ≡ label))

pub claim-lease :
    (now : ℕ) (worker : String) (token lease_secs ttl_secs : ℕ) (r : JobRows)
    → (claim now worker token lease_secs ttl_secs r).job.lease_token ≡ some token
unfolding claim
claim-lease now worker token lease_secs ttl_secs r = elim (Bool-cases (was_suspended r)) [
  | inl resumed ↦ rw resumed refl
  | inr first ↦ rw first refl
]

pub admit_model-lease :
    (now call token max_calls max_tokens reserved : ℕ) (key : String) (max_attempts : ℕ)
    (detail : CallDetail) (r : JobRows)
    → (admit_model now call token max_calls max_tokens reserved key max_attempts detail
        r).0.job.lease_token
      ≡ r.job.lease_token
unfolding admit_model
admit_model-lease now call token max_calls max_tokens reserved key max_attempts detail r =
    if-cases (λ (x : JobRows × ModelAdmission). x.0.job.lease_token ≡ r.job.lease_token) _
      (λ _. refl) (λ _. refl)

persist_over-lease :
    (jsonb_eq : Json → Json → Bool) (now id : ℕ) (p : VerifiedPlan) (r : JobRows) (o : Option Plan)
    → (persist_over jsonb_eq now id p r o).0.job.lease_token ≡ r.job.lease_token
unfolding persist_over insert_plan adopt
persist_over-lease jsonb_eq now id p r none = refl
persist_over-lease jsonb_eq now id p r (some stored) =
    if-cases (λ (x : JobRows × PlanPersisted). x.0.job.lease_token ≡ r.job.lease_token)
      (is_same_plan jsonb_eq p stored) (λ _. refl) (λ _. refl)

pub persist_plan-lease :
    (jsonb_eq : Json → Json → Bool) (now id token : ℕ) (p : VerifiedPlan) (r : JobRows)
    → (persist_plan jsonb_eq now id token p r).0.job.lease_token ≡ r.job.lease_token
unfolding persist_plan
persist_plan-lease jsonb_eq now id token p r = elim (Bool-cases (holds token r.job)) [
  | inl held ↦ rw held (persist_over-lease jsonb_eq now id p r _)
  | inr lost ↦ rw lost refl
]

-- An admission changes no column of the job.
admit_matched-job :
    (now plan_version : ℕ) (r : JobRows) (l : List NodeRun) {u : JobRows} {a : Admission}
    → admit_matched now plan_version r l ≡ some (u, a)
    → u.job ≡ r.job
unfolding admit_matched
admit_matched-job now plan_version r [] e =
    subst (λ (x : JobRows × Admission). x.0.job ≡ r.job) (some_inj.0 e) refl
admit_matched-job now plan_version r (n ∷ []) e =
    subst (λ (x : JobRows × Admission). x.0.job ≡ r.job) (some_inj.0 e) refl
admit_matched-job now plan_version r (n ∷ m ∷ more) e = cc

pub admit_node-job :
    (now token plan_version : ℕ) (r : JobRows) {u : JobRows} {a : Admission}
    → admit_node now token plan_version r ≡ some (u, a)
    → u.job ≡ r.job
unfolding admit_node
admit_node-job now token plan_version r e = elim (Bool-cases (holds token r.job)) [
  | inl held ↦ admit_matched-job now plan_version r _ (rw held at e)
  | inr lost ↦ subst (λ (x : JobRows × Admission). x.0.job ≡ r.job) (some_inj.0 (rw lost at e)) refl
]

pub recover-lease :
    (now : ℕ) (name : String) (fresh : ℕ → ℕ) (cap : ℕ) (response : SettledResponse) (r : JobRows)
    → (recover now name fresh cap response r).job.lease_token ≡ none
unfolding recover
recover-lease now name fresh cap response r =
    elim (Bool-cases (any (is_at_cap cap) (running_attempts r))) [
      | inl full ↦ rw full refl
      | inr room ↦ rw room refl
    ]
