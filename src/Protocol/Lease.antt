-- ===== src/Protocol/Lease.antt =====
-- A lease that was lost is lost: the fence against a worker that comes back after its job was given
-- to another one.
mod Moves
pub use Moves.*
use mathlib.Core.Option.{some_inj}
use fineract_ai_backend.Prelude.{
  ℕ, String, Bool, false, ◌≡◌, refl, ◌∙◌, sym, ap, subst, Option, none, some, List, [], ◌∷◌, arith,
  inl, inr, ◌⊎◌, if-cases, eq_column, eq_column_iff, any, Bool-cases,
}
use fineract_ai_backend.Prelude.Json.{Json}
use fineract_ai_backend.Store.Rows.{Job, JobRows, NodeRun, Plan, Form}
use fineract_ai_backend.Store.Sessions.{Session}
use fineract_ai_backend.Store.Lease.{holds}
use fineract_ai_backend.Job.Cancel.{request_cancel}
use fineract_ai_backend.Engine.Claim.{claim, renew_lease, was_suspended}
use fineract_ai_backend.Engine.Model.{ModelAdmission, CallDetail, admit_model, finish_model}
use fineract_ai_backend.Engine.Plan.{
  VerifiedPlan, PlanPersisted, is_same_plan, persist_over, persist_plan, insert_plan, adopt,
}
use fineract_ai_backend.Engine.Node.{
  Admission, NodeOutcome, admit_matched, admit_node, complete_node,
}
use fineract_ai_backend.Engine.Memory.{MemoryFact}
use fineract_ai_backend.Engine.Settle.{
  FailureActor, reaper, SettledResponse, Validated, settle_cancelled, settle_failed,
  settle_with_response,
}
use fineract_ai_backend.Engine.Reaper.{is_at_cap, running_attempts, expire, cancel_orphan, recover}
use fineract_ai_backend.Clarification.{Question, AcceptedAnswer, open_form, accept_answers, skip}
use fineract_ai_backend.Protocol.Frames.{skip_unadmitted-frame, abandon-frame}
use fineract_ai_backend.Protocol.Fence.{
  renew_lease-refused, admit_model-refused, finish_model-refused, persist_plan-refused,
  admit_node-refused, complete_node-refused, settle_with_response-refused, settle_failed-refused,
  open_form-refused,
}
use fineract_ai_backend.Protocol.Step.{
  committed, committed_with, committed_rows, Step, cancels, claims, renews, admits_model,
  finishes_model, persists_plan, admits_node, completes_node, settles, fails, settles_cancelled,
  expires, closes_orphan, recovers, asks, answers, skips, Run, Run-preserves,
}

abbrev Free : Job → Type 0
Free j = j.lease_token ≡ none

pub Step-lease :
    {cap : ℕ} {label : Option ℕ} (r u : JobRows)
    → Step cap r label u
    → LeaseMoves label r.job.lease_token u.job.lease_token
unfolding request_cancel renew_lease finish_model complete_node settle_with_response settle_failed
    settle_cancelled expire cancel_orphan open_form accept_answers skip
Step-lease r u (cancels now actor e) =
    inl (committed (λ x. x.job.lease_token ≡ r.job.lease_token) _ e (λ _. refl))
Step-lease r u (claims now worker token lease_secs ttl_secs c) =
    inr (inr (claim-lease now worker token lease_secs ttl_secs r))
Step-lease r u (renews now token lease_secs e) =
    inl (committed (λ x. x.job.lease_token ≡ r.job.lease_token) _ e (λ _. refl))
Step-lease r u (admits_model now call token max_calls max_tokens reserved key tries detail) =
    inl (admit_model-lease now call token max_calls max_tokens reserved key tries detail r)
Step-lease r u (finishes_model now call token reserved observed result failure d detail e) =
    inl (committed (λ x. x.job.lease_token ≡ r.job.lease_token) _ e (λ _. refl))
Step-lease r u (persists_plan jsonb_eq now id token p) =
    inl (persist_plan-lease jsonb_eq now id token p r)
Step-lease r u (admits_node now token plan_version e) =
    inl (ap (λ j. j.lease_token) (admit_node-job now token plan_version r e))
Step-lease r u (completes_node digest now token plan_version attempt outcome e) =
    inl (committed_rows (λ x. x.0.job.lease_token ≡ r.job.lease_token) _ _ _ e (λ _ _. refl))
Step-lease r u (settles s t now fresh owner token v facts e) =
    inr (inl (committed (λ (x : JobRows × Session). Free x.0.job) _ e (λ _. refl)))
Step-lease r u (fails now token code response e) =
    inr (inl (committed (λ x. Free x.job) _ e (λ _. refl)))
Step-lease r u (settles_cancelled now token e) = inr (
    inl (
      committed (λ x. Free x.job) _ e
        (λ _. skip_unadmitted-frame Free (λ _ _ _ h. h) now FailureActor.worker _ refl)))
Step-lease r u (expires now name c) = inr (
    inl (
      skip_unadmitted-frame Free (λ _ _ _ h. h) now (reaper name) _
        (abandon-frame Free (λ _ _ _ h. h) now name _ refl)))
Step-lease r u (closes_orphan now name c) = inr (
    inl (
      skip_unadmitted-frame Free (λ _ _ _ h. h) now (reaper name) _
        (abandon-frame Free (λ _ _ _ h. h) now name _ refl)))
Step-lease {cap} r u (recovers now name fresh response c) =
    inr (inl (recover-lease now name fresh cap response r))
Step-lease r u (asks now form_id clarification_id token q auto_bound wait ttl e) =
    inr (inl (committed_with (λ (x : JobRows × Form). Free x.0.job) _ _ _ e (λ _ _ _. refl)))
Step-lease r u (answers now form actor given ttl e) =
    inl (committed_with (λ x. x.job.lease_token ≡ r.job.lease_token) _ _ _ e (λ _ _ _. refl))
Step-lease r u (skips now form actor response e) =
    inr (inl (committed (λ x. Free x.job) _ e (λ _. refl)))

-- The token is not the lease's.
abbrev pub IsLost : ℕ → JobRows → Type 0
IsLost token r = ¬ (r.job.lease_token ≡ some token)

-- Every label but the token: nobody is issued it again.
abbrev pub IsOther : ℕ → Option ℕ → Type 0
IsOther token label = ¬ (label ≡ some token)

Step-IsLost :
    {cap : ℕ} {label : Option ℕ} (token : ℕ) (r u : JobRows)
    → IsOther token label
    → Step cap r label u
    → IsLost token r
    → IsLost token u
Step-IsLost token r u other step lost e = elim (Step-lease r u step) [
  | inl kept ↦ lost (sym kept ∙ e)
  | inr (inl cleared) ↦ cc
  | inr (inr issued) ↦ other (sym issued ∙ e)
]

pub Run-IsLost :
    {cap : ℕ} (token : ℕ) (r u : JobRows)
    → Run cap (IsOther token) r u
    → IsLost token r
    → IsLost token u
Run-IsLost token r u =
    Run-preserves (IsLost token) (λ s t label other step. Step-IsLost token s t other step)

pub IsLost-holds : (token : ℕ) (j : Job) → ¬ (j.lease_token ≡ some token) → holds token j ≡ false
IsLost-holds token j lost = ground (arith, eq_column_iff j.lease_token token)

IsLost-column :
    (token : ℕ) (j : Job) → ¬ (j.lease_token ≡ some token) → eq_column j.lease_token token ≡ false
IsLost-column token j lost = ground (arith, eq_column_iff j.lease_token token)

-- Every statement of a worker that names the token changes nothing and says so.
abbrev pub IsFencedOff : ℕ → JobRows → Type 0
IsFencedOff token r =
    ((now lease_secs : ℕ) → renew_lease now token lease_secs r ≡ none)
    × ((now call max_calls max_tokens reserved : ℕ) (key : String) (max_attempts : ℕ)
          (detail : CallDetail)
        → admit_model now call token max_calls max_tokens reserved key max_attempts detail r
          ≡ (r, ModelAdmission.fenced))
    × ((now call reserved : ℕ) (observed : Option ℕ) (result : String) (failure : Option String)
          (duration : ℕ) (detail : CallDetail)
        → finish_model now call token reserved observed result failure duration detail r ≡ none)
    × ((jsonb_eq : Json → Json → Bool) (now id : ℕ) (p : VerifiedPlan)
        → persist_plan jsonb_eq now id token p r ≡ (r, PlanPersisted.fenced))
    × ((now plan_version : ℕ) → admit_node now token plan_version r ≡ some (r, Admission.fenced))
    × ((digest : Json → String) (now plan_version attempt : ℕ) (outcome : NodeOutcome)
        → complete_node digest now token plan_version attempt outcome r ≡ none)
    × ((now : ℕ) (fresh : ℕ → ℕ) (owner : ℕ) (v : Validated) (facts : List MemoryFact) (s : Session)
        → settle_with_response now fresh owner token v facts (r, s) ≡ none)
    × ((now : ℕ) (code : String) (response : SettledResponse)
        → settle_failed now token code response r ≡ none)
    × ((now : ℕ) → settle_cancelled now token r ≡ none)
    × ((now form_id clarification_id : ℕ) (q : Question) (auto_bound : List AcceptedAnswer)
          (wait_secs ttl_secs : ℕ)
        → open_form now form_id clarification_id token q auto_bound wait_secs ttl_secs r ≡ none)

settle_cancelled-refused :
    (now token : ℕ) (r : JobRows)
    → eq_column r.job.lease_token token ≡ false
    → settle_cancelled now token r ≡ none
unfolding settle_cancelled
settle_cancelled-refused now token r lost = rw lost refl

lost-IsFencedOff :
    (token : ℕ) (r : JobRows)
    → holds token r.job ≡ false
    → eq_column r.job.lease_token token ≡ false
    → IsFencedOff token r
lost-IsFencedOff token r h lost = (
  (λ now. renew_lease-refused now token r h),
  (λ now. admit_model-refused now token r h),
  (λ now. finish_model-refused now token r h),
  (λ jsonb_eq now. persist_plan-refused now token r h jsonb_eq),
  (λ now. admit_node-refused now token r h),
  (λ digest now. complete_node-refused now token r h digest),
  (λ now. settle_with_response-refused now token r h),
  (λ now. settle_failed-refused now token r h),
  (λ now. settle_cancelled-refused now token r lost),
  λ now. open_form-refused now token r h,
)

-- Once the job's lease does not carry a worker's token, and as long as no claim issues that token
-- again, whatever other transactions run, each renewal, model call, plan, node admission, node
-- result, settlement, cancellation and question of that worker is refused and changes no row.
pub Run-IsFencedOff :
    {cap : ℕ} (token : ℕ) (r u : JobRows)
    → IsLost token r
    → Run cap (IsOther token) r u
    → IsFencedOff token u
Run-IsFencedOff token r u lost run =
    lost-IsFencedOff token u (IsLost-holds token u.job (Run-IsLost token r u run lost))
      (IsLost-column token u.job (Run-IsLost token r u run lost))
