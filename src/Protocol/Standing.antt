-- ===== src/Protocol/Standing.antt =====
-- What the columns of a job's row say in each lifecycle.
mod Shapes
pub use Shapes.*
use fineract_ai_backend.Prelude.{
  ℕ, String, Bool, true, false, ◌≡◌, refl, subst, sym, Option, some, none, inl, inr, any,
  Bool-cases, if-cases, is_some,
}
use fineract_ai_backend.Prelude.Json.{Json}
use fineract_ai_backend.Store.Vocabulary.{
  Lifecycle, Outcome, is_running, is_waiting, is_queued, is_terminal,
}
use fineract_ai_backend.Store.Rows.{Job, JobRows, Plan, Form}
use fineract_ai_backend.Store.Sessions.{Session}
use fineract_ai_backend.Store.Lease.{holds}
use fineract_ai_backend.Job.Cancel.{request_cancel}
use fineract_ai_backend.Engine.Claim.{claim, renew_lease, was_suspended}
use fineract_ai_backend.Engine.Model.{ModelAdmission, CallDetail, admit_model, finish_model}
use fineract_ai_backend.Engine.Plan.{
  VerifiedPlan, PlanPersisted, is_same_plan, persist_over, persist_plan, insert_plan, adopt,
}
use fineract_ai_backend.Engine.Node.{complete_node}
use fineract_ai_backend.Engine.Settle.{
  FailureActor, reaper, SettledResponse, settle_cancelled, settle_failed, settle_with_response,
}
use fineract_ai_backend.Engine.Reaper.{is_at_cap, running_attempts, expire, cancel_orphan, recover}
use fineract_ai_backend.Clarification.{
  open_form, accept_answers, skip, resume_row, ask_row, is_fully_resolved,
}
use fineract_ai_backend.Protocol.Frames.{
  holds-Running, skip_unadmitted-frame, abandon-frame, claimable_live, lost_live, overdue_live,
  orphan_live, cancellation_live, cancellable_live,
}
use fineract_ai_backend.Protocol.Lease.{admit_node-job}
use fineract_ai_backend.Protocol.Step.{
  committed, committed_with, committed_rows, Step, cancels, claims, renews, admits_model,
  finishes_model, persists_plan, admits_node, completes_node, settles, fails, settles_cancelled,
  expires, closes_orphan, recovers, asks, answers, skips, Reach, Run-preserves,
}

claim-IsConsistent :
    (now : ℕ) (worker : String) (token lease_secs ttl_secs : ℕ) (r : JobRows)
    → IsUnsettled (standing r.job)
    → IsConsistent (claim now worker token lease_secs ttl_secs r).job
unfolding claim
claim-IsConsistent now worker token lease_secs ttl_secs r h = elim (Bool-cases (was_suspended r)) [
  | inl resumed ↦ rw resumed (h, refl, refl, refl, refl)
  | inr first ↦ rw first (h, refl, refl, refl, refl)
]

admit_model-IsConsistent :
    (now call token max_calls max_tokens reserved : ℕ) (key : String) (max_attempts : ℕ)
    (detail : CallDetail) (r : JobRows)
    → IsConsistent r.job
    → IsConsistent
        (admit_model now call token max_calls max_tokens reserved key max_attempts detail r).0.job
unfolding admit_model
admit_model-IsConsistent now call token max_calls max_tokens reserved key max_attempts detail r h =
    if-cases (λ (x : JobRows × ModelAdmission). IsConsistent x.0.job) _ (λ _. h) (λ _. h)

persist_over-IsConsistent :
    (jsonb_eq : Json → Json → Bool) (now id : ℕ) (p : VerifiedPlan) (r : JobRows) (o : Option Plan)
    → IsConsistent r.job
    → IsConsistent (persist_over jsonb_eq now id p r o).0.job
unfolding persist_over insert_plan adopt
persist_over-IsConsistent jsonb_eq now id p r none h = h
persist_over-IsConsistent jsonb_eq now id p r (some stored) h =
    if-cases (λ (x : JobRows × PlanPersisted). IsConsistent x.0.job)
      (is_same_plan jsonb_eq p stored) (λ _. h) (λ _. h)

persist_plan-IsConsistent :
    (jsonb_eq : Json → Json → Bool) (now id token : ℕ) (p : VerifiedPlan) (r : JobRows)
    → IsConsistent r.job
    → IsConsistent (persist_plan jsonb_eq now id token p r).0.job
unfolding persist_plan
persist_plan-IsConsistent jsonb_eq now id token p r h = elim (Bool-cases (holds token r.job)) [
  | inl held ↦ rw held (persist_over-IsConsistent jsonb_eq now id p r _ h)
  | inr lost ↦ rw lost h
]

recover-IsConsistent :
    (now : ℕ) (name : String) (fresh : ℕ → ℕ) (cap : ℕ) (response : SettledResponse) (r : JobRows)
    → IsUnsettled (standing r.job)
    → IsConsistent (recover now name fresh cap response r).job
unfolding recover
recover-IsConsistent now name fresh cap response r h =
    let closed = abandon-frame (λ j. IsUnsettled (standing j)) (λ _ _ _ x. x) now name r h in
    elim (Bool-cases (any (is_at_cap cap) (running_attempts r))) [
      | inl full ↦ rw full ((refl, refl, (refl, refl)), refl, refl, refl)
      | inr room ↦ rw room (closed, (refl, refl))
    ]

ask_row-IsConsistent :
    (now : ℕ) (resolved : Bool) (wait_secs ttl_secs : ℕ) (j : Job)
    → IsUnsettled (standing j)
    → IsConsistent (ask_row now resolved wait_secs ttl_secs j)
ask_row-IsConsistent now true wait_secs ttl_secs j h = (h, (refl, refl))
ask_row-IsConsistent now false wait_secs ttl_secs j h = (h, (refl, refl), refl, refl)

resume_row-IsConsistent :
    (now ttl_secs : ℕ) (j : Job) → IsConsistent j → IsConsistent (resume_row now ttl_secs j)
resume_row-IsConsistent now ttl_secs j h = elim (Bool-cases (is_waiting j.lifecycle)) [
  | inl waits ↦ let s = Shape-waiting j.lifecycle _ waits h in rw waits (s.0, s.1)
  | inr moved ↦ rw moved h
]

pub Step-IsConsistent :
    {cap : ℕ} {label : Option ℕ} (r u : JobRows)
    → Step cap r label u
    → IsConsistent r.job
    → IsConsistent u.job
unfolding request_cancel renew_lease finish_model complete_node settle_with_response settle_failed
    settle_cancelled expire cancel_orphan open_form accept_answers skip
Step-IsConsistent r u (cancels now actor e) h =
    committed (λ x. IsConsistent x.job) _ e
      (λ g. (Shape-live r.job.lifecycle _ (cancellable_live r.job.lifecycle g) h, refl))
Step-IsConsistent r u (claims now worker token lease_secs ttl_secs c) h =
    claim-IsConsistent now worker token lease_secs ttl_secs r
      (Shape-live r.job.lifecycle _ (claimable_live now r.job c) h)
Step-IsConsistent r u (renews now token lease_secs e) h =
    committed (λ x. IsConsistent x.job) _ e
      (λ g.
        let runs = holds-Running token r.job g in
        let s = Shape-running r.job.lifecycle _ runs h in
        running-Shape r.job.lifecycle _ runs (s.0, s.1, refl, s.3, s.4))
Step-IsConsistent r u (admits_model now call token max_calls max_tokens reserved key tries detail)
      h =
    admit_model-IsConsistent now call token max_calls max_tokens reserved key tries detail r h
Step-IsConsistent r u (finishes_model now call token reserved observed result failure d detail e)
      h =
    committed (λ x. IsConsistent x.job) _ e (λ _. h)
Step-IsConsistent r u (persists_plan jsonb_eq now id token p) h =
    persist_plan-IsConsistent jsonb_eq now id token p r h
Step-IsConsistent r u (admits_node now token plan_version e) h =
    subst IsConsistent (sym (admit_node-job now token plan_version r e)) h
Step-IsConsistent r u (completes_node digest now token plan_version attempt outcome e) h =
    committed_rows (λ x. IsConsistent x.0.job) _ _ _ e (λ _ _. h)
Step-IsConsistent r u (settles s t now fresh owner token v facts e) h =
    committed (λ (x : JobRows × Session). IsConsistent x.0.job) _ e
      (λ _. ((refl, refl, (refl, refl)), refl, refl))
Step-IsConsistent r u (fails now token code response e) h =
    committed (λ x. IsConsistent x.job) _ e (λ _. ((refl, refl, (refl, refl)), refl, refl, refl))
Step-IsConsistent r u (settles_cancelled now token e) h =
    committed (λ x. IsConsistent x.job) _ e
      (λ g.
        skip_unadmitted-frame IsConsistent (λ _ _ _ x. x) now FailureActor.worker _
          (
            (refl, refl, (refl, refl)),
            refl,
            (Shape-live r.job.lifecycle _ (cancellation_live token r.job g) h).1,
          ))
Step-IsConsistent r u (expires now name c) h =
    skip_unadmitted-frame IsConsistent (λ _ _ _ x. x) now (reaper name) _
      (abandon-frame IsConsistent (λ _ _ _ x. x) now name _
        (
          (refl, refl, (refl, refl)),
          refl,
          (Shape-live r.job.lifecycle _ (overdue_live now r c) h).1,
        ))
Step-IsConsistent r u (closes_orphan now name c) h =
    skip_unadmitted-frame IsConsistent (λ _ _ _ x. x) now (reaper name) _
      (abandon-frame IsConsistent (λ _ _ _ x. x) now name _
        (
          (refl, refl, (refl, refl)),
          refl,
          (Shape-live r.job.lifecycle _ (orphan_live now r c) h).1,
        ))
Step-IsConsistent {cap} r u (recovers now name fresh response c) h =
    recover-IsConsistent now name fresh cap response r
      (Shape-live r.job.lifecycle _ (lost_live now r c) h)
Step-IsConsistent r u (asks now form_id clarification_id token q auto_bound wait ttl e) h =
    committed_with (λ (x : JobRows × Form). IsConsistent x.0.job) _ _ _ e
      (λ g _ _.
        ask_row-IsConsistent now (is_fully_resolved q.fields auto_bound) wait ttl r.job
          (held-IsUnsettled token r.job g h))
Step-IsConsistent r u (answers now form actor given ttl e) h =
    committed_with (λ x. IsConsistent x.job) _ _ _ e
      (λ _ _ _. resume_row-IsConsistent now ttl r.job h)
Step-IsConsistent r u (skips now form actor response e) h =
    committed (λ x. IsConsistent x.job) _ e (λ _. ((refl, refl, (refl, refl)), refl, refl))

-- Whatever transactions run on a job whose columns agree with its lifecycle, they agree afterwards:
-- a Queued or WaitingForUser job has no lease, a Running one has a lease with an expiry and an
-- expiry of its own, a job that has not ended has no outcome, no served version and no end, and an
-- ended one has an end time and no expiry and no lease, with the outcome that its lifecycle
-- demands, and a served version exactly when it is Completed or Failed.
pub Reach-IsConsistent :
    {cap : ℕ} (r u : JobRows) → Reach cap r u → IsConsistent r.job → IsConsistent u.job
Reach-IsConsistent r u =
    Run-preserves (λ x. IsConsistent x.job) (λ s t label _ step. Step-IsConsistent s t step)
