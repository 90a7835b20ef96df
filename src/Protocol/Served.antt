-- ===== src/Protocol/Served.antt =====
-- The version that an ended job serves is stored.
mod Views
pub use Views.*
use mathlib.Core.Option.{some_inj}
use fineract_ai_backend.Prelude.{
  ℕ, String, ◌≡◌, refl, subst, Bool, false, Option, none, some, List, [], ◌∷◌, ◌++◌, Bool-cases,
  any, length, inl, inr, if-cases,
}
use fineract_ai_backend.Prelude.Json.{Json}
use fineract_ai_backend.Store.Vocabulary.{Outcome, Completeness, is_terminal}
use fineract_ai_backend.Store.Rows.{Job, JobRows, NodeRun, Plan, Form, Response, Message}
use fineract_ai_backend.Store.Sessions.{Session}
use fineract_ai_backend.Store.Lease.{holds}
use fineract_ai_backend.Job.Cancel.{request_cancel}
use fineract_ai_backend.Engine.Claim.{claim, renew_lease, was_suspended}
use fineract_ai_backend.Engine.Model.{ModelAdmission, CallDetail, admit_model, finish_model}
use fineract_ai_backend.Engine.Plan.{
  VerifiedPlan, PlanPersisted, is_same_plan, persist_over, persist_plan, insert_plan, adopt,
}
use fineract_ai_backend.Engine.Node.{
  Admission, admit_matched, admit_node, complete_node, write_outcome,
}
use fineract_ai_backend.Engine.Settle.{
  FailureActor, reaper, SettledResponse, record_failure, settle_cancelled, settle_failed,
  settle_with_response,
}
use fineract_ai_backend.Engine.Reaper.{
  is_at_cap, running_attempts, expire, cancel_orphan, recover, requeue, settle_attempts_exhausted,
  abandon_running_attempts,
}
use fineract_ai_backend.Clarification.{open_form, accept_answers, skip}
use fineract_ai_backend.Protocol.Frames.{
  skip_unadmitted-frame, abandon-frame, overdue_live, orphan_live, cancellation_live, lost_live,
}
use fineract_ai_backend.Protocol.Standing.{
  IsConsistent, Shape-live, held-IsUnsettled, Step-IsConsistent,
}
use fineract_ai_backend.Protocol.Step.{
  committed, committed_with, committed_rows, Step, cancels, claims, renews, admits_model,
  finishes_model, persists_plan, admits_node, completes_node, settles, fails, settles_cancelled,
  expires, closes_orphan, recovers, asks, answers, skips, Reach, Run-preserves,
}

admit_matched-IsServed :
    (now plan_version : ℕ) (r : JobRows) (l : List NodeRun) {u : JobRows} {a : Admission}
    → admit_matched now plan_version r l ≡ some (u, a)
    → IsServed r
    → IsServed u
unfolding admit_matched
admit_matched-IsServed now plan_version r [] e h =
    subst (λ (x : JobRows × Admission). IsServed x.0) (some_inj.0 e) h
admit_matched-IsServed now plan_version r (n ∷ []) e h =
    subst (λ (x : JobRows × Admission). IsServed x.0) (some_inj.0 e) h
admit_matched-IsServed now plan_version r (n ∷ m ∷ more) e h = cc

admit_node-IsServed :
    (now token plan_version : ℕ) (r : JobRows) {u : JobRows} {a : Admission}
    → admit_node now token plan_version r ≡ some (u, a)
    → IsServed r
    → IsServed u
unfolding admit_node
admit_node-IsServed now token plan_version r e h = elim (Bool-cases (holds token r.job)) [
  | inl held ↦ admit_matched-IsServed now plan_version r _ (rw held at e) h
  | inr lost ↦ subst (λ (x : JobRows × Admission). IsServed x.0) (some_inj.0 (rw lost at e)) h
]

exhausted-IsServed :
    (now : ℕ) (name : String) (spent : ℕ) (response : SettledResponse) (r : JobRows)
    → IsServed (settle_attempts_exhausted now name spent response r)
unfolding settle_attempts_exhausted record_failure
exhausted-IsServed now name spent response r =
    (r.responses, _, r.messages, _, refl, refl, refl, refl, refl, refl, refl)

requeue-IsServed :
    (now : ℕ) (name : String) (fresh : ℕ → ℕ) (ns : List NodeRun) (r : JobRows)
    → Unserved r.job
    → IsServed (requeue now name fresh ns r)
unfolding requeue
requeue-IsServed now name fresh ns r h = unserved _ _ h

recover-IsServed :
    (now : ℕ) (name : String) (fresh : ℕ → ℕ) (cap : ℕ) (response : SettledResponse) (r : JobRows)
    → Unserved r.job
    → IsServed (recover now name fresh cap response r)
unfolding recover
recover-IsServed now name fresh cap response r h =
    let rows = abandon_running_attempts now name r in
    let closed = abandon-frame Unserved (λ _ _ _ x. x) now name r h in
    if-cases IsServed (any (is_at_cap cap) (running_attempts r))
      (λ _. exhausted-IsServed now name (length (running_attempts r)) response rows)
      (λ _. requeue-IsServed now name fresh (running_attempts r) rows closed)

-- The job has not ended: no version is served.
live-Unserved : (j : Job) → is_terminal j.lifecycle ≡ false → IsConsistent j → Unserved j
live-Unserved j live h = (Shape-live j.lifecycle _ live h).1

Step-IsServed :
    {cap : ℕ} {label : Option ℕ} (r u : JobRows)
    → Step cap r label u
    → IsConsistent r.job
    → IsServed r
    → IsServed u
unfolding request_cancel renew_lease finish_model complete_node write_outcome settle_with_response
    settle_failed record_failure settle_cancelled expire cancel_orphan open_form accept_answers skip
Step-IsServed r u (cancels now actor e) k h = committed IsServed _ e (λ _. h)
Step-IsServed r u (claims now worker token lease_secs ttl_secs c) k h =
    claim-IsServed now worker token lease_secs ttl_secs r h
Step-IsServed r u (renews now token lease_secs e) k h = committed IsServed _ e (λ _. h)
Step-IsServed r u (admits_model now call token max_calls max_tokens reserved key tries detail) k h =
    admit_model-IsServed now call token max_calls max_tokens reserved key tries detail r h
Step-IsServed r u (finishes_model now call token reserved observed result failure d detail e) k h =
    committed IsServed _ e (λ _. h)
Step-IsServed r u (persists_plan jsonb_eq now id token p) k h =
    persist_plan-IsServed jsonb_eq now id token p r h
Step-IsServed r u (admits_node now token plan_version e) k h =
    admit_node-IsServed now token plan_version r e h
Step-IsServed r u (completes_node digest now token plan_version attempt outcome e) k h =
    committed_rows (λ x. IsServed x.0) _ _ _ e (λ _ _. h)
Step-IsServed r u (settles s t now fresh owner token v facts e) k h =
    committed (λ (x : JobRows × Session). IsServed x.0) _ e
      (λ _. (_, _, r.messages, _, refl, refl, refl, refl, refl, refl, refl))
Step-IsServed r u (fails now token code response e) k h =
    committed IsServed _ e
      (λ _. (r.responses, _, r.messages, _, refl, refl, refl, refl, refl, refl, refl))
Step-IsServed r u (settles_cancelled now token e) k h = committed IsServed _ e (λ g. unserved _ _ (
    skip_unadmitted-frame Unserved (λ _ _ _ x. x) now FailureActor.worker _
      (live-Unserved r.job (cancellation_live token r.job g) k)))
Step-IsServed r u (expires now name c) k h = unserved _ _ (
    skip_unadmitted-frame Unserved (λ _ _ _ x. x) now (reaper name) _
      (abandon-frame Unserved (λ _ _ _ x. x) now name _
        (live-Unserved r.job (overdue_live now r c) k)))
Step-IsServed r u (closes_orphan now name c) k h = unserved _ _ (
    skip_unadmitted-frame Unserved (λ _ _ _ x. x) now (reaper name) _
      (abandon-frame Unserved (λ _ _ _ x. x) now name _
        (live-Unserved r.job (orphan_live now r c) k)))
Step-IsServed {cap} r u (recovers now name fresh response c) k h =
    recover-IsServed now name fresh cap response r (live-Unserved r.job (lost_live now r c) k)
Step-IsServed r u (asks now form_id clarification_id token q auto_bound wait ttl e) k h =
    committed_with (λ (x : JobRows × Form). IsServed x.0) _ _ _ e
      (λ g _ _. unserved _ _ (held-IsUnsettled token r.job g k).1)
Step-IsServed r u (answers now form actor given ttl e) k h =
    committed_with IsServed _ _ _ e (λ _ _ _. h)
Step-IsServed r u (skips now form actor response e) k h =
    committed IsServed _ e
      (λ _. (r.responses, _, r.messages, _, refl, refl, refl, refl, refl, refl, refl))

-- Where a job's columns agree with its lifecycle and the version that it serves, if any, is its last
-- response, with the job's outcome and completeness and no successor, and its last message shows
-- that version, all this holds whatever transactions run on the job.
pub Reach-IsServed :
    {cap : ℕ} (r u : JobRows)
    → Reach cap r u
    → IsConsistent r.job
    → IsServed r
    → IsConsistent u.job × IsServed u
Reach-IsServed r u run k h =
    Run-preserves (λ x. IsConsistent x.job × IsServed x)
      (λ s t label _ step both.
        (Step-IsConsistent s t step both.0, Step-IsServed s t step both.0 both.1))
      run (k, h)
