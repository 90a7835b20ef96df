-- ===== src/Protocol/Endings.antt =====
-- A job's log closes once.
mod Closings
unfoldable pub use Closings.*
use mathlib.Core.Option.{some_inj}
use fineract_ai_backend.Prelude.{
  ℕ, ◌≡◌, refl, ◌∙◌, sym, ap, subst, Bool, true, false, Option, none, some, List, [], ◌∷◌, ◌++◌,
  arith, String, Bool-cases, any, where_rows, inl, inr, if-cases, if◌then◌else◌, count_where,
  count_where-append, ◌&&◌,
}
use fineract_ai_backend.Prelude.Json.{Json}
use fineract_ai_backend.Store.Vocabulary.{Lifecycle, is_terminal, is_waiting}
use fineract_ai_backend.Store.Rows.{Job, JobRows, JobEvent, NodeRun, Plan, Form}
use fineract_ai_backend.Store.Sessions.{Session}
use fineract_ai_backend.Store.Lease.{holds}
use fineract_ai_backend.Stream.{is_terminal_event}
use fineract_ai_backend.Job.Cancel.{request_cancel}
use fineract_ai_backend.Engine.Claim.{claim, renew_lease, was_suspended}
use fineract_ai_backend.Engine.Model.{ModelAdmission, CallDetail, admit_model, finish_model}
use fineract_ai_backend.Engine.Plan.{
  VerifiedPlan, PlanPersisted, is_same_plan, persist_over, persist_plan, insert_plan, adopt,
}
use fineract_ai_backend.Engine.Node.{
  Admission, admit_matched, admit_node, complete_node, write_outcome,
}
use fineract_ai_backend.Engine.Settle.{
  FailureActor, reaper, SettledResponse, announce_skipped, needs_skip, skip_unadmitted_attempts,
  settle_cancelled, settle_failed, settle_with_response,
}
use fineract_ai_backend.Engine.Reaper.{
  announce_abandoned, is_at_cap, running_attempts, abandon_running_attempts, expire, cancel_orphan,
  recover,
}
use fineract_ai_backend.Clarification.{
  open_form, accept_answers, skip, resume_row, is_fully_resolved,
}
use fineract_ai_backend.Protocol.Frames.{
  holds-Running, running_not_terminal, abandon-frame, skip_unadmitted-frame, claimable_live,
  lost_live, overdue_live, orphan_live, cancellation_live, cancellable_live, waiting_live,
}
use fineract_ai_backend.Protocol.Step.{
  committed, committed_with, committed_rows, Step, cancels, claims, renews, admits_model,
  finishes_model, persists_plan, admits_node, completes_node, settles, fails, settles_cancelled,
  expires, closes_orphan, recovers, asks, answers, skips, Reach, Run-preserves,
}

persist_over-EndsOnce :
    (jsonb_eq : Json → Json → Bool) (now id : ℕ) (p : VerifiedPlan) (r : JobRows) (o : Option Plan)
    → EndsOnce r
    → EndsOnce (persist_over jsonb_eq now id p r o).0
unfolding persist_over insert_plan adopt is_terminal_event
persist_over-EndsOnce jsonb_eq now id p r none h = quiet r.events _ refl h
persist_over-EndsOnce jsonb_eq now id p r (some stored) h =
    if-cases (λ (x : JobRows × PlanPersisted). EndsOnce x.0) (is_same_plan jsonb_eq p stored)
      (λ _. quiet r.events _ refl h) (λ _. h)

persist_plan-EndsOnce :
    (jsonb_eq : Json → Json → Bool) (now id token : ℕ) (p : VerifiedPlan) (r : JobRows)
    → EndsOnce r
    → EndsOnce (persist_plan jsonb_eq now id token p r).0
unfolding persist_plan
persist_plan-EndsOnce jsonb_eq now id token p r h = elim (Bool-cases (holds token r.job)) [
  | inl held ↦ rw held (persist_over-EndsOnce jsonb_eq now id p r _ h)
  | inr lost ↦ rw lost h
]

admit_matched-EndsOnce :
    (now plan_version : ℕ) (r : JobRows) (l : List NodeRun) {u : JobRows} {a : Admission}
    → admit_matched now plan_version r l ≡ some (u, a)
    → EndsOnce r
    → EndsOnce u
unfolding admit_matched
admit_matched-EndsOnce now plan_version r [] e h =
    subst (λ (x : JobRows × Admission). EndsOnce x.0) (some_inj.0 e) h
admit_matched-EndsOnce now plan_version r (n ∷ []) e h =
    subst (λ (x : JobRows × Admission). EndsOnce x.0) (some_inj.0 e) h
admit_matched-EndsOnce now plan_version r (n ∷ m ∷ more) e h = cc

admit_node-EndsOnce :
    (now token plan_version : ℕ) (r : JobRows) {u : JobRows} {a : Admission}
    → admit_node now token plan_version r ≡ some (u, a)
    → EndsOnce r
    → EndsOnce u
unfolding admit_node
admit_node-EndsOnce now token plan_version r e h = elim (Bool-cases (holds token r.job)) [
  | inl held ↦ admit_matched-EndsOnce now plan_version r _ (rw held at e) h
  | inr lost ↦ subst (λ (x : JobRows × Admission). EndsOnce x.0) (some_inj.0 (rw lost at e)) h
]

recover-EndsOnce :
    (now : ℕ) (name : String) (fresh : ℕ → ℕ) (cap : ℕ) (response : SettledResponse) (r : JobRows)
    → endings r ≡ 0
    → EndsOnce (recover now name fresh cap response r)
unfolding recover is_terminal_event
recover-EndsOnce now name fresh cap response r h =
    let closed = abandon-endings now name r h in
    elim (Bool-cases (any (is_at_cap cap) (running_attempts r))) [
      | inl full ↦ rw full (final _ _ refl closed)
      | inr room ↦ rw room (quiet _ _ refl closed)
    ]

-- Closing the attempts of a job that was just settled keeps the settlement.
settled_lifecycle :
    (now : ℕ) (name : String) (r : JobRows) {l : Lifecycle}
    → r.job.lifecycle ≡ l
    → (skip_unadmitted_attempts now
        (reaper name)
        (abandon_running_attempts now name r)).job.lifecycle
      ≡ l
settled_lifecycle now name r {l} h =
    skip_unadmitted-frame (λ j. j.lifecycle ≡ l) (λ _ _ _ x. x) now (reaper name) _
      (abandon-frame (λ j. j.lifecycle ≡ l) (λ _ _ _ x. x) now name r h)

sweep_endings :
    (now : ℕ) (name : String) (r : JobRows)
    → endings r ≡ 0
    → endings (skip_unadmitted_attempts now (reaper name) (abandon_running_attempts now name r)) ≡ 0
sweep_endings now name r h =
    skip_unadmitted-endings now (reaper name) _ (abandon-endings now name r h)

resume_row-ends :
    (now ttl_secs : ℕ) (j : Job) → ends (resume_row now ttl_secs j).lifecycle ≡ ends j.lifecycle
resume_row-ends now ttl_secs j = elim (Bool-cases (is_waiting j.lifecycle)) [
  | inl waits ↦ rw waits (rw (waiting_live j.lifecycle waits) refl)
  | inr moved ↦ rw moved refl
]

held_live : (token : ℕ) (j : Job) → holds token j ≡ true → is_terminal j.lifecycle ≡ false
held_live token j g = running_not_terminal j.lifecycle (holds-Running token j g)

skipped_live : (b : Bool) (l : Lifecycle) → (b && is_waiting l) ≡ true → is_terminal l ≡ false
skipped_live b l g = ground arith

asked-closes :
    (b : Bool)
    → is_terminal_event (if b then "clarification.auto_resolved" else "clarification.required")
      ≡ false
unfolding is_terminal_event
asked-closes true = refl
asked-closes false = refl

asked-ends : (b : Bool) → ends (if b then Lifecycle.queued else Lifecycle.waiting_for_user) ≡ 0
asked-ends true = refl
asked-ends false = refl

pub Step-EndsOnce :
    {cap : ℕ} {label : Option ℕ} (r u : JobRows) → Step cap r label u → EndsOnce r → EndsOnce u
unfolding request_cancel renew_lease finish_model complete_node write_outcome settle_with_response
    settle_failed settle_cancelled expire cancel_orphan open_form accept_answers skip
    is_terminal_event
Step-EndsOnce r u (cancels now actor e) h =
    committed EndsOnce _ e
      (λ g. quiet r.events _ refl (unended r (cancellable_live r.job.lifecycle g) h))
Step-EndsOnce r u (claims now worker token lease_secs ttl_secs c) h =
    claim-EndsOnce now worker token lease_secs ttl_secs r (unended r (claimable_live now r.job c) h)
Step-EndsOnce r u (renews now token lease_secs e) h = committed EndsOnce _ e (λ _. h)
Step-EndsOnce r u (admits_model now call token max_calls max_tokens reserved key tries detail) h =
    admit_model-EndsOnce now call token max_calls max_tokens reserved key tries detail r h
Step-EndsOnce r u (finishes_model now call token reserved observed result failure d detail e) h =
    committed EndsOnce _ e (λ _. h)
Step-EndsOnce r u (persists_plan jsonb_eq now id token p) h =
    persist_plan-EndsOnce jsonb_eq now id token p r h
Step-EndsOnce r u (admits_node now token plan_version e) h =
    admit_node-EndsOnce now token plan_version r e h
Step-EndsOnce r u (completes_node digest now token plan_version attempt outcome e) h =
    committed_rows (λ x. EndsOnce x.0) _ _ _ e (λ _ _. quiet r.events _ refl h)
Step-EndsOnce r u (settles s t now fresh owner token v facts e) h =
    committed (λ (x : JobRows × Session). EndsOnce x.0) _ e
      (λ g. final r.events _ refl (unended r (held_live token r.job g) h))
Step-EndsOnce r u (fails now token code response e) h =
    committed EndsOnce _ e (λ g. final r.events _ refl (unended r (held_live token r.job g) h))
Step-EndsOnce r u (settles_cancelled now token e) h = committed EndsOnce _ e (λ g.
    final _ _ refl (
      skip_unadmitted-endings now FailureActor.worker _
        (unended r (cancellation_live token r.job g) h))
    ∙ sym (
        ap ends (
          skip_unadmitted-frame (λ j. j.lifecycle ≡ Lifecycle.cancelled) (λ _ _ _ x. x) now
            FailureActor.worker _ refl)))
Step-EndsOnce r u (expires now name c) h =
    final _ _ refl (sweep_endings now name _ (unended r (overdue_live now r c) h))
    ∙ sym (ap ends (settled_lifecycle now name _ refl))
Step-EndsOnce r u (closes_orphan now name c) h =
    final _ _ refl (sweep_endings now name _ (unended r (orphan_live now r c) h))
    ∙ sym (ap ends (settled_lifecycle now name _ refl))
Step-EndsOnce {cap} r u (recovers now name fresh response c) h =
    recover-EndsOnce now name fresh cap response r (unended r (lost_live now r c) h)
Step-EndsOnce r u (asks now form_id clarification_id token q auto_bound wait ttl e) h =
    committed_with (λ (x : JobRows × Form). EndsOnce x.0) _ _ _ e
      (λ g _ _.
        quiet r.events _ (asked-closes (is_fully_resolved q.fields auto_bound))
          (unended r (held_live token r.job g) h)
        ∙ sym (asked-ends (is_fully_resolved q.fields auto_bound)))
Step-EndsOnce r u (answers now form actor given ttl e) h =
    committed_with EndsOnce _ _ _ e
      (λ _ _ _. quiet r.events _ refl (h ∙ sym (resume_row-ends now ttl r.job)))
Step-EndsOnce r u (skips now form actor response e) h =
    committed EndsOnce _ e
      (λ g. final r.events _ refl (unended r (skipped_live _ r.job.lifecycle g) h))

-- Where a job's log holds one event that closes the stream if the job is Completed, Failed,
-- Cancelled or Expired, and none if it is not, it does so whatever transactions run on the job.
pub Reach-EndsOnce : {cap : ℕ} (r u : JobRows) → Reach cap r u → EndsOnce r → EndsOnce u
Reach-EndsOnce r u = Run-preserves EndsOnce (λ s t label _ step. Step-EndsOnce s t step)
