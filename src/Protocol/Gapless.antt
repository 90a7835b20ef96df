-- ===== src/Protocol/Gapless.antt =====
-- The event log of a job has no holes.
use mathlib.Core.Option.{some_inj}
use fineract_ai_backend.Prelude.{
  ℕ, ◌+◌, ◌≡◌, refl, Bool, Option, none, some, List, [], ◌∷◌, ◌++◌, arith, String, Bool-cases, any,
  where_rows, inl, inr, if-cases, subst,
}
use fineract_ai_backend.Prelude.Json.{Json}
use fineract_ai_backend.Store.Rows.{JobRows, JobEvent, NodeRun, Plan, Form}
use fineract_ai_backend.Store.Sessions.{Session}
use fineract_ai_backend.Engine.Claim.{claim, renew_lease, was_suspended}
use fineract_ai_backend.Engine.Model.{ModelAdmission, admit_model, finish_model}
use fineract_ai_backend.Engine.Plan.{
  VerifiedPlan, PlanPersisted, is_same_plan, persist_over, persist_plan, insert_plan, adopt,
}
use fineract_ai_backend.Engine.Node.{Admission, admit_matched, admit_node, complete_node}
use fineract_ai_backend.Engine.Settle.{
  FailureActor, reaper, SettledResponse, announce_skipped, needs_skip, skip_unadmitted_attempts,
  settle_cancelled, settle_failed, settle_with_response,
}
use fineract_ai_backend.Engine.Reaper.{
  announce_abandoned, is_at_cap, running_attempts, abandon_running_attempts, finish_sweep_row,
  expire, cancel_orphan, recover,
}
use fineract_ai_backend.Store.Lease.{holds}
use fineract_ai_backend.Clarification.{open_form, accept_answers, skip}
use fineract_ai_backend.Job.Cancel.{request_cancel}
use fineract_ai_backend.Protocol.Step.{
  committed, committed_with, committed_rows, Step, cancels, claims, renews, admits_model,
  finishes_model, persists_plan, admits_node, completes_node, settles, fails, settles_cancelled,
  expires, closes_orphan, recovers, asks, answers, skips, Reach, Run-preserves,
}

-- The events carry the sequences from the one after `first` to `last`, in order.
abbrev pub Numbered : ℕ → List JobEvent → ℕ → Type 0
Numbered first [] last = first ≡ last
Numbered first (e ∷ es) last = (e.sequence ≡ first + 1) × Numbered (first + 1) es last

-- The log of a job runs from 1 to its last_event_sequence.
abbrev pub IsGapless : JobRows → Type 0
IsGapless r = Numbered 0 r.events r.job.last_event_sequence

pub Numbered-append :
    (first : ℕ) (es : List JobEvent) (last : ℕ) (e : JobEvent)
    → Numbered first es last
    → e.sequence ≡ last + 1
    → Numbered first (es ++ e ∷ []) (last + 1)
Numbered-append first [] last e h s = ground arith
Numbered-append first (d ∷ es) last e h s = (h.0, Numbered-append (first + 1) es last e h.1 s)

announce_abandoned-IsGapless :
    (now : ℕ) (name : String) (ns : List NodeRun) (r : JobRows)
    → IsGapless r
    → IsGapless (announce_abandoned now name ns r)
unfolding announce_abandoned
announce_abandoned-IsGapless now name [] r h = h
announce_abandoned-IsGapless now name (n ∷ ns) r h =
    announce_abandoned-IsGapless now name ns _
      (Numbered-append 0 r.events r.job.last_event_sequence _ h refl)

announce_skipped-IsGapless :
    (now : ℕ) (actor : FailureActor) (ns : List NodeRun) (r : JobRows)
    → IsGapless r
    → IsGapless (announce_skipped now actor ns r)
unfolding announce_skipped
announce_skipped-IsGapless now actor [] r h = h
announce_skipped-IsGapless now actor (n ∷ ns) r h =
    announce_skipped-IsGapless now actor ns _
      (Numbered-append 0 r.events r.job.last_event_sequence _ h refl)

finish_sweep_row-IsGapless :
    (now : ℕ) (name type action : String) (r : JobRows)
    → IsGapless r
    → IsGapless (finish_sweep_row now name type action r)
unfolding finish_sweep_row
finish_sweep_row-IsGapless now name type action r h =
    Numbered-append 0 r.events r.job.last_event_sequence _ h refl

abandon-IsGapless :
    (now : ℕ) (name : String) (r : JobRows)
    → IsGapless r
    → IsGapless (abandon_running_attempts now name r)
unfolding abandon_running_attempts
abandon-IsGapless now name r h = announce_abandoned-IsGapless now name (running_attempts r) _ h

skip_unadmitted-IsGapless :
    (now : ℕ) (actor : FailureActor) (r : JobRows)
    → IsGapless r
    → IsGapless (skip_unadmitted_attempts now actor r)
unfolding skip_unadmitted_attempts
skip_unadmitted-IsGapless now actor r h =
    announce_skipped-IsGapless now actor (where_rows needs_skip r.node_runs) _ h

claim-IsGapless :
    (now : ℕ) (worker : String) (token lease_secs ttl_secs : ℕ) (r : JobRows)
    → IsGapless r
    → IsGapless (claim now worker token lease_secs ttl_secs r)
unfolding claim
claim-IsGapless now worker token lease_secs ttl_secs r h = elim (Bool-cases (was_suspended r)) [
  | inl resumed ↦ rw resumed (
      Numbered-append 0 _ (r.job.last_event_sequence + 1) _
        (Numbered-append 0 r.events r.job.last_event_sequence _ h refl) refl)
  | inr first ↦ rw first (Numbered-append 0 r.events r.job.last_event_sequence _ h refl)
]

recover-IsGapless :
    (now : ℕ) (name : String) (fresh : ℕ → ℕ) (cap : ℕ) (response : SettledResponse) (r : JobRows)
    → IsGapless r
    → IsGapless (recover now name fresh cap response r)
unfolding recover
recover-IsGapless now name fresh cap response r h =
    let closed = abandon-IsGapless now name r h in
    elim (Bool-cases (any (is_at_cap cap) (running_attempts r))) [
      | inl full ↦ rw full (Numbered-append 0 _ _ _ closed refl)
      | inr room ↦ rw room (Numbered-append 0 _ _ _ closed refl)
    ]

persist_over-IsGapless :
    (jsonb_eq : Json → Json → Bool) (now id : ℕ) (p : VerifiedPlan) (r : JobRows) (o : Option Plan)
    → IsGapless r
    → IsGapless (persist_over jsonb_eq now id p r o).0
unfolding persist_over insert_plan adopt
persist_over-IsGapless jsonb_eq now id p r none h =
    Numbered-append 0 r.events r.job.last_event_sequence _ h refl
persist_over-IsGapless jsonb_eq now id p r (some stored) h =
    if-cases (λ (x : JobRows × PlanPersisted). IsGapless x.0) (is_same_plan jsonb_eq p stored)
      (λ _. Numbered-append 0 r.events r.job.last_event_sequence _ h refl) (λ _. h)

persist_plan-IsGapless :
    (jsonb_eq : Json → Json → Bool) (now id token : ℕ) (p : VerifiedPlan) (r : JobRows)
    → IsGapless r
    → IsGapless (persist_plan jsonb_eq now id token p r).0
unfolding persist_plan
persist_plan-IsGapless jsonb_eq now id token p r h = elim (Bool-cases (holds token r.job)) [
  | inl held ↦ rw held (persist_over-IsGapless jsonb_eq now id p r _ h)
  | inr lost ↦ rw lost h
]

admit_matched-IsGapless :
    (now plan_version : ℕ) (r : JobRows) (l : List NodeRun) {u : JobRows} {a : Admission}
    → admit_matched now plan_version r l ≡ some (u, a)
    → IsGapless r
    → IsGapless u
unfolding admit_matched
admit_matched-IsGapless now plan_version r [] e h =
    subst (λ (x : JobRows × Admission). IsGapless x.0) (some_inj.0 e) h
admit_matched-IsGapless now plan_version r (n ∷ []) e h =
    subst (λ (x : JobRows × Admission). IsGapless x.0) (some_inj.0 e) h
admit_matched-IsGapless now plan_version r (n ∷ m ∷ more) e h = cc

admit_node-IsGapless :
    (now token plan_version : ℕ) (r : JobRows) {u : JobRows} {a : Admission}
    → admit_node now token plan_version r ≡ some (u, a)
    → IsGapless r
    → IsGapless u
unfolding admit_node
admit_node-IsGapless now token plan_version r e h = elim (Bool-cases (holds token r.job)) [
  | inl held ↦ admit_matched-IsGapless now plan_version r _ (rw held at e) h
  | inr lost ↦ subst (λ (x : JobRows × Admission). IsGapless x.0) (some_inj.0 (rw lost at e)) h
]

pub Step-IsGapless :
    {cap : ℕ} {label : Option ℕ} (r u : JobRows) → Step cap r label u → IsGapless r → IsGapless u
unfolding request_cancel renew_lease admit_model finish_model admit_node complete_node
    settle_with_response settle_failed settle_cancelled expire cancel_orphan open_form
    accept_answers skip
Step-IsGapless r u (cancels now actor e) h =
    committed IsGapless _ e (λ _. Numbered-append 0 r.events r.job.last_event_sequence _ h refl)
Step-IsGapless r u (claims now worker token lease_secs ttl_secs c) h =
    claim-IsGapless now worker token lease_secs ttl_secs r h
Step-IsGapless r u (renews now token lease_secs e) h = committed IsGapless _ e (λ _. h)
Step-IsGapless r u (admits_model now call token max_calls max_tokens reserved key tries detail) h =
    if-cases (λ (x : JobRows × ModelAdmission). IsGapless x.0) _ (λ _. h) (λ _. h)
Step-IsGapless r u (finishes_model now call token reserved observed result failure d detail e) h =
    committed IsGapless _ e (λ _. h)
Step-IsGapless r u (persists_plan jsonb_eq now id token p) h =
    persist_plan-IsGapless jsonb_eq now id token p r h
Step-IsGapless r u (admits_node now token plan_version e) h =
    admit_node-IsGapless now token plan_version r e h
Step-IsGapless r u (completes_node digest now token plan_version attempt outcome e) h =
    committed_rows (λ x. IsGapless x.0) _ _ _ e
      (λ _ _. Numbered-append 0 r.events r.job.last_event_sequence _ h refl)
Step-IsGapless r u (settles s t now fresh owner token v facts e) h =
    committed (λ (x : JobRows × Session). IsGapless x.0) _ e
      (λ _. Numbered-append 0 r.events r.job.last_event_sequence _ h refl)
Step-IsGapless r u (fails now token code response e) h =
    committed IsGapless _ e (λ _. Numbered-append 0 r.events r.job.last_event_sequence _ h refl)
Step-IsGapless r u (settles_cancelled now token e) h =
    committed IsGapless _ e
      (λ _. Numbered-append 0 _ _ _ (skip_unadmitted-IsGapless now FailureActor.worker _ h) refl)
Step-IsGapless r u (expires now name c) h =
    Numbered-append 0 _ _ _
      (skip_unadmitted-IsGapless now (reaper name) _ (abandon-IsGapless now name _ h)) refl
Step-IsGapless r u (closes_orphan now name c) h =
    Numbered-append 0 _ _ _
      (skip_unadmitted-IsGapless now (reaper name) _ (abandon-IsGapless now name _ h)) refl
Step-IsGapless {cap} r u (recovers now name fresh response c) h =
    recover-IsGapless now name fresh cap response r h
Step-IsGapless r u (asks now form_id clarification_id token q auto_bound wait ttl e) h =
    committed_with (λ (x : JobRows × Form). IsGapless x.0) _ _ _ e
      (λ _ _ _. Numbered-append 0 r.events r.job.last_event_sequence _ h refl)
Step-IsGapless r u (answers now form actor given ttl e) h =
    committed_with IsGapless _ _ _ e
      (λ _ _ _. Numbered-append 0 r.events r.job.last_event_sequence _ h refl)
Step-IsGapless r u (skips now form actor response e) h =
    committed IsGapless _ e (λ _. Numbered-append 0 r.events r.job.last_event_sequence _ h refl)

-- Where the events of a job carry the sequences 1, 2, …, last_event_sequence in the order in which
-- they were written, they do so whatever transactions run on the job, and in whatever order.
pub Reach-IsGapless : {cap : ℕ} (r u : JobRows) → Reach cap r u → IsGapless r → IsGapless u
Reach-IsGapless r u = Run-preserves IsGapless (λ s t label _ step. Step-IsGapless s t step)
