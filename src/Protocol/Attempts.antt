-- ===== src/Protocol/Attempts.antt =====
-- The attempts at a node are bounded.
mod Runs
pub use Runs.*
use mathlib.Core.Option.{some_inj}
use fineract_ai_backend.Prelude.{
  ℕ, ◌+◌, ◌≡◌, ◌≤◌, refl, sym, subst, Bool, false, Option, none, some, List, [], ◌∷◌, arith, String,
  Bool-cases, any, where_rows, update_where, All, All-append, inl, inr, if-cases, leb, ◌||◌,
}
use fineract_ai_backend.Prelude.Json.{Json}
use fineract_ai_backend.Store.Rows.{JobRows, NodeRun, Plan, Form}
use fineract_ai_backend.Store.Sessions.{Session}
use fineract_ai_backend.Store.Lease.{holds}
use fineract_ai_backend.Job.Cancel.{request_cancel}
use fineract_ai_backend.Engine.Claim.{claim, renew_lease, was_suspended}
use fineract_ai_backend.Engine.Model.{ModelAdmission, CallDetail, admit_model, finish_model}
use fineract_ai_backend.Engine.Plan.{
  VerifiedPlan, PlanPersisted, is_same_plan, persist_over, persist_plan, insert_plan, adopt,
}
use fineract_ai_backend.Engine.Node.{
  Admission, start, is_admissible, is_running_attempt, admit_matched, admit_node, complete_node,
  write_outcome, finish_attempt,
}
use fineract_ai_backend.Engine.Settle.{
  FailureActor, reaper, SettledResponse, announce_skipped, needs_skip, skip_attempt,
  skip_unadmitted_attempts, settle_cancelled, settle_failed, settle_with_response,
}
use fineract_ai_backend.Engine.Reaper.{
  announce_abandoned, abandon_attempt, is_running_run, is_at_cap, running_attempts, retries,
  abandon_running_attempts, expire, cancel_orphan, recover,
}
use fineract_ai_backend.Clarification.{open_form, accept_answers, skip}
use fineract_ai_backend.Protocol.Step.{
  committed, committed_with, committed_rows, Step, cancels, claims, renews, admits_model,
  finishes_model, persists_plan, admits_node, completes_node, settles, fails, settles_cancelled,
  expires, closes_orphan, recovers, asks, answers, skips, Reach, Run-preserves,
}

claim-AreCapped :
    (cap now : ℕ) (worker : String) (token lease_secs ttl_secs : ℕ) (r : JobRows)
    → AreCapped cap r
    → AreCapped cap (claim now worker token lease_secs ttl_secs r)
unfolding claim
claim-AreCapped cap now worker token lease_secs ttl_secs r h = elim (Bool-cases (was_suspended r)) [
  | inl resumed ↦ rw resumed h
  | inr first ↦ rw first h
]

admit_model-AreCapped :
    (cap now call token max_calls max_tokens reserved : ℕ) (key : String) (max_attempts : ℕ)
    (detail : CallDetail) (r : JobRows)
    → AreCapped cap r
    → AreCapped cap
        (admit_model now call token max_calls max_tokens reserved key max_attempts detail r).0
unfolding admit_model
admit_model-AreCapped cap now call token max_calls max_tokens reserved key max_attempts detail r h =
    if-cases (λ (x : JobRows × ModelAdmission). AreCapped cap x.0) _ (λ _. h) (λ _. h)

persist_over-AreCapped :
    (cap : ℕ) (jsonb_eq : Json → Json → Bool) (now id : ℕ) (p : VerifiedPlan) (r : JobRows)
    (o : Option Plan)
    → 1 ≤ cap
    → AreCapped cap r
    → AreCapped cap (persist_over jsonb_eq now id p r o).0
unfolding persist_over insert_plan adopt
persist_over-AreCapped cap jsonb_eq now id p r none one h =
    All-append (IsCapped cap) r.node_runs _ h ((omega arith, one), tt)
persist_over-AreCapped cap jsonb_eq now id p r (some stored) one h =
    if-cases (λ (x : JobRows × PlanPersisted). AreCapped cap x.0) (is_same_plan jsonb_eq p stored)
      (λ _. h) (λ _. h)

persist_plan-AreCapped :
    (cap : ℕ) (jsonb_eq : Json → Json → Bool) (now id token : ℕ) (p : VerifiedPlan) (r : JobRows)
    → 1 ≤ cap
    → AreCapped cap r
    → AreCapped cap (persist_plan jsonb_eq now id token p r).0
unfolding persist_plan
persist_plan-AreCapped cap jsonb_eq now id token p r one h = elim (Bool-cases (holds token r.job)) [
  | inl held ↦ rw held (persist_over-AreCapped cap jsonb_eq now id p r _ one h)
  | inr lost ↦ rw lost h
]

admit_matched-AreCapped :
    (cap now plan_version : ℕ) (r : JobRows) (l : List NodeRun) {u : JobRows} {a : Admission}
    → admit_matched now plan_version r l ≡ some (u, a)
    → AreCapped cap r
    → AreCapped cap u
unfolding admit_matched
admit_matched-AreCapped cap now plan_version r [] e h =
    subst (λ (x : JobRows × Admission). AreCapped cap x.0) (some_inj.0 e) h
admit_matched-AreCapped cap now plan_version r (n ∷ []) e h =
    subst (λ (x : JobRows × Admission). AreCapped cap x.0) (some_inj.0 e)
      (All-update_where (IsCapped cap) (is_admissible plan_version) (start now) r.node_runs
        (λ _ x. x) h)
admit_matched-AreCapped cap now plan_version r (n ∷ m ∷ more) e h = cc

admit_node-AreCapped :
    (cap now token plan_version : ℕ) (r : JobRows) {u : JobRows} {a : Admission}
    → admit_node now token plan_version r ≡ some (u, a)
    → AreCapped cap r
    → AreCapped cap u
unfolding admit_node
admit_node-AreCapped cap now token plan_version r e h = elim (Bool-cases (holds token r.job)) [
  | inl held ↦ admit_matched-AreCapped cap now plan_version r _ (rw held at e) h
  | inr lost ↦ subst (λ (x : JobRows × Admission). AreCapped cap x.0) (some_inj.0 (rw lost at e)) h
]

below_cap : (cap attempt : ℕ) (b : Bool) → (leb cap attempt || b) ≡ false → attempt + 1 ≤ cap
below_cap cap attempt b h = ground arith

or_false : (a b : Bool) → (a || b) ≡ false → b ≡ false
or_false a b h = ground arith

-- None of the attempts is at the cap: each may be followed by one more.
retries-AreCapped :
    (cap : ℕ) (fresh : ℕ → ℕ) (ns : List NodeRun)
    → any (is_at_cap cap) ns ≡ false
    → All (IsCapped cap) (retries fresh ns)
retries-AreCapped cap fresh [] h = tt
retries-AreCapped cap fresh (n ∷ ns) h = (
  (omega arith, below_cap cap n.attempt _ h),
  retries-AreCapped cap (λ k. fresh (k + 1)) ns (or_false _ _ h),
)

recover-AreCapped :
    (cap now : ℕ) (name : String) (fresh : ℕ → ℕ) (response : SettledResponse) (r : JobRows)
    → AreCapped cap r
    → AreCapped cap (recover now name fresh cap response r)
unfolding recover
recover-AreCapped cap now name fresh response r h =
    let closed = abandon-AreCapped cap now name r h in
    elim (Bool-cases (any (is_at_cap cap) (running_attempts r))) [
      | inl full ↦ rw full closed
      | inr room ↦ rw room (
          All-append (IsCapped cap) _ _ closed
            (retries-AreCapped cap fresh (running_attempts r) room))
    ]

pub Step-AreCapped :
    {cap : ℕ} {label : Option ℕ} (r u : JobRows)
    → 1 ≤ cap
    → Step cap r label u
    → AreCapped cap r
    → AreCapped cap u
unfolding request_cancel renew_lease finish_model complete_node write_outcome settle_with_response
    settle_failed settle_cancelled expire cancel_orphan open_form accept_answers skip finish_attempt
Step-AreCapped {cap} r u one (cancels now actor e) h = committed (AreCapped cap) _ e (λ _. h)
Step-AreCapped {cap} r u one (claims now worker token lease_secs ttl_secs c) h =
    claim-AreCapped cap now worker token lease_secs ttl_secs r h
Step-AreCapped {cap} r u one (renews now token lease_secs e) h =
    committed (AreCapped cap) _ e (λ _. h)
Step-AreCapped {cap} r u one
      (admits_model now call token max_calls max_tokens reserved key tries detail) h =
    admit_model-AreCapped cap now call token max_calls max_tokens reserved key tries detail r h
Step-AreCapped {cap} r u one
      (finishes_model now call token reserved observed result failure d detail e) h =
    committed (AreCapped cap) _ e (λ _. h)
Step-AreCapped {cap} r u one (persists_plan jsonb_eq now id token p) h =
    persist_plan-AreCapped cap jsonb_eq now id token p r one h
Step-AreCapped {cap} r u one (admits_node now token plan_version e) h =
    admit_node-AreCapped cap now token plan_version r e h
Step-AreCapped {cap} r u one (completes_node digest now token plan_version attempt outcome e) h =
    committed_rows (λ x. AreCapped cap x.0) _ _ _ e
      (λ _ _.
        All-update_where (IsCapped cap) (is_running_attempt plan_version attempt)
          (finish_attempt digest now outcome) r.node_runs (λ _ x. x) h)
Step-AreCapped {cap} r u one (settles s t now fresh owner token v facts e) h =
    committed (λ (x : JobRows × Session). AreCapped cap x.0) _ e (λ _. h)
Step-AreCapped {cap} r u one (fails now token code response e) h =
    committed (AreCapped cap) _ e (λ _. h)
Step-AreCapped {cap} r u one (settles_cancelled now token e) h =
    committed (AreCapped cap) _ e (λ _. skip_unadmitted-AreCapped cap now FailureActor.worker _ h)
Step-AreCapped {cap} r u one (expires now name c) h =
    skip_unadmitted-AreCapped cap now (reaper name) _ (abandon-AreCapped cap now name _ h)
Step-AreCapped {cap} r u one (closes_orphan now name c) h =
    skip_unadmitted-AreCapped cap now (reaper name) _ (abandon-AreCapped cap now name _ h)
Step-AreCapped {cap} r u one (recovers now name fresh response c) h =
    recover-AreCapped cap now name fresh response r h
Step-AreCapped {cap} r u one (asks now form_id clarification_id token q auto_bound wait ttl e) h =
    committed_with (λ (x : JobRows × Form). AreCapped cap x.0) _ _ _ e (λ _ _ _. h)
Step-AreCapped {cap} r u one (answers now form actor given ttl e) h =
    committed_with (AreCapped cap) _ _ _ e (λ _ _ _. h)
Step-AreCapped {cap} r u one (skips now form actor response e) h =
    committed (AreCapped cap) _ e (λ _. h)

-- With a cap of at least one attempt, where every attempt at a node has a number from 1 to the cap,
-- it has so whatever transactions run and however often leases are lost.
pub Reach-AreCapped :
    {cap : ℕ} (r u : JobRows) → 1 ≤ cap → Reach cap r u → AreCapped cap r → AreCapped cap u
Reach-AreCapped {cap} r u one =
    Run-preserves (AreCapped cap) (λ s t label _ step. Step-AreCapped s t one step)
