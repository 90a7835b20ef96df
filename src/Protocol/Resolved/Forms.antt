-- ===== src/Protocol/Resolved/Forms.antt =====
-- The writes of a run that leave the forms of the job alone.
use fineract_ai_backend.Prelude.{
  ℕ, ◌≡◌, refl, subst, String, Bool, List, [], ◌∷◌, Option, none, some, Bool-cases, inl, inr, any,
  if-cases, where_rows,
}
use mathlib.Core.Option.{some_inj}
use fineract_ai_backend.Prelude.Json.{Json}
use fineract_ai_backend.Store.Rows.{JobRows, NodeRun, Plan}
use fineract_ai_backend.Store.Lease.{holds}
use fineract_ai_backend.Engine.Claim.{claim, was_suspended}
use fineract_ai_backend.Engine.Plan.{
  VerifiedPlan, PlanPersisted, is_same_plan, persist_over, persist_plan, insert_plan, adopt,
}
use fineract_ai_backend.Engine.Node.{Admission, admit_matched, admit_node}
use fineract_ai_backend.Engine.Settle.{
  SettledResponse, FailureActor, announce_skipped, needs_skip, skip_unadmitted_attempts,
}
use fineract_ai_backend.Engine.Reaper.{
  announce_abandoned, running_attempts, abandon_running_attempts, recover, is_at_cap,
}

announce_abandoned-forms :
    (now : ℕ) (name : String) (ns : List NodeRun) (r : JobRows)
    → (announce_abandoned now name ns r).forms ≡ r.forms
unfolding announce_abandoned
announce_abandoned-forms now name [] r = refl
announce_abandoned-forms now name (n ∷ ns) r = announce_abandoned-forms now name ns _

announce_skipped-forms :
    (now : ℕ) (actor : FailureActor) (ns : List NodeRun) (r : JobRows)
    → (announce_skipped now actor ns r).forms ≡ r.forms
unfolding announce_skipped
announce_skipped-forms now actor [] r = refl
announce_skipped-forms now actor (n ∷ ns) r = announce_skipped-forms now actor ns _

pub abandon-forms :
    (now : ℕ) (name : String) (r : JobRows) → (abandon_running_attempts now name r).forms ≡ r.forms
unfolding abandon_running_attempts
abandon-forms now name r = announce_abandoned-forms now name (running_attempts r) _

pub skip_unadmitted-forms :
    (now : ℕ) (actor : FailureActor) (r : JobRows)
    → (skip_unadmitted_attempts now actor r).forms ≡ r.forms
unfolding skip_unadmitted_attempts
skip_unadmitted-forms now actor r =
    announce_skipped-forms now actor (where_rows needs_skip r.node_runs) _

pub claim-forms :
    (now : ℕ) (worker : String) (token lease_secs ttl_secs : ℕ) (r : JobRows)
    → (claim now worker token lease_secs ttl_secs r).forms ≡ r.forms
unfolding claim
claim-forms now worker token lease_secs ttl_secs r = elim (Bool-cases (was_suspended r)) [
  | inl resumed ↦ rw resumed refl
  | inr first ↦ rw first refl
]

persist_over-forms :
    (jsonb_eq : Json → Json → Bool) (now id : ℕ) (p : VerifiedPlan) (r : JobRows) (o : Option Plan)
    → (persist_over jsonb_eq now id p r o).0.forms ≡ r.forms
unfolding persist_over insert_plan adopt
persist_over-forms jsonb_eq now id p r none = refl
persist_over-forms jsonb_eq now id p r (some stored) =
    if-cases (λ (x : JobRows × PlanPersisted). x.0.forms ≡ r.forms) (is_same_plan jsonb_eq p stored)
      (λ _. refl) (λ _. refl)

pub persist_plan-forms :
    (jsonb_eq : Json → Json → Bool) (now id token : ℕ) (p : VerifiedPlan) (r : JobRows)
    → (persist_plan jsonb_eq now id token p r).0.forms ≡ r.forms
unfolding persist_plan
persist_plan-forms jsonb_eq now id token p r = elim (Bool-cases (holds token r.job)) [
  | inl held ↦ rw held (persist_over-forms jsonb_eq now id p r _)
  | inr lost ↦ rw lost refl
]

admit_matched-forms :
    (now plan_version : ℕ) (r : JobRows) (ns : List NodeRun) {u : JobRows} {a : Admission}
    → admit_matched now plan_version r ns ≡ some (u, a)
    → u.forms ≡ r.forms
unfolding admit_matched
admit_matched-forms now plan_version r [] e =
    subst (λ (x : JobRows × Admission). x.0.forms ≡ r.forms) (some_inj.0 e) refl
admit_matched-forms now plan_version r (n ∷ []) e =
    subst (λ (x : JobRows × Admission). x.0.forms ≡ r.forms) (some_inj.0 e) refl
admit_matched-forms now plan_version r (n ∷ m ∷ more) e = cc

pub admit_node-forms :
    (now token plan_version : ℕ) (r : JobRows) {u : JobRows} {a : Admission}
    → admit_node now token plan_version r ≡ some (u, a)
    → u.forms ≡ r.forms
unfolding admit_node
admit_node-forms now token plan_version r e = elim (Bool-cases (holds token r.job)) [
  | inl held ↦ admit_matched-forms now plan_version r _ (rw held at e)
  | inr lost ↦
      subst (λ (x : JobRows × Admission). x.0.forms ≡ r.forms) (some_inj.0 (rw lost at e)) refl
]

pub recover-forms :
    (now : ℕ) (name : String) (fresh : ℕ → ℕ) (cap : ℕ) (response : SettledResponse) (r : JobRows)
    → (recover now name fresh cap response r).forms ≡ r.forms
unfolding recover
recover-forms now name fresh cap response r =
    elim (Bool-cases (any (is_at_cap cap) (running_attempts r))) [
      | inl full ↦ rw full (abandon-forms now name r)
      | inr room ↦ rw room (abandon-forms now name r)
    ]
