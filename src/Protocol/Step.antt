-- ===== src/Protocol/Step.antt =====
-- Every transaction that changes the rows of one job, as one step relation. The label of a step is
-- the lease token that it issues, if it issues one. A run is a sequence of whole transactions.
use mathlib.Core.Option.{some_inj}
use fineract_ai_backend.Prelude.{
  ℕ, String, Bool, true, false, ◌≡◌, refl, subst, Option, none, some, List, [], ◌∷◌, ◌>>=◌,
  if◌then◌else◌,
}
use fineract_ai_backend.Prelude.Json.{Json}
use fineract_ai_backend.Store.Rows.{JobRows, NodeRun, Form}
use fineract_ai_backend.Store.Sessions.{Session}
use fineract_ai_backend.Engine.Claim.{is_claimable, claim, renew_lease}
use fineract_ai_backend.Engine.Model.{CallDetail, admit_model, finish_model}
use fineract_ai_backend.Engine.Plan.{VerifiedPlan, persist_plan}
use fineract_ai_backend.Engine.Node.{
  Admission, NodeOutcome, admit_node, complete_node, complete_matched,
}
use fineract_ai_backend.Engine.Memory.{MemoryFact}
use fineract_ai_backend.Engine.Settle.{
  SettledResponse, Validated, settle_with_response, settle_failed, settle_cancelled,
}
use fineract_ai_backend.Engine.Reaper.{
  is_overdue, expire, is_orphaned_cancelling, cancel_orphan, is_lease_lost, recover,
}
use fineract_ai_backend.Clarification.{
  AcceptedAnswer, Question, SkippedResponse, open_form, accept_answers, skip,
}
use fineract_ai_backend.Job.Cancel.{request_cancel}

-- `cap` is NODE_ATTEMPT_CAP.
pub data Step (cap : ℕ) (r : JobRows) : Option ℕ → JobRows → Type 0 where
  cancels : {u : JobRows} (now actor : ℕ) → request_cancel now actor r ≡ some u → Step cap r none u
  claims :
      (now : ℕ) (worker : String) (token lease_secs ttl_secs : ℕ)
      → is_claimable now r.job ≡ true
      → Step cap r (some token) (claim now worker token lease_secs ttl_secs r)
  renews :
      {u : JobRows} (now token lease_secs : ℕ)
      → renew_lease now token lease_secs r ≡ some u
      → Step cap r none u
  admits_model :
      (now call token max_calls max_tokens reserved : ℕ) (key : String) (max_attempts : ℕ)
      (detail : CallDetail)
      → Step cap r none
          (admit_model now call token max_calls max_tokens reserved key max_attempts detail r).0
  finishes_model :
      {u : JobRows} (now call token reserved : ℕ) (observed : Option ℕ) (result : String)
      (failure : Option String) (duration : ℕ) (detail : CallDetail)
      → finish_model now call token reserved observed result failure duration detail r ≡ some u
      → Step cap r none u
  persists_plan :
      (jsonb_eq : Json → Json → Bool) (now id token : ℕ) (p : VerifiedPlan)
      → Step cap r none (persist_plan jsonb_eq now id token p r).0
  admits_node :
      {u : JobRows} {a : Admission} (now token plan_version : ℕ)
      → admit_node now token plan_version r ≡ some (u, a)
      → Step cap r none u
  completes_node :
      {u : JobRows} {id : ℕ} (digest : Json → String) (now token plan_version attempt : ℕ)
      (outcome : NodeOutcome)
      → complete_node digest now token plan_version attempt outcome r ≡ some (u, id)
      → Step cap r none u
  settles :
      {u : JobRows} (s t : Session) (now : ℕ) (fresh : ℕ → ℕ) (owner token : ℕ) (v : Validated)
      (facts : List MemoryFact)
      → settle_with_response now fresh owner token v facts (r, s) ≡ some (u, t)
      → Step cap r none u
  fails :
      {u : JobRows} (now token : ℕ) (code : String) (response : SettledResponse)
      → settle_failed now token code response r ≡ some u
      → Step cap r none u
  settles_cancelled :
      {u : JobRows} (now token : ℕ) → settle_cancelled now token r ≡ some u → Step cap r none u
  expires :
      (now : ℕ) (name : String) → is_overdue now r ≡ true → Step cap r none (expire now name r)
  closes_orphan :
      (now : ℕ) (name : String)
      → is_orphaned_cancelling now r ≡ true
      → Step cap r none (cancel_orphan now name r)
  recovers :
      (now : ℕ) (name : String) (fresh : ℕ → ℕ) (response : SettledResponse)
      → is_lease_lost now r ≡ true
      → Step cap r none (recover now name fresh cap response r)
  asks :
      {u : JobRows} {f : Form} (now form_id clarification_id token : ℕ) (q : Question)
      (auto_bound : List AcceptedAnswer) (wait_secs ttl_secs : ℕ)
      → open_form now form_id clarification_id token q auto_bound wait_secs ttl_secs r ≡ some (u, f)
      → Step cap r none u
  answers :
      {u : JobRows} (now : ℕ) (form : Form) (actor : ℕ) (given : List AcceptedAnswer) (ttl_secs : ℕ)
      → accept_answers now form actor given ttl_secs r ≡ some u
      → Step cap r none u
  skips :
      {u : JobRows} (now : ℕ) (form : Form) (actor : ℕ) (response : SkippedResponse)
      → skip now form actor response r ≡ some u
      → Step cap r none u

-- A sequence of steps whose labels are all admitted by `allowed`.
pub data Run (cap : ℕ) (allowed : Option ℕ → Type 0) (r : JobRows) : JobRows → Type 0 where
  here : Run cap allowed r r
  next :
      {s t : JobRows} {label : Option ℕ}
      → Run cap allowed r s
      → allowed label
      → Step cap s label t
      → Run cap allowed r t

abbrev pub AnyLabel : Option ℕ → Type 0
AnyLabel label = Unit {0}

-- Reached by any steps.
abbrev pub Reach : ℕ → JobRows → JobRows → Type 0
Reach cap = Run cap AnyLabel

-- What a predicate that every step preserves says of a run.
pub Run-preserves :
    {cap : ℕ} {allowed : Option ℕ → Type 0} {r u : JobRows} (P : JobRows → Type 0)
    → ((s t : JobRows) (label : Option ℕ) → allowed label → Step cap s label t → P s → P t)
    → Run cap allowed r u
    → P r
    → P u
Run-preserves P keep here h = h
Run-preserves P keep (next {s} {t} {label} run ok step) h =
    keep s t label ok step (Run-preserves P keep run h)

-- What holds of the rows that a guarded transaction writes holds of the rows that it leaves.
pub committed {ℓ} :
    {A : Type 0} {x u : A} (P : A → Type ℓ) (b : Bool)
    → (if b then some x else none) ≡ some u
    → (b ≡ true → P x)
    → P u
committed P true e h = subst P (some_inj.0 e) (h refl)
committed P false e h = cc

-- The same where rows are inserted under constraints.
pub committed_with {ℓ} :
    {A B : Type 0} {u : A} (P : A → Type ℓ) (b : Bool) (m : Option B) (f : B → A)
    → (if b then (m >>= λ x. some (f x)) else none) ≡ some u
    → (b ≡ true → (x : B) → m ≡ some x → P (f x))
    → P u
committed_with P true none f e h = cc
committed_with P true (some x) f e h = subst P (some_inj.0 e) (h refl x refl)
committed_with P false m f e h = cc

-- The same where the guard protects an update that may match no row.
pub committed_rows :
    {u : JobRows × ℕ} (P : JobRows × ℕ → Type 0) (b : Bool) (written : JobRows) (l : List NodeRun)
    → (if b then complete_matched written l else none) ≡ some u
    → (b ≡ true → (n : NodeRun) → P (written, n.id))
    → P u
committed_rows P true written [] e h = cc
committed_rows P true written (n ∷ others) e h = subst P (some_inj.0 e) (h refl n)
committed_rows P false written l e h = cc
