-- ===== src/Protocol/Standing/Shapes.antt =====
-- The columns that each lifecycle demands, and what they say of a job that was selected by it.
use fineract_ai_backend.Prelude.{ℕ, String, true, false, ◌≡◌, Option, some, none, is_some}
use fineract_ai_backend.Store.Vocabulary.{
  Lifecycle, Outcome, is_running, is_waiting, is_queued, is_terminal,
}
use fineract_ai_backend.Store.Rows.{Job}
use fineract_ai_backend.Store.Lease.{holds}
use fineract_ai_backend.Protocol.Frames.{holds-Running}

-- The columns that belong to the lifecycle.
pub record Standing : Type 0 where
  pub outcome : Option Outcome
  pub failure_code : Option String
  pub final_response_version : Option ℕ
  pub lease_token : Option ℕ
  pub lease_expires_at : Option ℕ
  pub cancel_requested_at : Option ℕ
  pub started_at : Option ℕ
  pub waiting_since : Option ℕ
  pub terminal_at : Option ℕ
  pub expires_at : Option ℕ

abbrev pub standing : Job → Standing
standing j = record {
  outcome = j.outcome;
  failure_code = j.failure_code;
  final_response_version = j.final_response_version;
  lease_token = j.lease_token;
  lease_expires_at = j.lease_expires_at;
  cancel_requested_at = j.cancel_requested_at;
  started_at = j.started_at;
  waiting_since = j.waiting_since;
  terminal_at = j.terminal_at;
  expires_at = j.expires_at;
}

-- Nothing is said of how the job ended.
abbrev pub IsUnsettled : Standing → Type 0
IsUnsettled j = (j.outcome ≡ none) × (j.final_response_version ≡ none) × (j.terminal_at ≡ none)

abbrev pub HasNoLease : Standing → Type 0
HasNoLease j = (j.lease_token ≡ none) × (j.lease_expires_at ≡ none)

-- The job ended, no reaper waits for it, and no worker holds it.
abbrev pub IsClosed : Standing → Type 0
IsClosed j = (is_some j.terminal_at ≡ true) × (j.expires_at ≡ none) × HasNoLease j

abbrev pub Shape : Lifecycle → Standing → Type 0
Shape Lifecycle.queued j = IsUnsettled j × HasNoLease j
Shape Lifecycle.running j =
    IsUnsettled j
    × (is_some j.lease_token ≡ true)
    × (is_some j.lease_expires_at ≡ true)
    × (is_some j.started_at ≡ true)
    × (is_some j.expires_at ≡ true)
Shape Lifecycle.waiting_for_user j =
    IsUnsettled j × HasNoLease j × (is_some j.waiting_since ≡ true) × (is_some j.expires_at ≡ true)
Shape Lifecycle.cancelling j = IsUnsettled j × (is_some j.cancel_requested_at ≡ true)
Shape Lifecycle.completed j =
    IsClosed j × (is_some j.outcome ≡ true) × (is_some j.final_response_version ≡ true)
Shape Lifecycle.failed j =
    IsClosed j
    × (j.outcome ≡ some Outcome.operational_failure)
    × (is_some j.failure_code ≡ true)
    × (j.final_response_version ≡ some 1)
Shape Lifecycle.cancelled j =
    IsClosed j × (j.outcome ≡ some Outcome.cancelled) × (j.final_response_version ≡ none)
Shape Lifecycle.expired j =
    IsClosed j × (j.outcome ≡ some Outcome.expired) × (j.final_response_version ≡ none)

-- The columns agree with the lifecycle.
abbrev pub IsConsistent : Job → Type 0
IsConsistent j = Shape j.lifecycle (standing j)

pub Shape-running :
    (l : Lifecycle) (s : Standing) → is_running l ≡ true → Shape l s → Shape Lifecycle.running s
Shape-running Lifecycle.running s h x = x
Shape-running Lifecycle.queued s h x = cc
Shape-running Lifecycle.waiting_for_user s h x = cc
Shape-running Lifecycle.cancelling s h x = cc
Shape-running Lifecycle.completed s h x = cc
Shape-running Lifecycle.failed s h x = cc
Shape-running Lifecycle.cancelled s h x = cc
Shape-running Lifecycle.expired s h x = cc

pub running-Shape :
    (l : Lifecycle) (s : Standing) → is_running l ≡ true → Shape Lifecycle.running s → Shape l s
running-Shape Lifecycle.running s h x = x
running-Shape Lifecycle.queued s h x = cc
running-Shape Lifecycle.waiting_for_user s h x = cc
running-Shape Lifecycle.cancelling s h x = cc
running-Shape Lifecycle.completed s h x = cc
running-Shape Lifecycle.failed s h x = cc
running-Shape Lifecycle.cancelled s h x = cc
running-Shape Lifecycle.expired s h x = cc

pub Shape-waiting :
    (l : Lifecycle) (s : Standing)
    → is_waiting l ≡ true
    → Shape l s
    → Shape Lifecycle.waiting_for_user s
Shape-waiting Lifecycle.waiting_for_user s h x = x
Shape-waiting Lifecycle.queued s h x = cc
Shape-waiting Lifecycle.running s h x = cc
Shape-waiting Lifecycle.cancelling s h x = cc
Shape-waiting Lifecycle.completed s h x = cc
Shape-waiting Lifecycle.failed s h x = cc
Shape-waiting Lifecycle.cancelled s h x = cc
Shape-waiting Lifecycle.expired s h x = cc

Shape-queued :
    (l : Lifecycle) (s : Standing) → is_queued l ≡ true → Shape l s → Shape Lifecycle.queued s
Shape-queued Lifecycle.queued s h x = x
Shape-queued Lifecycle.running s h x = cc
Shape-queued Lifecycle.waiting_for_user s h x = cc
Shape-queued Lifecycle.cancelling s h x = cc
Shape-queued Lifecycle.completed s h x = cc
Shape-queued Lifecycle.failed s h x = cc
Shape-queued Lifecycle.cancelled s h x = cc
Shape-queued Lifecycle.expired s h x = cc

-- A job that has not ended is unsettled.
pub Shape-live : (l : Lifecycle) (s : Standing) → is_terminal l ≡ false → Shape l s → IsUnsettled s
Shape-live Lifecycle.queued s h x = x.0
Shape-live Lifecycle.running s h x = x.0
Shape-live Lifecycle.waiting_for_user s h x = x.0
Shape-live Lifecycle.cancelling s h x = x.0
Shape-live Lifecycle.completed s h x = cc
Shape-live Lifecycle.failed s h x = cc
Shape-live Lifecycle.cancelled s h x = cc
Shape-live Lifecycle.expired s h x = cc

pub held-IsUnsettled :
    (token : ℕ) (j : Job) → holds token j ≡ true → IsConsistent j → IsUnsettled (standing j)
held-IsUnsettled token j held h = (Shape-running j.lifecycle _ (holds-Running token j held) h).0
