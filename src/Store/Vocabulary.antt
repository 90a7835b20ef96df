-- ===== src/Store/Vocabulary.antt =====
-- The closed vocabularies of the status columns, and the tests that the statements make on them.
use fineract_ai_backend.Prelude.{Bool, true, false, String}

-- chat_jobs.lifecycle
pub data Lifecycle : Type 0 where
  queued running waiting_for_user cancelling : Lifecycle
  completed failed cancelled expired : Lifecycle

-- chat_jobs.outcome
pub data Outcome : Type 0 where
  answered empty not_found unsupported blocked_by_policy invalid : Outcome
  operational_failure skipped_by_user cancelled expired : Outcome

pub data Completeness : Type 0 where
  complete partial unknown : Completeness

-- job_node_runs.status
pub data NodeStatus : Type 0 where
  pending runnable running completed failed skipped abandoned : NodeStatus

-- clarification_forms.state
pub data FormState : Type 0 where
  opened answered superseded skipped expired invalidated : FormState

-- The columns hold these texts.
abbrev pub lifecycle_text : Lifecycle → String
lifecycle_text queued = "Queued"
lifecycle_text running = "Running"
lifecycle_text waiting_for_user = "WaitingForUser"
lifecycle_text cancelling = "Cancelling"
lifecycle_text completed = "Completed"
lifecycle_text failed = "Failed"
lifecycle_text cancelled = "Cancelled"
lifecycle_text expired = "Expired"

abbrev pub outcome_text : Outcome → String
outcome_text answered = "Answered"
outcome_text empty = "Empty"
outcome_text not_found = "NotFound"
outcome_text unsupported = "Unsupported"
outcome_text blocked_by_policy = "BlockedByPolicy"
outcome_text invalid = "Invalid"
outcome_text operational_failure = "OperationalFailure"
outcome_text skipped_by_user = "SkippedByUser"
outcome_text cancelled = "Cancelled"
outcome_text expired = "Expired"

abbrev pub completeness_text : Completeness → String
completeness_text complete = "Complete"
completeness_text partial = "Partial"
completeness_text unknown = "Unknown"

abbrev pub is_queued : Lifecycle → Bool
is_queued queued = true
is_queued _ = false

abbrev pub is_running : Lifecycle → Bool
is_running running = true
is_running _ = false

abbrev pub is_waiting : Lifecycle → Bool
is_waiting waiting_for_user = true
is_waiting _ = false

abbrev pub is_cancelling : Lifecycle → Bool
is_cancelling cancelling = true
is_cancelling _ = false

-- `IN ('Completed','Failed','Cancelled','Expired')`
abbrev pub is_terminal : Lifecycle → Bool
is_terminal completed = true
is_terminal failed = true
is_terminal cancelled = true
is_terminal expired = true
is_terminal _ = false

abbrev pub is_node_running : NodeStatus → Bool
is_node_running running = true
is_node_running _ = false

abbrev pub is_node_runnable : NodeStatus → Bool
is_node_runnable runnable = true
is_node_runnable _ = false

-- `IN ('Pending', 'Runnable')`
abbrev pub is_unadmitted : NodeStatus → Bool
is_unadmitted pending = true
is_unadmitted runnable = true
is_unadmitted _ = false

abbrev pub is_open : FormState → Bool
is_open opened = true
is_open _ = false
