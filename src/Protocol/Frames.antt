-- ===== src/Protocol/Frames.antt =====
-- What the composite writes leave alone: closing the attempts of a job changes the number of its
-- last event and its time stamp in its row, and nothing else.
use fineract_ai_backend.Prelude.{
  ℕ, String, true, false, ◌≡◌, List, [], ◌∷◌, some, where_rows, arith, eq_column, ◌&&◌, ◌||◌,
}
use fineract_ai_backend.Store.Vocabulary.{
  Lifecycle, is_running, is_terminal, is_waiting, is_cancelling,
}
use fineract_ai_backend.Store.Rows.{Job, JobRows, NodeRun}
use fineract_ai_backend.Store.Lease.{holds}
use fineract_ai_backend.Engine.Settle.{
  FailureActor, announce_skipped, needs_skip, skip_unadmitted_attempts,
}
use fineract_ai_backend.Job.Cancel.{is_cancellable}
use fineract_ai_backend.Engine.Claim.{is_claimable}
use fineract_ai_backend.Engine.Reaper.{
  is_overdue, is_orphaned_cancelling, is_lease_lost, announce_abandoned, running_attempts,
  abandon_running_attempts,
}

-- The row after an event.
abbrev pub stamp : ℕ → ℕ → Job → Job
stamp sequence now j = record j { last_event_sequence = sequence; updated_at = now }

module _ (P : Job → Type 0)
    (stamped : (j : Job) (sequence now : ℕ) → P j → P (stamp sequence now j)) where
  announce_abandoned-frame :
      (now : ℕ) (name : String) (ns : List NodeRun) (r : JobRows)
      → P r.job
      → P (announce_abandoned now name ns r).job
  unfolding announce_abandoned
  announce_abandoned-frame now name [] r h = h
  announce_abandoned-frame now name (n ∷ ns) r h =
      announce_abandoned-frame now name ns _ (stamped r.job _ now h)

  announce_skipped-frame :
      (now : ℕ) (actor : FailureActor) (ns : List NodeRun) (r : JobRows)
      → P r.job
      → P (announce_skipped now actor ns r).job
  unfolding announce_skipped
  announce_skipped-frame now actor [] r h = h
  announce_skipped-frame now actor (n ∷ ns) r h =
      announce_skipped-frame now actor ns _ (stamped r.job _ now h)

  pub abandon-frame :
      (now : ℕ) (name : String) (r : JobRows)
      → P r.job
      → P (abandon_running_attempts now name r).job
  unfolding abandon_running_attempts
  abandon-frame now name r h = announce_abandoned-frame now name (running_attempts r) _ h

  pub skip_unadmitted-frame :
      (now : ℕ) (actor : FailureActor) (r : JobRows)
      → P r.job
      → P (skip_unadmitted_attempts now actor r).job
  unfolding skip_unadmitted_attempts
  skip_unadmitted-frame now actor r h =
      announce_skipped-frame now actor (where_rows needs_skip r.node_runs) _ h

-- Who passes the fence holds the lease of a running job.
pub holds-Running : (token : ℕ) (j : Job) → holds token j ≡ true → is_running j.lifecycle ≡ true
holds-Running token j h = ground arith

pub holds-lease : (token : ℕ) (j : Job) → holds token j ≡ true → j.lease_token ≡ some token
holds-lease token j h = ground arith

pub running_not_terminal : (l : Lifecycle) → is_running l ≡ true → is_terminal l ≡ false
running_not_terminal l h = ground arith

-- What the selections by lifecycle find has not ended.
pub claimable_live :
    (now : ℕ) (j : Job) → is_claimable now j ≡ true → is_terminal j.lifecycle ≡ false
claimable_live now j h = ground arith

pub lost_live :
    (now : ℕ) (r : JobRows) → is_lease_lost now r ≡ true → is_terminal r.job.lifecycle ≡ false
lost_live now r h = ground arith

pub overdue_live :
    (now : ℕ) (r : JobRows) → is_overdue now r ≡ true → is_terminal r.job.lifecycle ≡ false
overdue_live now r h = ground arith

pub orphan_live :
    (now : ℕ) (r : JobRows)
    → is_orphaned_cancelling now r ≡ true
    → is_terminal r.job.lifecycle ≡ false
orphan_live now r h = ground arith

pub cancellation_live :
    (token : ℕ) (j : Job)
    → (eq_column j.lease_token token && (is_running j.lifecycle || is_cancelling j.lifecycle))
      ≡ true
    → is_terminal j.lifecycle ≡ false
cancellation_live token j h = ground arith

pub cancellable_live : (l : Lifecycle) → is_cancellable l ≡ true → is_terminal l ≡ false
cancellable_live l h = ground arith

pub waiting_live : (l : Lifecycle) → is_waiting l ≡ true → is_terminal l ≡ false
waiting_live l h = ground arith
