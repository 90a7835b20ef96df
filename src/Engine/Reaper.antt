-- ===== src/Engine/Reaper.antt =====
-- The reaper's round (T11): sweep, settle_expired, settle_abandoned_cancelling,
-- recover_lost_leases, abandon_running_attempts, settle_attempts_exhausted, finish_sweep_row
-- (crates/chat/src/engine/repository.rs). Each statement is a test and a treatment of one job's
-- rows, and a pass applies it to every job that the test selects. `fresh` gives the identifiers of
-- the rows that a job's treatment inserts, and `locked` the jobs that SKIP LOCKED passes over.
mod Abandoned
unfoldable pub use Abandoned.*
use fineract_ai_backend.Prelude.{
  ℕ, ◌+◌, String, Bool, ◌&&◌, ◌||◌, not, none, some, List, [], ◌∷◌, ◌++◌, leb, any, length, is_none,
  is_some, lt_column, if◌then◌else◌, where_rows, update_where, count_where,
}
use fineract_ai_backend.Prelude.Json.{Json, Items, str, num, arr, obj, field, end, nil, cons}
use fineract_ai_backend.Store.Vocabulary.{
  Lifecycle, Outcome, Completeness, NodeStatus, is_running, is_cancelling, is_terminal,
  is_node_running,
}
use fineract_ai_backend.Store.Rows.{NodeRun, JobRows, audit_of}
use fineract_ai_backend.Store.Events.{append_event, append_event_ref, insert_audit}
use fineract_ai_backend.Store.Lease.{close}
use fineract_ai_backend.Engine.Settle.{
  SettledResponse, reaper, announce_attempt, skip_unadmitted_attempts, record_failure, fail_row,
}

abbrev pub node_attempt_cap_reached : String
node_attempt_cap_reached = "node_attempt_cap_reached"

abbrev by_reaper : Json
by_reaper = obj (field "by" (str "reaper") end)

unfoldable pub finish_sweep_row : ℕ → String → String → String → JobRows → JobRows
unfolding append_event insert_audit
finish_sweep_row now name event_type action r =
    insert_audit
      (record (audit_of "reaper" r.job.id "settle" action "ok") {
        session_id = some r.job.session_id;
        detail_json = obj (field "reaper" (str name) end);
      })
      (append_event now event_type (some by_reaper) r)

-- Both settlements of the reaper close the job's open attempts in the same way.
abbrev close_attempts : ℕ → String → JobRows → JobRows
close_attempts now name r =
    skip_unadmitted_attempts now (reaper name) (abandon_running_attempts now name r)

abbrev pub is_overdue : ℕ → JobRows → Bool
is_overdue now r =
    not (is_terminal r.job.lifecycle) && is_some r.job.expires_at && lt_column r.job.expires_at now

unfoldable pub expire : ℕ → String → JobRows → JobRows
unfolding finish_sweep_row
expire now name r = finish_sweep_row now name "job.expired" "job.expired" (
    close_attempts now name (record r {
      job = record (close now r.job) {
        lifecycle = Lifecycle.expired;
        outcome = some Outcome.expired;
        completeness = some Completeness.unknown;
        completeness_reason = some "job_ttl_exceeded";
      };
    }))

unfoldable pub settle_expired : ℕ → String → List JobRows → List JobRows × ℕ
settle_expired now name jobs =
    (update_where (is_overdue now) (expire now name) jobs, count_where (is_overdue now) jobs)

abbrev pub is_orphaned_cancelling : ℕ → JobRows → Bool
is_orphaned_cancelling now r =
    is_cancelling r.job.lifecycle
    && (is_none r.job.lease_expires_at || lt_column r.job.lease_expires_at now)

unfoldable pub cancel_orphan : ℕ → String → JobRows → JobRows
unfolding finish_sweep_row
cancel_orphan now name r = finish_sweep_row now name "job.cancelled" "job.cancelled" (
    close_attempts now name (record r {
      job = record (close now r.job) {
        lifecycle = Lifecycle.cancelled;
        outcome = some Outcome.cancelled;
        completeness = some Completeness.unknown;
        completeness_reason = some "cancelled_by_user";
      };
    }))

unfoldable pub settle_abandoned_cancelling : ℕ → String → List JobRows → List JobRows × ℕ
settle_abandoned_cancelling now name jobs = (
  update_where (is_orphaned_cancelling now) (cancel_orphan now name) jobs,
  count_where (is_orphaned_cancelling now) jobs,
)

-- The attempts whose number has reached the cap.
abbrev pub is_at_cap : ℕ → NodeRun → Bool
is_at_cap cap n = leb cap n.attempt

unfoldable pub settle_attempts_exhausted : ℕ → String → ℕ → SettledResponse → JobRows → JobRows
unfolding record_failure
settle_attempts_exhausted now name spent response r =
    let failed = fail_row now node_attempt_cap_reached response r.job in
    record_failure now (reaper name) node_attempt_cap_reached response
      (record r { job = record failed { query_count = r.job.query_count + spent } })

-- A new attempt at the node of an abandoned one.
abbrev pub retry_of : ℕ → NodeRun → NodeRun
retry_of id n = record {
  id = id;
  plan_version = n.plan_version;
  node_id = n.node_id;
  node_kind = n.node_kind;
  attempt = n.attempt + 1;
  status = NodeStatus.runnable;
  completeness = none;
  completeness_reason = none;
  failure_code = none;
  input_binding_json = none;
  input_binding_hash = none;
  output_json = none;
  provenance_json = obj end;
  rows_returned = none;
  duration_ms = none;
  started_at = none;
  finished_at = none;
}

abbrev pub retries : (ℕ → ℕ) → List NodeRun → List NodeRun
retries fresh [] = []
retries fresh (n ∷ ns) = retry_of (fresh 0) n ∷ retries (λ k. fresh (k + 1)) ns

abbrev retry_json : List NodeRun → Items
retry_json [] = nil
retry_json (n ∷ ns) =
    cons (obj (field "node_id" (str n.node_id) (field "attempt" (num (n.attempt + 1)) end)))
      (retry_json ns)

abbrev notice_json : List NodeRun → Json
notice_json [] = by_reaper
notice_json (n ∷ ns) =
    obj (field "by" (str "reaper") (field "retry" (arr (retry_json (n ∷ ns))) end))

unfoldable pub requeue : ℕ → String → (ℕ → ℕ) → List NodeRun → JobRows → JobRows
unfolding append_event insert_audit
requeue now name fresh abandoned r =
    insert_audit
      (record (audit_of "reaper" r.job.id "settle" "job.lease_lost" "ok") {
        session_id = some r.job.session_id;
        detail_json =
            obj (field "reaper" (str name) (field "retry" (arr (retry_json abandoned)) end));
      })
      (append_event now "job.notice" (some (notice_json abandoned)) (record r {
        job = record (r.job) {
          lifecycle = Lifecycle.queued;
          lease_owner = none;
          lease_token = none;
          lease_expires_at = none;
          query_count = r.job.query_count + length abandoned;
          updated_at = now;
        };
        node_runs = r.node_runs ++ retries fresh abandoned;
      }))

abbrev pub is_lease_lost : ℕ → JobRows → Bool
is_lease_lost now r =
    is_running r.job.lifecycle
    && is_some r.job.lease_expires_at
    && lt_column r.job.lease_expires_at now

-- The loop's body: exhausted, or queued again.
unfoldable pub recover : ℕ → String → (ℕ → ℕ) → ℕ → SettledResponse → JobRows → JobRows
unfolding settle_attempts_exhausted requeue
recover now name fresh cap exhausted r =
    let abandoned = running_attempts r in
    let closed = abandon_running_attempts now name r in
    if any (is_at_cap cap) abandoned
    then settle_attempts_exhausted now name (length abandoned) exhausted closed
    else requeue now name fresh abandoned closed

abbrev pub is_recovered : ℕ → (ℕ → Bool) → JobRows → Bool
is_recovered now locked r = is_lease_lost now r && not (locked r.job.id)

abbrev pub is_exhausted : ℕ → JobRows → Bool
is_exhausted cap r = any (is_at_cap cap) (running_attempts r)

unfoldable pub recover_lost_leases :
    ℕ
    → String
    → (ℕ → ℕ → ℕ)
    → ℕ
    → SettledResponse
    → (ℕ → Bool)
    → List JobRows
    → List JobRows × ℕ × ℕ
recover_lost_leases now name fresh cap exhausted locked jobs = (
  update_where (is_recovered now locked) (λ r. recover now name (fresh r.job.id) cap exhausted r)
      jobs,
  count_where (λ r. is_recovered now locked r && not (is_exhausted cap r)) jobs,
  count_where (λ r. is_recovered now locked r && is_exhausted cap r) jobs,
)

pub record ReaperSweep : Type 0 where
  pub expired : ℕ
  pub requeued : ℕ
  pub exhausted : ℕ
  pub cancelled : ℕ

-- The three passes are three transactions: each has its own now().
unfoldable pub sweep :
    ℕ
    → ℕ
    → ℕ
    → String
    → (ℕ → ℕ → ℕ)
    → ℕ
    → SettledResponse
    → (ℕ → Bool)
    → List JobRows
    → List JobRows × ReaperSweep
unfolding settle_expired settle_abandoned_cancelling recover_lost_leases
sweep t1 t2 t3 name fresh cap response locked jobs =
    let (jobs1, expired) = settle_expired t1 name jobs in
    let (jobs2, cancelled) = settle_abandoned_cancelling t2 name jobs1 in
    let (jobs3, requeued, exhausted) =
      recover_lost_leases t3 name fresh cap response locked jobs2 in
    (
      jobs3,
      record {
        expired = expired;
        requeued = requeued;
        exhausted = exhausted;
        cancelled = cancelled;
      },
    )
