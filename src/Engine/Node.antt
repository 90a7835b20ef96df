-- ===== src/Engine/Node.antt =====
-- admit_node and complete_node (T4, crates/chat/src/engine/repository.rs). `digest` is the hex
-- SHA-256 of a JSON text.
use text.Mathlib.Text.{◌==◌ as str_eq}
use fineract_ai_backend.Prelude.{
  ℕ, ◌+◌, String, Bool, ◌&&◌, Option, none, some, List, [], ◌∷◌, ◌==◌, if◌then◌else◌, where_rows,
  update_where,
}
use fineract_ai_backend.Prelude.Json.{Json, str, num, obj, field, end, optional}
use fineract_ai_backend.Store.Vocabulary.{
  NodeStatus, Completeness, is_node_running, is_node_runnable,
}
use fineract_ai_backend.Store.Rows.{NodeRun, no_references, JobRows, audit_of}
use fineract_ai_backend.Store.Events.{append_event_ref, insert_audit}
use fineract_ai_backend.Store.Lease.{holds}

pub data Admission : Type 0 where
  admitted : ℕ → Admission
  fenced nothing_runnable : Admission

abbrev pub is_admissible : ℕ → NodeRun → Bool
is_admissible plan_version n =
    n.plan_version == plan_version && str_eq n.node_id "main" && is_node_runnable n.status

abbrev pub start : ℕ → NodeRun → NodeRun
start now n = record n { status = NodeStatus.running; started_at = some now }

-- The attempts that the statement matched. `none` is the database's error where the scalar subquery
-- has more than one row.
unfoldable pub admit_matched : ℕ → ℕ → JobRows → List NodeRun → Option (JobRows × Admission)
admit_matched now plan_version r [] = some (r, nothing_runnable)
admit_matched now plan_version r (n ∷ []) = some (
  record r { node_runs = update_where (is_admissible plan_version) (start now) r.node_runs },
  admitted n.attempt,
)
admit_matched now plan_version r (n ∷ m ∷ more) = none

-- One statement: the fence and the admission see one snapshot.
unfoldable pub admit_node : ℕ → ℕ → ℕ → JobRows → Option (JobRows × Admission)
admit_node now lease_token plan_version r =
    if holds lease_token r.job
    then admit_matched now plan_version r (where_rows (is_admissible plan_version) r.node_runs)
    else some (r, fenced)

-- The two statuses that the worker reports.
pub data Finish : Type 0 where
  completed failed : Finish

abbrev pub status_of : Finish → NodeStatus
status_of completed = NodeStatus.completed
status_of failed = NodeStatus.failed

abbrev status_text : Finish → String
status_text completed = "Completed"
status_text failed = "Failed"

abbrev audit_result : Finish → String
audit_result completed = "ok"
audit_result failed = "failed"

pub record NodeOutcome : Type 0 where
  pub status : Finish
  pub completeness : Option Completeness
  pub completeness_reason : Option String
  pub failure_code : Option String
  pub input_binding_json : Json
  pub output_json : Option Json
  pub provenance_json : Json
  pub rows_returned : Option ℕ
  pub duration_ms : Option ℕ
  pub extra_queries : ℕ

-- Only the attempt that this worker admitted, and only while it runs.
abbrev pub is_running_attempt : ℕ → ℕ → NodeRun → Bool
is_running_attempt plan_version attempt n =
    n.plan_version == plan_version
    && str_eq n.node_id "main"
    && n.attempt == attempt
    && is_node_running n.status

-- RETURNING id
abbrev pub complete_matched : JobRows → List NodeRun → Option (JobRows × ℕ)
complete_matched written [] = none
complete_matched written (n ∷ others) = some (written, n.id)

module _ (digest : Json → String) where
  unfoldable pub finish_attempt : ℕ → NodeOutcome → NodeRun → NodeRun
  finish_attempt now outcome n = record n {
    status = status_of outcome.status;
    completeness = outcome.completeness;
    completeness_reason = outcome.completeness_reason;
    failure_code = outcome.failure_code;
    output_json = outcome.output_json;
    provenance_json = outcome.provenance_json;
    rows_returned = outcome.rows_returned;
    duration_ms = outcome.duration_ms;
    input_binding_json = some outcome.input_binding_json;
    input_binding_hash = some (digest outcome.input_binding_json);
    finished_at = some now;
  }

  -- The rows after the node's result is written.
  unfoldable pub write_outcome : ℕ → ℕ → ℕ → NodeOutcome → JobRows → JobRows
  unfolding append_event_ref insert_audit finish_attempt
  write_outcome now plan_version attempt outcome r =
      insert_audit
        (record (audit_of "worker" r.job.id "source_query" "node.completed"
          (audit_result outcome.status)) {
            session_id = some r.job.session_id;
            failure_code = outcome.failure_code;
            detail_json = outcome.provenance_json;
          })
        (append_event_ref now "node.status_changed"
          (record no_references {
            plan_version = some plan_version;
            node_id = some "main";
            node_attempt = some attempt;
          })
          (some (
            obj (
              field "status" (str (status_text outcome.status))
                (field "rows_returned" (optional num outcome.rows_returned) end))))
          (record r {
            job = record (r.job) {
              query_count = r.job.query_count + 1 + outcome.extra_queries;
              updated_at = now;
            };
            node_runs =
                update_where (is_running_attempt plan_version attempt) (finish_attempt now outcome)
                  r.node_runs;
          }))

  -- `none`: fenced off, and nothing is written. The number is job_node_runs.id.
  unfoldable pub complete_node : ℕ → ℕ → ℕ → ℕ → NodeOutcome → JobRows → Option (JobRows × ℕ)
  unfolding write_outcome
  complete_node now lease_token plan_version attempt outcome r =
      if holds lease_token r.job
      then complete_matched (write_outcome now plan_version attempt outcome r)
          (where_rows (is_running_attempt plan_version attempt) r.node_runs)
      else none
