-- ===== src/Engine/Settle.antt =====
-- settle_with_response, settle_failed, settle_cancelled, record_failure, skip_unadmitted_attempts
-- (T7, crates/chat/src/engine/repository.rs).
mod Skipped
unfoldable pub use Skipped.*
use fineract_ai_backend.Prelude.{
  ℕ, String, Bool, ◌&&◌, ◌||◌, Option, none, some, List, [], ◌∷◌, ◌++◌, eq_column, if◌then◌else◌,
  where_rows, update_where,
}
use fineract_ai_backend.Prelude.Json.{Json, str, num, arr, array, obj, field, end, null}
use fineract_ai_backend.Store.Vocabulary.{
  Lifecycle, Outcome, Completeness, NodeStatus, is_running, is_cancelling, is_unadmitted,
  outcome_text, completeness_text,
}
use fineract_ai_backend.Store.Rows.{
  Job, NodeRun, Response, Message, no_references, JobRows, audit_of,
}
use fineract_ai_backend.Store.Events.{append_event, append_event_ref, insert_audit}
use fineract_ai_backend.Store.Lease.{holds, close}
use fineract_ai_backend.Store.Sessions.{Session, kind_text}
use fineract_ai_backend.Engine.Memory.{MemoryFact, promote}

pub record SettledResponse : Type 0 where
  pub kind : String
  pub outcome : Outcome
  pub completeness : Completeness
  pub completeness_reason : String
  pub blocks : Json
  pub evidence : Json
  pub response_hash : String

-- Validated (crates/chat/src/engine/validate.rs)
pub record Validated : Type 0 where
  pub served : SettledResponse
  pub rejected : Option SettledResponse
  pub report : Json

-- Validated::status
abbrev pub validation_status : Option SettledResponse → String
validation_status none = "passed"
validation_status (some _) = "fallback"

-- A rejected document takes version 1, and the served one is then version 2.
abbrev pub served_version : Option SettledResponse → ℕ
served_version none = 1
served_version (some _) = 2

abbrev failed_response_version : ℕ
failed_response_version = 1

abbrev assistant_message : ℕ → ℕ → Message
assistant_message session_id version = record {
  session_id = session_id;
  role = "assistant";
  response_version = some version;
  clarification_id = none;
  clarification_revision = none;
}

abbrev response_row : ℕ → ℕ → String → Option Json → Option ℕ → SettledResponse → Response
response_row now version status report superseded_by response = record {
  response_version = version;
  kind = response.kind;
  outcome = some response.outcome;
  completeness = response.completeness;
  completeness_reason = some response.completeness_reason;
  blocks_json = response.blocks;
  evidence_json = response.evidence;
  validation_status = status;
  validation_report_json = report;
  superseded_by_version = superseded_by;
  response_hash = response.response_hash;
  composed_at = some now;
}

-- The rejected document, when there is one, stays as version 1.
abbrev rejected_rows : ℕ → ℕ → Json → Option SettledResponse → List Response
rejected_rows now version report none = []
rejected_rows now version report (some rejected) =
    response_row now 1 "failed" (some report) (some version) rejected ∷ []

abbrev kinds : List MemoryFact → List Json
kinds [] = []
kinds (fact ∷ facts) = str (kind_text fact.kind) ∷ kinds facts

abbrev settled_detail : ℕ → Validated → List MemoryFact → Json
settled_detail version validated facts = obj (
    field "response_version" (num version) (
      field "kind" (str validated.served.kind) (
        field "response_hash" (str validated.served.response_hash) (
          field "validation_status" (str (validation_status validated.rejected)) (
            field "validation_report" validated.report
              (field "promoted_memory" (arr (array (kinds facts))) end))))))

-- T7. `none`: fenced off, and nothing is written.
unfoldable pub settle_with_response :
    ℕ
    → (ℕ → ℕ)
    → ℕ
    → ℕ
    → Validated
    → List MemoryFact
    → JobRows × Session
    → Option (JobRows × Session)
unfolding append_event_ref insert_audit
settle_with_response now fresh owner lease_token validated facts (r, s) =
    let response = validated.served in
    let version = served_version validated.rejected in
    let status = validation_status validated.rejected in
    let settled = record r {
      job = record (close now r.job) {
        lifecycle = Lifecycle.completed;
        outcome = some response.outcome;
        completeness = some response.completeness;
        completeness_reason = some response.completeness_reason;
        final_response_version = some version;
      };
      responses =
          (r.responses ++ rejected_rows now version validated.report validated.rejected)
          ++ response_row now version status (some validated.report) none response ∷ [];
      messages = r.messages ++ assistant_message r.job.session_id version ∷ [];
    } in
    if holds lease_token r.job
    then some (
      insert_audit
          (record (audit_of "worker" r.job.id "commit" "job.settled" "ok") {
            session_id = some r.job.session_id;
            job_outcome = some response.outcome;
            job_completeness = some response.completeness;
            detail_json = settled_detail version validated facts;
          })
          (append_event_ref now "job.completed"
            (record no_references { response_version = some version })
            (some (
              obj (
                field "outcome" (str (outcome_text response.outcome)) (
                  field "completeness" (str (completeness_text response.completeness))
                    (field "validation_status" (str status) end)))))
            settled),
      promote now fresh
          (record {
            owner_user_id = owner;
            job_id = r.job.id;
            plan_version = r.job.plan_version;
            response_version = version;
          })
          facts s,
    )
    else none

-- T9's end: the worker that holds the job closes it.
unfoldable pub settle_cancelled : ℕ → ℕ → JobRows → Option JobRows
unfolding append_event insert_audit
settle_cancelled now lease_token r =
    let settled = record r {
      job = record (close now r.job) {
        lifecycle = Lifecycle.cancelled;
        outcome = some Outcome.cancelled;
        completeness = some Completeness.unknown;
        completeness_reason = some "cancelled_by_user";
      };
    } in
    if eq_column r.job.lease_token lease_token
      && (is_running r.job.lifecycle || is_cancelling r.job.lifecycle)
    then some (
        insert_audit
          (record (audit_of "worker" r.job.id "settle" "job.cancelled" "ok") {
            session_id = some r.job.session_id;
            job_outcome = some Outcome.cancelled;
            job_completeness = some Completeness.unknown;
          })
          (append_event now "job.cancelled" none (skip_unadmitted_attempts now worker settled)))
    else none

abbrev failure_stage : FailureActor → String
failure_stage worker = "commit"
failure_stage (reaper _) = "settle"

abbrev failure_detail : FailureActor → Json
failure_detail worker = obj end
failure_detail (reaper name) = obj (field "reaper" (str name) end)

-- The response, the message, the terminal event and the audit row of a failed job.
unfoldable pub record_failure : ℕ → FailureActor → String → SettledResponse → JobRows → JobRows
unfolding append_event_ref insert_audit
record_failure now actor failure_code response r =
    let row = response_row now failed_response_version "passed" none none response in
    insert_audit
      (record (audit_of (actor_kind actor) r.job.id (failure_stage actor) "job.failed" "failed") {
        session_id = some r.job.session_id;
        failure_code = some failure_code;
        job_outcome = some Outcome.operational_failure;
        job_completeness = some response.completeness;
        detail_json = failure_detail actor;
      })
      (append_event_ref now "job.failed"
        (record no_references { response_version = some failed_response_version })
        (some (obj (field "failure_code" (str failure_code) end)))
        (record r {
          responses = r.responses ++ record row { outcome = some Outcome.operational_failure } ∷ [];
          messages = r.messages ++ assistant_message r.job.session_id failed_response_version ∷ [];
        }))

abbrev pub fail_row : ℕ → String → SettledResponse → Job → Job
fail_row now failure_code response j = record (close now j) {
  lifecycle = Lifecycle.failed;
  outcome = some Outcome.operational_failure;
  completeness = some response.completeness;
  completeness_reason = some response.completeness_reason;
  failure_code = some failure_code;
  final_response_version = some failed_response_version;
}

unfoldable pub settle_failed : ℕ → ℕ → String → SettledResponse → JobRows → Option JobRows
unfolding record_failure
settle_failed now lease_token failure_code response r =
    if holds lease_token r.job
    then some (
        record_failure now worker failure_code response
          (record r { job = fail_row now failure_code response r.job }))
    else none
