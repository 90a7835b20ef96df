-- ===== src/Clarification/Skip.antt =====
-- skip (T8, crates/chat/src/clarification/repository.rs).
use fineract_ai_backend.Clarification.Resolve.{is_open_form, resolve}
use fineract_ai_backend.Prelude.{
  ℕ, String, ◌&&◌, Option, none, some, List, [], ◌∷◌, ◌++◌, any, if◌then◌else◌, update_where,
}
use fineract_ai_backend.Prelude.Json.{Json, array, str, num, arr, obj, field, end}
use fineract_ai_backend.Store.Vocabulary.{
  Lifecycle, Outcome, Completeness, FormState, is_waiting, completeness_text,
}
use fineract_ai_backend.Store.Rows.{Form, Response, no_references, JobRows, audit_of}
use fineract_ai_backend.Store.Events.{append_event_ref, insert_audit}
use fineract_ai_backend.Store.Lease.{close}

pub record SkippedResponse : Type 0 where
  pub completeness : Completeness
  pub completeness_reason : String
  pub blocks : Json
  pub response_hash : String
  pub unanswered_fields : List Json

abbrev skipped_row : ℕ → SkippedResponse → Response
skipped_row now response = record {
  response_version = 1;
  kind = "skipped";
  outcome = some Outcome.skipped_by_user;
  completeness = response.completeness;
  completeness_reason = some response.completeness_reason;
  blocks_json = response.blocks;
  evidence_json = obj end;
  validation_status = "passed";
  validation_report_json = none;
  superseded_by_version = none;
  response_hash = response.response_hash;
  composed_at = some now;
}

-- `none`: the form is closed or the job no longer waits, and nothing is written.
unfoldable pub skip : ℕ → Form → ℕ → SkippedResponse → JobRows → Option JobRows
unfolding append_event_ref insert_audit resolve
skip now form actor response r =
    if any (is_open_form form.id) r.forms && is_waiting r.job.lifecycle
    then some (
        insert_audit
          (record (audit_of "user" r.job.id "commit" "job.skipped" "ok") {
            actor_user_id = some actor;
            session_id = some r.job.session_id;
            job_outcome = some Outcome.skipped_by_user;
            job_completeness = some response.completeness;
            detail_json = obj (
                field "clarification_id" (num form.clarification_id)
                  (field "unanswered_fields" (arr (array response.unanswered_fields)) end));
          })
          (append_event_ref now "job.completed"
            (record no_references {
              clarification_id = some form.clarification_id;
              clarification_revision = some form.revision;
              response_version = some 1;
            })
            (some (
              obj (
                field "outcome" (str "SkippedByUser")
                  (field "completeness" (str (completeness_text response.completeness)) end))))
            (record r {
              job = record (close now r.job) {
                lifecycle = Lifecycle.completed;
                outcome = some Outcome.skipped_by_user;
                completeness = some response.completeness;
                completeness_reason = some response.completeness_reason;
                final_response_version = some 1;
                waiting_since = none;
              };
              forms =
                  update_where (is_open_form form.id)
                    (resolve now actor FormState.skipped "skipped_by_user") r.forms;
              responses = r.responses ++ skipped_row now response ∷ [];
              messages =
                  r.messages
                  ++ record {
                    session_id = r.job.session_id;
                    role = "assistant";
                    response_version = some 1;
                    clarification_id = none;
                    clarification_revision = none;
                  }
                    ∷ [];
            })))
    else none
