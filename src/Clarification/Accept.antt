-- ===== src/Clarification/Accept.antt =====
-- accept_answers (T6, crates/chat/src/clarification/repository.rs).
use fineract_ai_backend.Clarification.Answers.{AcceptedAnswer, insert_answers, field_names}
use fineract_ai_backend.Clarification.Resolve.{is_open_form, resolve}
use fineract_ai_backend.Prelude.{
  ℕ, ◌+◌, Option, none, some, List, any, if◌then◌else◌, update_where, ◌>>=◌,
}
use fineract_ai_backend.Prelude.Json.{array, num, arr, obj, field, end}
use fineract_ai_backend.Store.Vocabulary.{Lifecycle, FormState, is_waiting}
use fineract_ai_backend.Store.Rows.{Job, Form, no_references, JobRows, audit_of}
use fineract_ai_backend.Store.Events.{append_event_ref, insert_audit}

-- `WHERE id = $1 AND lifecycle = 'WaitingForUser'`, whose row count is not looked at.
abbrev pub resume_row : ℕ → ℕ → Job → Job
resume_row now ttl_secs j =
    let waits = is_waiting j.lifecycle in
    record j {
      lifecycle = if waits then Lifecycle.queued else j.lifecycle;
      waiting_since = if waits then none else j.waiting_since;
      expires_at = if waits then some (now + ttl_secs) else j.expires_at;
      updated_at = if waits then now else j.updated_at;
    }

-- `none`: the form is closed, or an answer violates a constraint of its table; nothing is written.
-- `form` is the form as the service read it before this transaction.
unfoldable pub accept_answers : ℕ → Form → ℕ → List AcceptedAnswer → ℕ → JobRows → Option JobRows
unfolding append_event_ref insert_audit resolve
accept_answers now form answered_by answers ttl_secs r =
    let names = arr (array (field_names answers)) in
    if any (is_open_form form.id) r.forms
    then (insert_answers form.id (some answered_by) answers r.answers >>= λ stored. some (
        insert_audit
          (record (audit_of "user" r.job.id "clarify" "clarification.answered" "ok") {
            actor_user_id = some answered_by;
            session_id = some r.job.session_id;
            detail_json =
                obj
                  (field "clarification_id" (num form.clarification_id) (field "fields" names end));
          })
          (append_event_ref now "clarification.accepted"
            (record no_references {
              clarification_id = some form.clarification_id;
              clarification_revision = some form.revision;
            })
            (some (
              obj (
                field "clarification_id" (num form.clarification_id)
                  (field "revision" (num form.revision) (field "answered_fields" names end)))))
            (record r {
              job = resume_row now ttl_secs r.job;
              forms =
                  update_where (is_open_form form.id)
                    (resolve now answered_by FormState.answered "answered") r.forms;
              answers = stored;
            }))))
    else none
