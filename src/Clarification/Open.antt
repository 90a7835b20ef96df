-- ===== src/Clarification/Open.antt =====
-- open_form (T5, crates/chat/src/clarification/repository.rs). `form_id` and `clarification_id` are the generated UUIDs.
use fineract_ai_backend.Clarification.Answers.{AcceptedAnswer, insert_answers, field_names}
use fineract_ai_backend.Prelude.{
  ℕ, ◌+◌, String, Bool, ◌&&◌, ◌||◌, Option, none, some, List, [], ◌∷◌, ◌++◌, ◌==◌, ltb, length, any,
  ◌>>=◌, if◌then◌else◌,
}
use fineract_ai_backend.Prelude.Json.{Json, Items, nil, cons, array, num, arr, obj, field, end}
use fineract_ai_backend.Store.Vocabulary.{Lifecycle, FormState, is_open}
use fineract_ai_backend.Store.Rows.{Job, Form, Answer, no_references, JobRows, audit_of}
use fineract_ai_backend.Store.Events.{append_event_ref, insert_audit}
use fineract_ai_backend.Store.Lease.{holds}

-- `fields.as_array().map_or(0, Vec::len)`
abbrev count_items : Items → ℕ
count_items nil = 0
count_items (cons item items) = count_items items + 1

abbrev field_count : Json → ℕ
field_count (arr items) = count_items items
field_count _ = 0

-- Every field of the form was bound by a resolver: nothing is asked.
unfoldable pub is_fully_resolved : Json → List AcceptedAnswer → Bool
is_fully_resolved fields auto_bound =
    ltb 0 (field_count fields) && length auto_bound == field_count fields

abbrev release : ℕ → Job → Job
release now j = record j {
  lease_owner = none;
  lease_token = none;
  lease_expires_at = none;
  updated_at = now;
}

-- The two updates of T5: queued again, or waiting for the user.
abbrev pub ask_row : ℕ → Bool → ℕ → ℕ → Job → Job
ask_row now resolved wait_secs ttl_secs j = record (release now j) {
  lifecycle = if resolved then Lifecycle.queued else Lifecycle.waiting_for_user;
  waiting_since = if resolved then none else some now;
  expires_at = some (now + (if resolved then ttl_secs else wait_secs));
}

-- What the worker asks.
pub record Question : Type 0 where
  pub plan_version : Option ℕ
  pub purpose : String
  pub stage_label : String
  pub fields : Json

abbrev new_form : ℕ → ℕ → ℕ → ℕ → Bool → Question → Form
new_form now form_id clarification_id wait_secs resolved q = record {
  id = form_id;
  clarification_id = clarification_id;
  revision = 1;
  plan_version = q.plan_version;
  purpose = q.purpose;
  stage_label = q.stage_label;
  fields_json = q.fields;
  state = if resolved then FormState.answered else FormState.opened;
  resolved_by_user_id = none;
  resolved_at = if resolved then some now else none;
  resolution_reason = if resolved then some "resolver_unique" else none;
  expires_at = some (now + wait_secs);
}

-- clarification_forms_revision_uniq: the job has the same revision of the clarification.
abbrev is_revision_of : Form → Form → Bool
is_revision_of form f = f.clarification_id == form.clarification_id && f.revision == form.revision

-- The row of the form and those of its auto-bound answers. `none`: the form's PRIMARY KEY, its unique
-- revision, the index clarification_forms_one_open or a constraint of the answers is violated. The keys
-- are looked up among the job's own forms.
unfoldable pub insert_form : Form → List AcceptedAnswer → JobRows → Option (List Form × List Answer)
insert_form form auto_bound r =
    if any (λ f. f.id == form.id) r.forms
      || (any (is_revision_of form) r.forms
          || (is_open form.state && any (λ f. is_open f.state) r.forms))
    then none
    else (insert_answers form.id none auto_bound r.answers >>= λ answers.
        some (r.forms ++ form ∷ [], answers))

-- `none`: fenced off, or a constraint is violated; nothing is written.
unfoldable pub open_form :
    ℕ → ℕ → ℕ → ℕ → Question → List AcceptedAnswer → ℕ → ℕ → JobRows → Option (JobRows × Form)
unfolding append_event_ref insert_audit is_fully_resolved insert_form
open_form now form_id clarification_id lease_token q auto_bound wait_secs ttl_secs r =
    let resolved = is_fully_resolved q.fields auto_bound in
    let form = new_form now form_id clarification_id wait_secs resolved q in
    let names = arr (array (field_names auto_bound)) in
    if holds lease_token r.job
    then (insert_form form auto_bound r >>= λ stored. some (
      insert_audit
          (record (audit_of "worker" r.job.id "clarify" "clarification.opened"
            (if resolved then "ok" else "deferred")) {
              session_id = some r.job.session_id;
              detail_json = obj (
                  field "clarification_id" (num clarification_id)
                    (field "auto_bound_fields" names end));
            })
          (append_event_ref now
            (if resolved then "clarification.auto_resolved" else "clarification.required")
            (record no_references {
              clarification_id = some clarification_id;
              clarification_revision = some 1;
              plan_version = q.plan_version;
            })
            (some (
              obj (
                field "clarification_id" (num clarification_id) (
                  field "revision" (num 1)
                    (field "fields" q.fields (field "auto_bound_fields" names end))))))
            (record r {
              job = ask_row now resolved wait_secs ttl_secs r.job;
              forms = stored.0;
              answers = stored.1;
              messages =
                  r.messages
                  ++ record {
                    session_id = r.job.session_id;
                    role = "clarification";
                    response_version = none;
                    clarification_id = some clarification_id;
                    clarification_revision = some 1;
                  }
                    ∷ [];
            })),
      form,
    ))
    else none
