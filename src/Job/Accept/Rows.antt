-- ===== src/Job/Accept/Rows.antt =====
-- The rows that an accepted job begins with (insert_job_chain, crates/chat/src/job/repository.rs).
use Prim.Native.String.{◌++◌}
use fineract_ai_backend.Prelude.{ℕ, ◌+◌, String, Bool, none, some, List, [], ◌∷◌, length}
use fineract_ai_backend.Prelude.Json.{Json, array, bool, num, real, str, arr, obj, field, end}
use fineract_ai_backend.Prelude.Int.{ℤ, pos, negsuc}
use fineract_ai_backend.Prelude.Sorted.{decimal}
use fineract_ai_backend.Store.Vocabulary.{Lifecycle}
use fineract_ai_backend.Store.Rows.{Job, JobRows, Message, audit_of}
use fineract_ai_backend.Store.Events.{append_event, insert_audit}

pub record PiiSetting : Type 0 where
  pub enabled : Bool
  pub mode : String
  pub setting_version : ℕ

pub record NewJob : Type 0 where
  pub owner_user_id : ℕ
  pub session_id : ℕ
  pub request_text : String
  -- request_text.chars().count()
  pub request_chars : ℕ
  pub office_ids : List ℤ
  pub fineract_tenant : String

-- `json!` of an integer.
abbrev integer_json : ℤ → Json
integer_json (pos n) = num n
integer_json (negsuc n) = real ("-" ++ decimal (n + 1))

abbrev integers_json : List ℤ → List Json
integers_json [] = []
integers_json (n ∷ ns) = integer_json n ∷ integers_json ns

abbrev scope_of : PiiSetting → NewJob → Json
scope_of pii req = obj (
    field "pii"
      (obj (
        field "enabled" (bool pii.enabled)
          (field "mode" (str pii.mode) (field "setting_version" (num pii.setting_version) end))))
      (field "source" (str "admin_projection") (
        field "office_ids" (arr (array (integers_json req.office_ids)))
          (field "fineract_tenant" (str req.fineract_tenant) end))))

-- The inserted row: every column that the statement does not name has its default.
abbrev pub new_job : ℕ → ℕ → Json → NewJob → Job
new_job now job_id scope req = record {
  id = job_id;
  session_id = req.session_id;
  owner_user_id = req.owner_user_id;
  request_text = req.request_text;
  scope_json = scope;
  lifecycle = Lifecycle.queued;
  outcome = none;
  completeness = none;
  completeness_reason = none;
  failure_code = none;
  plan_version = none;
  final_response_version = none;
  last_event_sequence = 0;
  query_count = 0;
  model_call_count = 0;
  token_cost = 0;
  planner_call_counts = [];
  lease_owner = none;
  lease_token = none;
  lease_claimed_at = none;
  heartbeat_at = none;
  lease_expires_at = none;
  cancel_requested_at = none;
  created_at = now;
  started_at = none;
  waiting_since = none;
  terminal_at = none;
  expires_at = none;
  updated_at = now;
}

abbrev user_message : ℕ → Message
user_message session_id = record {
  session_id = session_id;
  role = "user";
  response_version = none;
  clarification_id = none;
  clarification_revision = none;
}

-- The rows of a job that was just accepted.
unfoldable pub accepted_rows : ℕ → ℕ → PiiSetting → NewJob → JobRows
unfolding append_event insert_audit
accepted_rows now job_id pii req =
    insert_audit
      (record (audit_of "user" job_id "accept" "job.create" "ok") {
        actor_user_id = some req.owner_user_id;
        session_id = some req.session_id;
        scope_json = obj (
            field "pii_enabled" (bool pii.enabled) (
              field "pii_setting_version" (num pii.setting_version) (
                field "office_id_count" (num (length req.office_ids))
                  (field "fineract_tenant" (str req.fineract_tenant) end))));
        detail_json = obj (field "request_chars" (num req.request_chars) end);
      })
      (append_event now "job.accepted" (some (obj (field "lifecycle" (str "Queued") end))) (record {
        job = new_job now job_id (scope_of pii req) req;
        plans = [];
        node_runs = [];
        events = [];
        responses = [];
        messages = user_message req.session_id ∷ [];
        forms = [];
        answers = [];
        audits = [];
      }))
