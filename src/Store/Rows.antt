-- ===== src/Store/Rows.antt =====
-- The rows that one job owns, a record for each table (migrations/20260913000004_chat_and_jobs.sql,
-- 20260913000005_memory_clarification_messages.sql; crates/chat/src/audit.rs). A UUID is a number,
-- a timestamp is a number of seconds, and a table's rows stand in the order of their insertion.
use fineract_ai_backend.Prelude.{ℕ, String, Option, none, List}
use fineract_ai_backend.Prelude.Json.{Json, obj, end}
use fineract_ai_backend.Store.Vocabulary.{Lifecycle, Outcome, Completeness, NodeStatus, FormState}

-- chat_jobs
pub record Job : Type 0 where
  pub id : ℕ
  pub session_id : ℕ
  pub owner_user_id : ℕ
  pub request_text : String
  pub scope_json : Json
  pub lifecycle : Lifecycle
  pub outcome : Option Outcome
  pub completeness : Option Completeness
  pub completeness_reason : Option String
  pub failure_code : Option String
  pub plan_version : Option ℕ
  pub final_response_version : Option ℕ
  pub last_event_sequence : ℕ
  pub query_count : ℕ
  pub model_call_count : ℕ
  pub token_cost : ℕ
  pub planner_call_counts : List (String × ℕ)
  pub lease_owner : Option String
  pub lease_token : Option ℕ
  pub lease_claimed_at : Option ℕ
  pub heartbeat_at : Option ℕ
  pub lease_expires_at : Option ℕ
  pub cancel_requested_at : Option ℕ
  pub created_at : ℕ
  pub started_at : Option ℕ
  pub waiting_since : Option ℕ
  pub terminal_at : Option ℕ
  pub expires_at : Option ℕ
  pub updated_at : ℕ

-- job_plans
pub record Plan : Type 0 where
  pub plan_version : ℕ
  pub graph_json : Json
  pub graph_hash : String
  pub contract_versions_json : Json
  pub verified_at : Option ℕ

-- job_node_runs
pub record NodeRun : Type 0 where
  pub id : ℕ
  pub plan_version : ℕ
  pub node_id : String
  pub node_kind : String
  pub attempt : ℕ
  pub status : NodeStatus
  pub completeness : Option Completeness
  pub completeness_reason : Option String
  pub failure_code : Option String
  pub input_binding_json : Option Json
  pub input_binding_hash : Option String
  pub output_json : Option Json
  pub provenance_json : Json
  pub rows_returned : Option ℕ
  pub duration_ms : Option ℕ
  pub started_at : Option ℕ
  pub finished_at : Option ℕ

-- EventRef: the typed references of an event, which are columns and not payload.
pub record EventRef : Type 0 where
  pub plan_version : Option ℕ
  pub node_id : Option String
  pub node_attempt : Option ℕ
  pub clarification_id : Option ℕ
  pub clarification_revision : Option ℕ
  pub response_version : Option ℕ

-- EventRef::default()
abbrev pub no_references : EventRef
no_references = record {
  plan_version = none;
  node_id = none;
  node_attempt = none;
  clarification_id = none;
  clarification_revision = none;
  response_version = none;
}

-- job_events
pub record JobEvent : Type 0 where
  pub sequence : ℕ
  pub event_type : String
  pub occurred_at : ℕ
  pub references : EventRef
  pub payload_json : Option Json

-- job_responses
pub record Response : Type 0 where
  pub response_version : ℕ
  pub kind : String
  pub outcome : Option Outcome
  pub completeness : Completeness
  pub completeness_reason : Option String
  pub blocks_json : Json
  pub evidence_json : Json
  pub validation_status : String
  pub validation_report_json : Option Json
  pub superseded_by_version : Option ℕ
  pub response_hash : String
  pub composed_at : Option ℕ

-- chat_messages
pub record Message : Type 0 where
  pub session_id : ℕ
  pub role : String
  pub response_version : Option ℕ
  pub clarification_id : Option ℕ
  pub clarification_revision : Option ℕ

-- clarification_answers
pub record Answer : Type 0 where
  pub form_id : ℕ
  pub field_id : String
  pub answer_kind : String
  pub raw_text : Option String
  pub binding_json : Json
  pub provenance : String
  pub resolver_ref : Option String
  pub option_set_ref : Option String
  pub answered_by_user_id : Option ℕ

-- clarification_forms
pub record Form : Type 0 where
  pub id : ℕ
  pub clarification_id : ℕ
  pub revision : ℕ
  pub plan_version : Option ℕ
  pub purpose : String
  pub stage_label : String
  pub fields_json : Json
  pub state : FormState
  pub resolved_by_user_id : Option ℕ
  pub resolved_at : Option ℕ
  pub resolution_reason : Option String
  pub expires_at : Option ℕ

-- audit_events
pub record AuditEvent : Type 0 where
  pub actor_kind : String
  pub actor_user_id : Option ℕ
  pub session_id : Option ℕ
  pub job_id : Option ℕ
  pub stage : String
  pub action : String
  pub result : String
  pub failure_code : Option String
  pub job_outcome : Option Outcome
  pub job_completeness : Option Completeness
  pub model_call_id : Option ℕ
  pub duration_ms : Option ℕ
  pub catalog_version_id : Option ℕ
  pub catalog_content_hash : Option String
  pub scope_json : Json
  pub detail_json : Json

-- AuditEvent { stage, action, result, ..Default::default() } for a job: an absent scope or detail
-- is written as the empty object.
abbrev pub audit_of : String → ℕ → String → String → String → AuditEvent
audit_of actor_kind job_id stage action result = record {
  actor_kind = actor_kind;
  actor_user_id = none;
  session_id = none;
  job_id = Option.some job_id;
  stage = stage;
  action = action;
  result = result;
  failure_code = none;
  job_outcome = none;
  job_completeness = none;
  model_call_id = none;
  duration_ms = none;
  catalog_version_id = none;
  catalog_content_hash = none;
  scope_json = obj end;
  detail_json = obj end;
}

-- A row of chat_jobs with the rows of every table whose job_id is its id.
pub record JobRows : Type 0 where
  pub job : Job
  pub plans : List Plan
  pub node_runs : List NodeRun
  pub events : List JobEvent
  pub responses : List Response
  pub messages : List Message
  pub forms : List Form
  pub answers : List Answer
  pub audits : List AuditEvent
