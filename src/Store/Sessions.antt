-- ===== src/Store/Sessions.antt =====
-- The rows of a chat session: chat_sessions and session_memory
-- (migrations/20260913000005_memory_clarification_messages.sql).
use fineract_ai_backend.Prelude.{ℕ, String, Option, List}
use fineract_ai_backend.Prelude.Json.{Json}

pub data SummaryStatus : Type 0 where
  current stale failed : SummaryStatus

pub data MemoryStatus : Type 0 where
  valid superseded invalidated evicted : MemoryStatus

-- session_memory.kind
pub data FactKind : Type 0 where
  resolved_entity active_scope prior_result : FactKind

abbrev pub kind_text : FactKind → String
kind_text resolved_entity = "ResolvedEntity"
kind_text active_scope = "ActiveScope"
kind_text prior_result = "PriorResult"

-- session_memory
pub record MemoryRow : Type 0 where
  pub id : ℕ
  pub owner_user_id : ℕ
  pub session_seq : ℕ
  pub kind : FactKind
  pub entity_key : Option String
  pub label : Option String
  pub fact_json : Json
  pub source_job_id : ℕ
  pub source_plan_version : Option ℕ
  pub source_response_version : ℕ
  pub provenance_json : Json
  pub completeness : String
  pub completeness_reason : String
  pub status : MemoryStatus
  pub superseded_by_id : Option ℕ
  pub invalidation_reason : Option String
  pub invalidated_at : Option ℕ

-- chat_sessions, with the memory rows of the session in the order of their insertion
pub record Session : Type 0 where
  pub id : ℕ
  pub owner_user_id : ℕ
  pub status : String
  pub memory_seq_last : ℕ
  pub memory_summary_status : SummaryStatus
  pub updated_at : ℕ
  pub memory : List MemoryRow
