-- ===== src/Engine/Memory.antt =====
-- promote (crates/chat/src/engine/repository.rs): the facts of a committed response become rows of
-- session_memory. `fresh` gives the identifiers that Uuid::new_v4 generates, by position.
use text.Mathlib.Text.{◌==◌ as str_eq}
use fineract_ai_backend.Prelude.{
  ℕ, ◌+◌, String, Bool, true, false, ◌&&◌, Option, none, some, List, [], ◌∷◌, ◌++◌, ◌==◌, any, map,
  where_rows, update_where,
}
use fineract_ai_backend.Prelude.Json.{Json}
use fineract_ai_backend.Store.Sessions.{SummaryStatus, MemoryStatus, FactKind, MemoryRow, Session}

-- MemoryFact (crates/chat/src/engine/memory.rs)
pub record MemoryFact : Type 0 where
  pub kind : FactKind
  pub entity_key : Option String
  pub label : Option String
  pub fact_json : Json
  pub completeness : String
  pub completeness_reason : String
  pub provenance_json : Json

abbrev pub same_kind : FactKind → FactKind → Bool
same_kind FactKind.resolved_entity FactKind.resolved_entity = true
same_kind FactKind.active_scope FactKind.active_scope = true
same_kind FactKind.prior_result FactKind.prior_result = true
same_kind _ _ = false

abbrev pub is_valid : MemoryStatus → Bool
is_valid MemoryStatus.valid = true
is_valid _ = false

-- `entity_key IS NOT DISTINCT FROM $3`
abbrev pub same_key : Option String → Option String → Bool
same_key none none = true
same_key (some a) (some b) = str_eq a b
same_key _ _ = false

abbrev not_prior_result : FactKind → Bool
not_prior_result FactKind.prior_result = false
not_prior_result _ = true

-- the WHERE clause that picks the rows that the fact replaces
unfoldable pub is_replaced : MemoryFact → MemoryRow → Bool
is_replaced fact m =
    same_kind m.kind fact.kind
    && same_key m.entity_key fact.entity_key
    && is_valid m.status
    && not_prior_result m.kind

unfoldable pub supersede : ℕ → MemoryRow → MemoryRow
supersede now m = record m {
  status = MemoryStatus.superseded;
  invalidation_reason = some "superseded_by_newer";
  invalidated_at = some now;
}

-- `WHERE id = ANY($2)`
unfoldable pub is_listed : List ℕ → MemoryRow → Bool
is_listed ids m = any (λ i. i == m.id) ids

unfoldable pub link : ℕ → MemoryRow → MemoryRow
link id m = record m { superseded_by_id = some id }

-- Who commits the facts: the job, its active plan and the version of the served response.
pub record Source : Type 0 where
  pub owner_user_id : ℕ
  pub job_id : ℕ
  pub plan_version : Option ℕ
  pub response_version : ℕ

unfoldable pub row_of : ℕ → ℕ → Source → MemoryFact → MemoryRow
row_of id session_seq source fact = record {
  id = id;
  owner_user_id = source.owner_user_id;
  session_seq = session_seq;
  kind = fact.kind;
  entity_key = fact.entity_key;
  label = fact.label;
  fact_json = fact.fact_json;
  source_job_id = source.job_id;
  source_plan_version = source.plan_version;
  source_response_version = source.response_version;
  provenance_json = fact.provenance_json;
  completeness = fact.completeness;
  completeness_reason = fact.completeness_reason;
  status = MemoryStatus.valid;
  superseded_by_id = none;
  invalidation_reason = none;
  invalidated_at = none;
}

-- One round of the loop: allocate the sequence, supersede, insert, link.
unfoldable pub promote_one : ℕ → ℕ → Source → MemoryFact → Session → Session
unfolding is_replaced supersede is_listed link row_of
promote_one now id source fact s =
    let session_seq = s.memory_seq_last + 1 in
    let replaced = map (λ m. m.id) (where_rows (is_replaced fact) s.memory) in
    record s {
      memory_seq_last = session_seq;
      memory_summary_status = SummaryStatus.stale;
      memory = update_where (is_listed replaced) (link id) (
          update_where (is_replaced fact) (supersede now) s.memory
          ++ row_of id session_seq source fact ∷ []);
    }

unfoldable pub promote : ℕ → (ℕ → ℕ) → Source → List MemoryFact → Session → Session
unfolding promote_one
promote now fresh source [] s = s
promote now fresh source (fact ∷ facts) s =
    promote now (λ k. fresh (k + 1)) source facts (promote_one now (fresh 0) source fact s)
