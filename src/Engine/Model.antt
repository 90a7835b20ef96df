-- ===== src/Engine/Model.antt =====
-- admit_model, finish_model, model_budget (crates/chat/src/engine/repository.rs). A model call is
-- admitted by reserving its tokens, and settled by charging what was observed.
-- `token_cost <= $5 - $3` is written with the subtraction moved to the other side, and
-- `token_cost - $3 + $4` with the addition first, which are the same on the integers of the columns.
use text.Mathlib.Text.{◌==◌ as str_eq}
use fineract_ai_backend.Prelude.{
  ℕ, ◌+◌, ◌-◌, String, Bool, ◌&&◌, Option, none, some, List, [], ◌∷◌, ltb, leb, coalesce, is_none,
  gt_column, if◌then◌else◌,
}
use fineract_ai_backend.Prelude.Json.{Json}
use fineract_ai_backend.Store.Rows.{Job, JobRows, audit_of}
use fineract_ai_backend.Store.Events.{insert_audit}
use fineract_ai_backend.Store.Lease.{holds}

pub data ModelAdmission : Type 0 where
  -- call_id, the job's expires_at, the attempt under this planning key
  admitted : ℕ → Option ℕ → ℕ → ModelAdmission
  budget_exhausted : ModelAdmission
  fenced : ModelAdmission

-- `COALESCE((planner_call_counts->>key)::integer, 0)`
unfoldable pub calls_of : String → List (String × ℕ) → ℕ
calls_of key [] = 0
calls_of key ((k, n) ∷ counts) = if str_eq k key then n else calls_of key counts

-- `jsonb_set(planner_call_counts, ARRAY[key], …)`
unfoldable pub set_calls : String → ℕ → List (String × ℕ) → List (String × ℕ)
set_calls key n [] = (key, n) ∷ []
set_calls key n ((k, m) ∷ counts) =
    if str_eq k key then (k, n) ∷ counts else (k, m) ∷ set_calls key n counts

-- the worker holds the job, the job has time left, and nobody asked to cancel it
abbrev pub is_active : ℕ → ℕ → Job → Bool
is_active now lease_token j =
    holds lease_token j && gt_column j.expires_at now && is_none j.cancel_requested_at

-- What the request says of the catalog, as the audit row repeats it.
pub record CallDetail : Type 0 where
  pub catalog_version_id : Option ℕ
  pub catalog_content_hash : Option String
  -- the detail with `attempt` set to the given number
  pub with_attempt : ℕ → Json
  pub detail : Json

-- the WHERE clause of the admission
abbrev pub is_admissible_call : ℕ → ℕ → ℕ → ℕ → ℕ → String → ℕ → Job → Bool
is_admissible_call now lease_token max_calls max_tokens reserved_tokens key max_attempts j =
    is_active now lease_token j
    && ltb j.model_call_count max_calls
    && leb (j.token_cost + reserved_tokens) max_tokens
    && ltb (calls_of key j.planner_call_counts) max_attempts

unfoldable pub admit_model :
    ℕ → ℕ → ℕ → ℕ → ℕ → ℕ → String → ℕ → CallDetail → JobRows → JobRows × ModelAdmission
unfolding insert_audit
admit_model now call_id lease_token max_calls max_tokens reserved_tokens key max_attempts detail r =
    let j = r.job in
    let attempt = calls_of key j.planner_call_counts + 1 in
    if is_admissible_call now lease_token max_calls max_tokens reserved_tokens key max_attempts j
    then (
      insert_audit
          (record (audit_of "worker" j.id "model_call" "planner.call_admitted" "deferred") {
            actor_user_id = some j.owner_user_id;
            session_id = some j.session_id;
            model_call_id = some call_id;
            catalog_version_id = detail.catalog_version_id;
            catalog_content_hash = detail.catalog_content_hash;
            detail_json = detail.with_attempt attempt;
          })
          (record r {
            job = record j {
              model_call_count = j.model_call_count + 1;
              token_cost = j.token_cost + reserved_tokens;
              planner_call_counts = set_calls key attempt j.planner_call_counts;
              updated_at = now;
            };
          }),
      admitted call_id j.expires_at attempt,
    )
    else (r, if is_active now lease_token j then budget_exhausted else fenced)

-- `none`: no row is affected (`Ok(false)`).
unfoldable pub finish_model :
    ℕ → ℕ → ℕ → ℕ → Option ℕ → String → Option String → ℕ → CallDetail → JobRows → Option JobRows
unfolding insert_audit
finish_model now call_id lease_token reserved_tokens observed_tokens result failure duration detail
      r =
    let j = r.job in
    let charged = coalesce observed_tokens reserved_tokens in
    if is_active now lease_token j
    then some (
        insert_audit
          (record (audit_of "worker" j.id "model_call" "planner.call_finished" result) {
            actor_user_id = some j.owner_user_id;
            session_id = some j.session_id;
            failure_code = failure;
            model_call_id = some call_id;
            duration_ms = some duration;
            catalog_version_id = detail.catalog_version_id;
            catalog_content_hash = detail.catalog_content_hash;
            detail_json = detail.detail;
          })
          (record r {
            job = record j {
              token_cost = j.token_cost + charged - reserved_tokens;
              updated_at = now;
            };
          }))
    else none

unfoldable pub model_budget : ℕ → ℕ → JobRows → Option (ℕ × ℕ)
model_budget now lease_token r =
    if is_active now lease_token r.job
    then some (r.job.model_call_count, r.job.token_cost)
    else none
