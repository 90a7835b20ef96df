-- ===== src/Engine/Claim.antt =====
-- claim_next, was_suspended, renew_lease, cancel_requested (crates/chat/src/engine/repository.rs).
-- `token` is the value of gen_random_uuid(), and `locked` tells the rows that other transactions
-- hold, which SKIP LOCKED passes over.
use Prim.Native.Nat.{◌/◌}
use text.Mathlib.Text.{◌==◌ as str_eq}
use fineract_ai_backend.Prelude.{
  ℕ, ◌+◌, String, Bool, true, false, ◌&&◌, ◌||◌, not, Option, none, some, List, [], ◌∷◌, ltb, ◌==◌,
  any, coalesce, is_some, is_none, lt_column, gt_column, if◌then◌else◌, update_where,
}
use fineract_ai_backend.Prelude.Json.{Json, str, obj, field, end, bool}
use fineract_ai_backend.Store.Vocabulary.{Lifecycle, FormState, is_queued, is_cancelling}
use fineract_ai_backend.Store.Rows.{Job, JobRows, audit_of}
use fineract_ai_backend.Store.Events.{append_event, insert_audit}
use fineract_ai_backend.Store.Lease.{holds}

pub record ClaimedJob : Type 0 where
  pub id : ℕ
  pub session_id : ℕ
  pub owner_user_id : ℕ
  pub request_text : String
  pub scope_json : Json
  pub lease_token : ℕ
  pub business_today : ℕ  -- the day number of started_at

-- the WHERE clause of the inner SELECT
abbrev pub is_claimable : ℕ → Job → Bool
is_claimable now j =
    is_queued j.lifecycle
    && (is_none j.lease_expires_at || lt_column j.lease_expires_at now)
    && (is_none j.expires_at || gt_column j.expires_at now)

-- the SET clause
abbrev pub claim_row : ℕ → String → ℕ → ℕ → ℕ → Job → Job
claim_row now worker token lease_secs ttl_secs j = record j {
  lifecycle = Lifecycle.running;
  lease_owner = some worker;
  lease_token = some token;
  lease_claimed_at = some now;
  heartbeat_at = some now;
  lease_expires_at = some (now + lease_secs);
  started_at = some (coalesce j.started_at now);
  expires_at = some (coalesce j.expires_at (now + ttl_secs));
  updated_at = now;
}

abbrev is_answered : FormState → Bool
is_answered FormState.answered = true
is_answered _ = false

abbrev reason_is : String → Option String → Bool
reason_is reason none = false
reason_is reason (some r) = str_eq r reason

unfoldable pub was_suspended : JobRows → Bool
was_suspended r = any (λ f. is_answered f.state && reason_is "answered" f.resolution_reason) r.forms

abbrev phase_payload : Json
phase_payload =
    obj (
      field "phase" (str "understanding") (field "message" (str "Understanding your request.") end))

-- T2 on the job that the SELECT chose.
unfoldable pub claim : ℕ → String → ℕ → ℕ → ℕ → JobRows → JobRows
unfolding append_event insert_audit
claim now worker token lease_secs ttl_secs r =
    let claimed = record r { job = claim_row now worker token lease_secs ttl_secs r.job } in
    let resumed = was_suspended r in
    let announced = if resumed then append_event now "job.resumed" none claimed else claimed in
    let started = append_event now "job.phase_changed" (some phase_payload) announced in
    insert_audit
      (record (audit_of "worker" r.job.id "accept" "job.claimed" "ok") {
        session_id = some r.job.session_id;
        detail_json = obj (field "worker" (str worker) (field "resumed" (bool resumed) end));
      })
      started

-- `ORDER BY created_at … LIMIT 1`
abbrev pub older : JobRows → Option JobRows → JobRows
older r none = r
older r (some s) = if ltb s.job.created_at r.job.created_at then s else r

unfoldable pub next_claimable : ℕ → (ℕ → Bool) → List JobRows → Option JobRows
next_claimable now locked [] = none
next_claimable now locked (r ∷ rs) =
    let rest = next_claimable now locked rs in
    if is_claimable now r.job && not (locked r.job.id) then some (older r rest) else rest

abbrev claimed_of : ℕ → ℕ → Job → ClaimedJob
claimed_of now token j = record {
  id = j.id;
  session_id = j.session_id;
  owner_user_id = j.owner_user_id;
  request_text = j.request_text;
  scope_json = j.scope_json;
  lease_token = token;
  business_today = coalesce j.started_at now / 86400;
}

unfoldable pub claim_next :
    ℕ → String → ℕ → ℕ → ℕ → (ℕ → Bool) → List JobRows → List JobRows × Option ClaimedJob
claim_next now worker token lease_secs ttl_secs locked jobs =
    elim (next_claimable now locked jobs) [
      | none ↦ (jobs, none)
      | some r ↦ (
        update_where (λ s. s.job.id == r.job.id) (claim now worker token lease_secs ttl_secs) jobs,
        some (claimed_of now token r.job),
      )
    ]

-- `none`: no row is affected, and the worker is fenced off.
unfoldable pub renew_lease : ℕ → ℕ → ℕ → JobRows → Option JobRows
renew_lease now lease_token lease_secs r =
    if holds lease_token r.job
    then some (record r {
      job = record (r.job) { heartbeat_at = some now; lease_expires_at = some (now + lease_secs) };
    })
    else none

unfoldable pub cancel_requested : JobRows → Bool
cancel_requested r = is_some r.job.cancel_requested_at || is_cancelling r.job.lifecycle
