-- ===== src/Job/Idempotency.antt =====
-- claim_idempotency (crates/chat/src/job/repository.rs): the table idempotency_keys, whose unique
-- key is (owner_user_id, operation, idempotency_key). `id` is the row's generated UUID.
use text.Mathlib.Text.{◌==◌ as str_eq}
use fineract_ai_backend.Prelude.{
  ℕ, ◌+◌, String, Bool, ◌&&◌, not, Option, none, some, List, [], ◌∷◌, ◌++◌, ◌==◌, find_where,
  update_where, if◌then◌else◌,
}
use fineract_ai_backend.Prelude.Json.{Json}

pub data KeyStatus : Type 0 where
  in_progress completed : KeyStatus

pub record IdempotencyKey : Type 0 where
  pub id : ℕ
  pub owner_user_id : ℕ
  pub operation : String
  pub idempotency_key : String
  pub request_fingerprint : String
  pub status : KeyStatus
  pub response_status : Option ℕ
  pub response_body_json : Option Json
  pub target_job_id : Option ℕ
  pub expires_at : ℕ
  pub completed_at : Option ℕ

pub data Idempotency : Type 0 where
  claimed : ℕ → Idempotency
  replay : ℕ → Json → Idempotency
  -- the same key with another payload
  mismatch : Idempotency
  -- the first request is not finished
  in_progress : Idempotency

-- The caller's view of a key: who, which operation, which key, which payload.
pub record KeyClaim : Type 0 where
  pub owner_user_id : ℕ
  pub operation : String
  pub key : String
  pub fingerprint : String

unfoldable pub is_key_of : KeyClaim → IdempotencyKey → Bool
is_key_of c k =
    k.owner_user_id == c.owner_user_id
    && str_eq k.operation c.operation
    && str_eq k.idempotency_key c.key

abbrev pub new_key : ℕ → ℕ → ℕ → KeyClaim → IdempotencyKey
new_key now ttl_secs id c = record {
  id = id;
  owner_user_id = c.owner_user_id;
  operation = c.operation;
  idempotency_key = c.key;
  request_fingerprint = c.fingerprint;
  status = KeyStatus.in_progress;
  response_status = none;
  response_body_json = none;
  target_job_id = none;
  expires_at = now + ttl_secs;
  completed_at = none;
}

-- `match (status, response_status, response_body)`
unfoldable pub verdict_of : KeyStatus → Option ℕ → Option Json → Idempotency
verdict_of KeyStatus.completed (some status) (some body) = replay status body
verdict_of _ _ _ = in_progress

-- What a stored row answers to a claim.
unfoldable pub answer_of : KeyClaim → IdempotencyKey → Idempotency
unfolding verdict_of
answer_of c k =
    if not (str_eq k.request_fingerprint c.fingerprint)
    then mismatch
    else verdict_of k.status k.response_status k.response_body_json

-- The insert does nothing where the key exists; the row is then read under its lock.
unfoldable pub claim_idempotency :
    ℕ → ℕ → ℕ → KeyClaim → List IdempotencyKey → List IdempotencyKey × Idempotency
unfolding is_key_of answer_of
claim_idempotency now ttl_secs id c keys = elim (find_where (is_key_of c) keys) [
  | none ↦ (keys ++ new_key now ttl_secs id c ∷ [], claimed id)
  | some k ↦ (keys, answer_of c k)
]

abbrev pub completed_row : ℕ → Json → ℕ → IdempotencyKey → IdempotencyKey
completed_row now body job_id k = record k {
  status = KeyStatus.completed;
  response_status = some 202;
  response_body_json = some body;
  target_job_id = some job_id;
  completed_at = some now;
}

-- `UPDATE idempotency_keys SET status = 'completed', … WHERE id = $1`
unfoldable pub complete_key : ℕ → ℕ → Json → ℕ → List IdempotencyKey → List IdempotencyKey
complete_key now id body job_id keys =
    update_where (λ k. k.id == id) (completed_row now body job_id) keys
