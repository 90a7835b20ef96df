-- ===== src/Job/Accept.antt =====
-- create_job and insert_job_chain (T1, crates/chat/src/job/repository.rs), with
-- session::repository::{find_in_tx, touch}. `pii` is what settings::current_pii reads, and `job_id`
-- the default of chat_jobs.id.
mod Rows
unfoldable pub use Rows.*
use text.Mathlib.Text.{◌==◌ as str_eq}
use fineract_ai_backend.Prelude.{
  ℕ, String, Bool, ◌&&◌, not, none, some, List, [], ◌∷◌, ◌++◌, ◌==◌, any, length, find_where,
  update_where, if◌then◌else◌,
}
use fineract_ai_backend.Prelude.Json.{Json, array, bool, num, str, arr, obj, field, end}
use fineract_ai_backend.Store.Vocabulary.{Lifecycle, is_terminal, lifecycle_text}
use fineract_ai_backend.Store.Rows.{Job, JobRows, Message, audit_of}
use fineract_ai_backend.Store.Events.{append_event, insert_audit}
use fineract_ai_backend.Store.Sessions.{Session}
use fineract_ai_backend.Job.Idempotency.{
  IdempotencyKey, Idempotency, KeyClaim, claim_idempotency, complete_key,
}

-- The three tables that T1 writes.
pub record Db : Type 0 where
  pub keys : List IdempotencyKey
  pub sessions : List Session
  pub jobs : List JobRows

pub data CreateError : Type 0 where
  session_not_found : CreateError
  session_not_active : String → CreateError
  session_busy key_reused in_progress : CreateError

pub data Accepted : Type 0 where
  created : Job → Accepted
  replayed : ℕ → Json → Accepted

pub data Result {ℓ} (A : Type ℓ) : Type ℓ where
  ok : A → Result A
  err : CreateError → Result A

-- chat_jobs_one_active_per_session: the rows of the unique partial index.
abbrev pub is_active_in : ℕ → JobRows → Bool
is_active_in session_id r = r.job.session_id == session_id && not (is_terminal r.job.lifecycle)

abbrev touch : ℕ → ℕ → List Session → List Session
touch now session_id sessions =
    update_where (λ s. s.id == session_id) (λ s. record s { updated_at = now }) sessions

-- `Err` leaves the transaction to be rolled back.
unfoldable pub insert_job_chain : ℕ → ℕ → PiiSetting → NewJob → Db → Result (Db × JobRows)
unfolding accepted_rows
insert_job_chain now job_id pii req db =
    elim (find_where (λ s. s.id == req.session_id) db.sessions) [
      | none ↦ err session_not_found
      | some session ↦
          if not (session.owner_user_id == req.owner_user_id)
          then err session_not_found
          else if not (str_eq session.status "active")
          then err (session_not_active session.status)
          else if any (is_active_in req.session_id) db.jobs
          then err session_busy
          else ok (
            record db {
              sessions = touch now req.session_id db.sessions;
              jobs = db.jobs ++ accepted_rows now job_id pii req ∷ [];
            },
            accepted_rows now job_id pii req,
          )
    ]

abbrev pub acknowledgement : Job → Json
acknowledgement j = obj (
    field "job_id" (num j.id) (
      field "session_id" (num j.session_id)
        (field "lifecycle" (str (lifecycle_text j.lifecycle)) end)))

-- The key is completed in the transaction that inserts the job; an error rolls both back.
abbrev pub commit_chain :
    ℕ → ℕ → List IdempotencyKey → Db → Result (Db × JobRows) → Db × Result Accepted
commit_chain now id keys db (ok (db', r)) = (
  record db' { keys = complete_key now id (acknowledgement r.job) r.job.id keys },
  ok (created r.job),
)
commit_chain now id keys db (err e) = (db, err e)

-- `match claim_idempotency(…)`
abbrev pub answer_claim :
    ℕ → ℕ → PiiSetting → NewJob → Db → List IdempotencyKey × Idempotency → Db × Result Accepted
answer_claim now job_id pii req db (keys, Idempotency.claimed id) =
    commit_chain now id keys db (insert_job_chain now job_id pii req (record db { keys = keys }))
answer_claim now job_id pii req db (keys, Idempotency.replay status body) =
    (db, ok (replayed status body))
answer_claim now job_id pii req db (keys, Idempotency.mismatch) = (db, err key_reused)
answer_claim now job_id pii req db (keys, Idempotency.in_progress) = (db, err in_progress)

-- The transaction, from the claim of its key on.
unfoldable pub create_claimed :
    ℕ → ℕ → ℕ → ℕ → PiiSetting → KeyClaim → NewJob → Db → Db × Result Accepted
create_claimed now ttl_secs key_id job_id pii claim req db =
    answer_claim now job_id pii req db (claim_idempotency now ttl_secs key_id claim db.keys)

-- The key of a request, among those of its owner and of this operation.
abbrev pub job_key : ℕ → String → String → KeyClaim
job_key owner_user_id key fingerprint = record {
  owner_user_id = owner_user_id;
  operation = "job.create";
  key = key;
  fingerprint = fingerprint;
}

-- The database after the transaction, and what the caller is told.
abbrev pub create_job :
    ℕ → ℕ → ℕ → ℕ → PiiSetting → String → String → NewJob → Db → Db × Result Accepted
create_job now ttl_secs key_id job_id pii key fingerprint req db =
    create_claimed now ttl_secs key_id job_id pii (job_key req.owner_user_id key fingerprint) req db
