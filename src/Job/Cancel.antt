-- ===== src/Job/Cancel.antt =====
-- request_cancel (T9, crates/chat/src/job/repository.rs).
use fineract_ai_backend.Prelude.{ℕ, Bool, true, false, Option, none, some, if◌then◌else◌}
use fineract_ai_backend.Store.Vocabulary.{Lifecycle}
use fineract_ai_backend.Store.Rows.{JobRows, audit_of}
use fineract_ai_backend.Store.Events.{append_event, insert_audit}

-- `lifecycle IN ('Queued','Running','WaitingForUser')`
abbrev pub is_cancellable : Lifecycle → Bool
is_cancellable Lifecycle.queued = true
is_cancellable Lifecycle.running = true
is_cancellable Lifecycle.waiting_for_user = true
is_cancellable _ = false

-- `none`: no row is affected (`Ok(false)`).
unfoldable pub request_cancel : ℕ → ℕ → JobRows → Option JobRows
unfolding append_event insert_audit
request_cancel now actor r =
    if is_cancellable r.job.lifecycle
    then some (
        insert_audit
          (record (audit_of "user" r.job.id "settle" "job.cancel_requested" "ok") {
            actor_user_id = some actor;
          })
          (append_event now "job.cancelling" none (record r {
            job = record (r.job) {
              lifecycle = Lifecycle.cancelling;
              cancel_requested_at = some now;
              updated_at = now;
            };
          })))
    else none
