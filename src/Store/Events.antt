-- ===== src/Store/Events.antt =====
-- append_event, append_event_ref (crates/chat/src/job/repository.rs) and audit::insert
-- (crates/chat/src/audit.rs). `now` is the transaction's now(). pg_notify carries only the job's id
-- and is delivered outside the tables.
use fineract_ai_backend.Prelude.{ℕ, ◌+◌, String, Option, [], ◌∷◌, ◌++◌}
use fineract_ai_backend.Prelude.Json.{Json}
use fineract_ai_backend.Store.Rows.{JobRows, EventRef, AuditEvent, no_references}

unfoldable pub append_event_ref : ℕ → String → EventRef → Option Json → JobRows → JobRows
append_event_ref now event_type references payload r =
    let sequence = r.job.last_event_sequence + 1 in
    record r {
      job = record (r.job) { last_event_sequence = sequence; updated_at = now };
      events =
          r.events
          ++ record {
            sequence = sequence;
            event_type = event_type;
            occurred_at = now;
            references = references;
            payload_json = payload;
          }
            ∷ [];
    }

unfoldable pub append_event : ℕ → String → Option Json → JobRows → JobRows
unfolding append_event_ref
append_event now event_type payload r = append_event_ref now event_type no_references payload r

unfoldable pub insert_audit : AuditEvent → JobRows → JobRows
insert_audit event r = record r { audits = r.audits ++ event ∷ [] }
