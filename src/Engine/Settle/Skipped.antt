-- ===== src/Engine/Settle/Skipped.antt =====
-- Closing the attempts that were never admitted (skip_unadmitted_attempts, crates/chat/src/engine/repository.rs).
use fineract_ai_backend.Prelude.{ℕ, String, Bool, some, List, [], ◌∷◌, where_rows, update_where}
use fineract_ai_backend.Prelude.Json.{Json, str, num, obj, field, end, null}
use fineract_ai_backend.Store.Vocabulary.{NodeStatus, is_unadmitted}
use fineract_ai_backend.Store.Rows.{NodeRun, no_references, JobRows, audit_of}
use fineract_ai_backend.Store.Events.{append_event_ref, insert_audit}

-- The event and the audit row of one closed attempt.
abbrev pub announce_attempt : ℕ → String → String → String → Json → NodeRun → JobRows → JobRows
announce_attempt now actor status action detail n r =
    insert_audit
      (record (audit_of actor r.job.id "node_execute" action "ok") {
        session_id = some r.job.session_id;
        detail_json = detail;
      })
      (append_event_ref now "node.status_changed"
        (record no_references {
          plan_version = some n.plan_version;
          node_id = some n.node_id;
          node_attempt = some n.attempt;
        })
        (some (obj (field "status" (str status) end))) r)

pub data FailureActor : Type 0 where
  worker : FailureActor
  reaper : String → FailureActor

abbrev pub actor_kind : FailureActor → String
actor_kind worker = "worker"
actor_kind (reaper _) = "reaper"

abbrev reaper_json : FailureActor → Json
reaper_json worker = null
reaper_json (reaper name) = str name

abbrev attempt_json : Json → NodeRun → Json
attempt_json name n = obj (
    field "reaper" name (
      field "plan_version" (num n.plan_version)
        (field "node_id" (str n.node_id) (field "attempt" (num n.attempt) end))))

unfoldable pub skip_attempt : ℕ → NodeRun → NodeRun
skip_attempt now n = record n { status = NodeStatus.skipped; finished_at = some now }

abbrev pub needs_skip : NodeRun → Bool
needs_skip n = is_unadmitted n.status

unfoldable pub announce_skipped : ℕ → FailureActor → List NodeRun → JobRows → JobRows
unfolding append_event_ref insert_audit
announce_skipped now actor [] r = r
announce_skipped now actor (n ∷ ns) r = announce_skipped now actor ns (
    announce_attempt now (actor_kind actor) "Skipped" "node.skipped"
      (attempt_json (reaper_json actor) n) n r)

-- Every attempt that was never admitted is closed as Skipped.
unfoldable pub skip_unadmitted_attempts : ℕ → FailureActor → JobRows → JobRows
unfolding announce_skipped skip_attempt
skip_unadmitted_attempts now actor r =
    announce_skipped now actor (where_rows needs_skip r.node_runs)
      (record r { node_runs = update_where needs_skip (skip_attempt now) r.node_runs })
