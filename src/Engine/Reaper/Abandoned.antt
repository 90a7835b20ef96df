-- ===== src/Engine/Reaper/Abandoned.antt =====
-- The attempts that ran when the lease was lost (abandon_running_attempts, crates/chat/src/engine/repository.rs).
use fineract_ai_backend.Prelude.{ℕ, String, Bool, some, List, [], ◌∷◌, where_rows, update_where}
use fineract_ai_backend.Prelude.Json.{Json, str, num, obj, field, end}
use fineract_ai_backend.Store.Vocabulary.{Completeness, NodeStatus, is_node_running}
use fineract_ai_backend.Store.Rows.{NodeRun, JobRows}
use fineract_ai_backend.Store.Events.{append_event_ref, insert_audit}
use fineract_ai_backend.Engine.Settle.{announce_attempt}

abbrev pub is_running_run : NodeRun → Bool
is_running_run n = is_node_running n.status

unfoldable pub abandon_attempt : ℕ → NodeRun → NodeRun
abandon_attempt now n = record n {
  status = NodeStatus.abandoned;
  completeness = some Completeness.unknown;
  finished_at = some now;
}

abbrev abandoned_json : String → NodeRun → Json
abandoned_json name n = obj (
    field "reaper" (str name) (
      field "plan_version" (num n.plan_version)
        (field "node_id" (str n.node_id) (field "attempt" (num n.attempt) end))))

unfoldable pub announce_abandoned : ℕ → String → List NodeRun → JobRows → JobRows
unfolding append_event_ref insert_audit
announce_abandoned now name [] r = r
announce_abandoned now name (n ∷ ns) r =
    announce_abandoned now name ns
      (announce_attempt now "reaper" "Abandoned" "node.abandoned" (abandoned_json name n) n r)

-- The attempts that ran when the lease was lost: RETURNING gives them back.
abbrev pub running_attempts : JobRows → List NodeRun
running_attempts r = where_rows is_running_run r.node_runs

unfoldable pub abandon_running_attempts : ℕ → String → JobRows → JobRows
unfolding announce_abandoned abandon_attempt
abandon_running_attempts now name r =
    announce_abandoned now name (running_attempts r)
      (record r { node_runs = update_where is_running_run (abandon_attempt now) r.node_runs })
