-- ===== src/Store/Lease.antt =====
-- The fence that every worker statement repeats:
-- `WHERE id = $1 AND lease_token = $2 AND lifecycle = 'Running'`
-- (crates/chat/src/engine/repository.rs).
use fineract_ai_backend.Prelude.{ℕ, Bool, Option, none, ◌&&◌, eq_column}
use fineract_ai_backend.Store.Vocabulary.{is_running}
use fineract_ai_backend.Store.Rows.{Job}

abbrev pub holds : ℕ → Job → Bool
holds lease_token j = eq_column j.lease_token lease_token && is_running j.lifecycle

-- What each settlement sets beside its own columns: the job has no lease, no expiry, and ended.
abbrev pub close : ℕ → Job → Job
close now j = record j {
  terminal_at = Option.some now;
  expires_at = none;
  lease_owner = none;
  lease_token = none;
  lease_expires_at = none;
  updated_at = now;
}
