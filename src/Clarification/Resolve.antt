-- ===== src/Clarification/Resolve.antt =====
-- The closing of an open form (crates/chat/src/clarification/repository.rs).
use fineract_ai_backend.Prelude.{ℕ, String, Bool, ◌&&◌, some, ◌==◌}
use fineract_ai_backend.Store.Vocabulary.{FormState, is_open}
use fineract_ai_backend.Store.Rows.{Form}

-- `WHERE id = $1 AND state = 'open'`
abbrev pub is_open_form : ℕ → Form → Bool
is_open_form form_id f = f.id == form_id && is_open f.state

unfoldable pub resolve : ℕ → ℕ → FormState → String → Form → Form
resolve now actor state reason f = record f {
  state = state;
  resolved_by_user_id = some actor;
  resolved_at = some now;
  resolution_reason = some reason;
}
