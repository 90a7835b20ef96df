-- ===== src/Clarification.antt =====
-- The transactions of a clarification (crates/chat/src/clarification/repository.rs): open_form (T5),
-- accept_answers (T6) and skip (T8). `form_id` and `clarification_id` are the generated UUIDs.
mod Answers
mod Open
mod Resolve
mod Accept
mod Skip
unfoldable pub use Answers.*
unfoldable pub use Open.*
unfoldable pub use Resolve.*
unfoldable pub use Accept.*
unfoldable pub use Skip.*
