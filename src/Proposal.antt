-- ===== src/Proposal.antt =====
-- The closed answer of the planner's model and its checks (crates/chat/src/engine/proposal.rs).
pub mod Model
pub mod Graph
pub mod Parse
pub mod Unique
pub mod Counts
pub mod Founded
pub mod Acyclic
pub mod Checked
pub mod Sound
