-- ===== src/Learning.antt =====
-- services/agents/learning/outcome_recorder.py.
mod Defs
unfoldable pub use Defs.*
pub mod Attribution
mod Tests
