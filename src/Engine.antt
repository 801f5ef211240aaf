-- ===== src/Engine.antt =====
-- services/decision_engine: engine.py and trust.py.
pub mod Trust
mod Defs
unfoldable pub use Defs.*
pub mod Windows
pub mod Scores
pub mod Cooldown
mod Tests
