-- ===== src/Risk.antt =====
-- services/agents/risk_manager/agent.py, with the limits of libs/config.py.
mod Defs
pub mod Sizing
pub mod Stops
pub mod Gate
unfoldable pub use Defs.*
mod Tests
