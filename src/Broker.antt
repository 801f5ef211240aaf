-- ===== src/Broker.antt =====
-- services/agents/execution/paper_broker.py.
mod Defs
pub mod Walk
pub mod Price
pub mod Execution
unfoldable pub use Defs.*
mod Tests
