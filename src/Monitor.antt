-- ===== src/Monitor.antt =====
-- services/execution/position_monitor.py.
mod Guard
mod Defs
pub mod Rows
pub mod Mirror
pub mod Snapshot
pub mod Reconcile
pub mod Restart
pub mod Ratchet
pub mod Breach
pub mod Exits
unfoldable pub use Guard.*
unfoldable pub use Defs.*
mod Tests
