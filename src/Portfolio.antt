-- ===== src/Portfolio.antt =====
-- services/agents/portfolio_manager/tracker.py.
mod State
mod Fills
mod Persist
pub mod Accounting
mod Sums
mod Settle
pub mod Equity
unfoldable pub use State.*
unfoldable pub use Fills.*
unfoldable pub use Persist.*
mod Tests
