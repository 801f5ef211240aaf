-- ===== src/Backtest.antt =====
-- services/backtest: replay.py and calibration.py.
pub mod Trade
pub mod Report
pub mod Replay
pub mod Causality
pub mod Live
pub mod Calibration
pub mod Buckets
mod Tests
