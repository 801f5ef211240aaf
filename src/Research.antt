-- ===== src/Research.antt =====
-- services/research: statistics.py, signals.py and study.py.
pub mod Statistics
pub mod Corrections
pub mod Signals
pub mod Positioning
pub mod Study
pub mod Figures
pub mod Thinning
mod Tests
