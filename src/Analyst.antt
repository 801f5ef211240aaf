-- ===== src/Analyst.antt =====
-- services/agents/market_analyst: indicators.py, levels.py and agent.py.
pub mod Indicators
pub mod Averages
pub mod Strength
pub mod Bands
pub mod Levels
pub mod Clusters
pub mod Sides
pub mod Scores
pub mod Timeframe
pub mod Confluence
pub mod Exits
pub mod Agent
pub mod Conviction
pub mod Protection
mod Tests
