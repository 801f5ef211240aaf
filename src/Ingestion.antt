-- ===== src/Ingestion.antt =====
-- services/data_ingestion/market_data: parsing.py, hyperliquid_history.py, hyperliquid_funding.py and
-- hyperliquid_orderbook.py.
pub mod Parsing
pub mod OrderBook
pub mod History
pub mod Funding
pub mod Progress
mod Tests
