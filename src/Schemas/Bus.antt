-- ===== src/Schemas/Bus.antt =====
-- libs/kafka_client/__init__.py: the topics, and the events that travel on them.
use crypto_research_platform.Schemas.Market.{
  OrderBookSnapshot, TradeTick, Candle, FundingRate, PerpMetrics,
}
use crypto_research_platform.Schemas.Trading.{
  AgentSignal, TradeDecision, RiskVerdict, OrderIntent, Fill,
}
use crypto_research_platform.Schemas.Portfolio.{PortfolioSnapshot, PositionClosed, AgentOutcome}

pub data Topic : Type 0 where
  market_candles market_trades market_orderbook market_perp_metrics : Topic
  agent_signals trade_decisions risk_verdicts order_intents fills : Topic
  portfolio_snapshots position_closures agent_outcomes : Topic

pub data Event (D : Type 0) : Type 0 where
  candle : Candle D → Event D
  trade : TradeTick D → Event D
  book : OrderBookSnapshot D → Event D
  perp_metrics : PerpMetrics D → Event D
  funding : FundingRate D → Event D
  signal : AgentSignal D → Event D
  decision : TradeDecision D → Event D
  verdict : RiskVerdict D → Event D
  order : OrderIntent D → Event D
  fill : Fill D → Event D
  portfolio : PortfolioSnapshot D → Event D
  closure : PositionClosed D → Event D
  outcome : AgentOutcome D → Event D

-- A `(topic, event)` pair that the runtime publishes.
abbrev pub Publication : Type 0 → Type 0
Publication D = Topic × Event D
