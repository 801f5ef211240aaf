-- ===== src/Schemas/Trading.antt =====
-- libs/schemas/signals.py and trading.py: signal, decision, verdict, order and fill.
use crypto_research_platform.Prelude.{ℕ, String, Bool, false, Option, none, some, List}
use crypto_research_platform.Decimal.{Decimal, ltb}
use crypto_research_platform.Schemas.Enums.{Side, Direction, DecisionAction, OrderType, VetoReason}

pub data LevelKind : Type 0 where
  support resistance : LevelKind

pub record SupportResistanceLevel (D : Type 0) : Type 0 where
  pub price : D
  pub kind : LevelKind
  pub touches : ℕ
  pub strength : D
  pub distance_pct : D

pub record TimeframeAnalysis (D : Type 0) : Type 0 where
  pub interval : String
  pub candles_used : ℕ
  pub close : D
  pub rsi : Option D
  pub macd : Option D
  pub macd_signal : Option D
  pub macd_histogram : Option D
  pub ema_fast : Option D
  pub ema_slow : Option D
  pub bb_upper : Option D
  pub bb_middle : Option D
  pub bb_lower : Option D
  pub bb_percent_b : Option D
  pub bb_bandwidth : Option D
  pub atr : Option D
  pub volume_ratio : Option D
  pub obv_slope : Option D
  pub trend_score : D
  pub momentum_score : D
  pub volatility_score : D
  pub volume_score : D
  pub composite_score : D

pub record AgentSignal (D : Type 0) : Type 0 where
  pub event_id : ℕ
  pub agent_name : String
  pub agent_version : String
  pub symbol : String
  pub direction : Direction
  pub confidence : D
  pub reference_price : Option D
  pub suggested_stop : Option D
  pub suggested_take_profit : Option D
  pub valid_until : Option D
  pub degraded : Bool
  pub correlation_id : ℕ

-- `AgentSignal.is_expired`
unfoldable pub is_expired : {D : Type 0} ⦃d : Decimal D⦄ → D → Option D → Bool
is_expired now none = false
is_expired now (some until) = ltb until now

pub record TradeDecision (D : Type 0) : Type 0 where
  pub decision_id : ℕ
  pub symbol : String
  pub action : DecisionAction
  pub confidence : D
  pub weighted_confidence : D
  pub reference_price : Option D
  pub suggested_stop : Option D
  pub suggested_take_profit : Option D
  pub contributing_signals : List ℕ
  pub agent_weights : List (String × D)
  pub correlation_id : ℕ

pub record RiskVerdict (D : Type 0) : Type 0 where
  pub decision_id : ℕ
  pub symbol : String
  pub approved : Bool
  pub veto_reasons : List VetoReason
  pub approved_size : D
  pub approved_notional : D
  pub stop_price : Option D
  pub take_profit_price : Option D
  pub risk_amount : D
  pub equity_at_decision : D
  pub correlation_id : ℕ

pub record OrderIntent (D : Type 0) : Type 0 where
  pub order_id : ℕ
  pub decision_id : ℕ
  pub symbol : String
  pub side : Side
  pub size : D
  pub order_type : OrderType
  pub reduce_only : Bool
  pub stop_price : Option D
  pub take_profit_price : Option D
  pub trailing_stop_pct : Option D
  pub exit_reason : Option String
  pub is_paper : Bool
  pub correlation_id : ℕ

pub record Fill (D : Type 0) : Type 0 where
  pub fill_id : ℕ
  pub order_id : ℕ
  pub decision_id : Option ℕ
  pub symbol : String
  pub side : Side
  pub size : D
  pub price : D
  pub fee : D
  pub slippage_bps : D
  pub reference_price : Option D
  pub is_paper : Bool
  pub reduce_only : Bool
  pub correlation_id : ℕ
