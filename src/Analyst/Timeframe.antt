-- ===== src/Analyst/Timeframe.antt =====
-- services/agents/market_analyst/agent.py: `analyze_timeframe`.
use crypto_research_platform.Prelude.{
  String, Option, none, some, List, length, string_eq, ltb as ltb_ℕ, if◌then◌else◌,
}
use crypto_research_platform.Decimal.{Decimal, of_ℕ, round}
use crypto_research_platform.Schemas.{Candle, TimeframeAnalysis}
use crypto_research_platform.Analyst.Indicators.{
  Series, MacdResult, rsi, macd, ema, atr, last_defined,
}
use crypto_research_platform.Analyst.Bands.{BollingerResult, bollinger}
use crypto_research_platform.Analyst.Scores.{
  AnalystParams, Ohlcv, from_candles, last_value, required_bars, trend_score, momentum_score,
  volatility_score, volume_score, composite,
}

-- The indicators of one timeframe.
pub record Readings (D : Type 0) : Type 0 where
  pub rsi : Series D
  pub macd : MacdResult D
  pub ema_fast : Series D
  pub ema_slow : Series D
  pub bands : BollingerResult D
  pub atr : Series D

infixl 5 ◌>>=◌
abbrev pub ◌>>=◌ : {A B : Type 0} → Option A → (A → Option B) → Option B
none >>= f = none
some a >>= f = f a

module _ {D : Type 0} ⦃d : Decimal D⦄ where
  abbrev pub or_zero : Option D → D
  or_zero none = of_ℕ 0
  or_zero (some a) = a

  unfoldable pub readings : (List D → D) → AnalystParams D → Ohlcv D → Option (Readings D)
  readings pstdev p o = do
    r ← rsi o.closes p.rsi_period
    m ← macd o.closes p.macd_fast p.macd_slow p.macd_signal
    f ← ema o.closes p.ema_fast
    s ← ema o.closes p.ema_slow
    b ← bollinger pstdev o.closes p.bollinger_period p.bollinger_std
    a ← atr o.highs o.lows o.closes p.atr_period
    some (record { rsi = r; macd = m; ema_fast = f; ema_slow = s; bands = b; atr = a })

  -- A timeframe that is too short to score.
  abbrev pub unscored : String → Ohlcv D → TimeframeAnalysis D
  unscored interval o = record {
    interval = interval;
    candles_used = length o.closes;
    close = or_zero (last_value o.closes);
    rsi = none;
    macd = none;
    macd_signal = none;
    macd_histogram = none;
    ema_fast = none;
    ema_slow = none;
    bb_upper = none;
    bb_middle = none;
    bb_lower = none;
    bb_percent_b = none;
    bb_bandwidth = none;
    atr = none;
    volume_ratio = none;
    obv_slope = none;
    trend_score = of_ℕ 0;
    momentum_score = of_ℕ 0;
    volatility_score = of_ℕ 0;
    volume_score = of_ℕ 0;
    composite_score = of_ℕ 0;
  }

  unfoldable pub score :
      AnalystParams D → String → Ohlcv D → Readings D → Option (TimeframeAnalysis D)
  score p interval o r = do
    let price = or_zero (last_value o.closes)
    let trend = trend_score price r.ema_fast r.ema_slow r.macd.histogram
    let momentum = momentum_score p r.rsi r.macd price
    let volatility = volatility_score r.bands trend
    v ← volume_score p o trend
    some (record {
      interval = interval;
      candles_used = length o.closes;
      close = price;
      rsi = last_defined r.rsi;
      macd = last_defined r.macd.macd;
      macd_signal = last_defined r.macd.signal;
      macd_histogram = last_defined r.macd.histogram;
      ema_fast = last_defined r.ema_fast;
      ema_slow = last_defined r.ema_slow;
      bb_upper = last_defined r.bands.upper;
      bb_middle = last_defined r.bands.middle;
      bb_lower = last_defined r.bands.lower;
      bb_percent_b = last_defined r.bands.percent_b;
      bb_bandwidth = last_defined r.bands.bandwidth;
      atr = last_defined r.atr;
      volume_ratio = some v.1;
      obv_slope = some v.2;
      trend_score = round 4 trend;
      momentum_score = round 4 momentum;
      volatility_score = round 4 volatility;
      volume_score = round 4 v.0;
      composite_score = round 4 (composite trend momentum volatility v.0);
    })

  unfoldable pub analyze_timeframe :
      (List D → D) → AnalystParams D → String → List (Candle D) → Option (TimeframeAnalysis D)
  unfolding readings score
  analyze_timeframe pstdev p interval candles =
      let o = from_candles candles in
      if ltb_ℕ (length o.closes) (required_bars p)
      then some (unscored interval o)
      else (readings pstdev p o >>= score p interval o)
