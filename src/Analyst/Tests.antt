-- ===== src/Analyst/Tests.antt =====
-- A few bars, pivots and levels in whole numbers.
use crypto_research_platform.Prelude.{
  string_eq, true, ◌≡◌, refl, none, some, List, [], ◌∷◌, ◌++◌, map, All, replicate,
}
use Prim.Native.Nat.{min as min_ℕ}
use crypto_research_platform.Decimal.{IsWithin}
use crypto_research_platform.Decimal.Int.{ℤ, pos, whole, whole-IsExact, fdiv, ◌+ℤ◌, ◌*ℤ◌, ◌-ℤ◌}
use crypto_research_platform.Schemas.{
  Candle, Direction, support, resistance, SupportResistanceLevel,
}
use crypto_research_platform.Runtime.Context.{AgentContext}
use crypto_research_platform.Analyst.Indicators.{sma_series, ema_series, rsi_series}
use crypto_research_platform.Analyst.Averages.{
  means, OfReading, sma_series-eq-means, ema_series-IsWithin,
}
use crypto_research_platform.Analyst.Strength.{rsi_series-IsWithin}
use crypto_research_platform.Analyst.Levels.{
  high, low, Pivot, PriceLevel, sort_by, level_of, find_pivots, cluster_pivots, detect_levels,
}
use crypto_research_platform.Analyst.Clusters.{IsGrouped, cluster_pivots-IsGrouped}
use crypto_research_platform.Analyst.Sides.{OnSide, IsFew, detect_levels-OnSide}
use crypto_research_platform.Analyst.Scores.{AnalystParams}
use crypto_research_platform.Analyst.Exits.{protective_levels}
use crypto_research_platform.Analyst.Agent.{analyze}
use crypto_research_platform.Analyst.Conviction.{IsUnit, OfSignal, analyze-IsUnit}
use crypto_research_platform.Analyst.Protection.{IsProtecting, protective_levels-IsProtecting}

abbrev closes : List ℤ
closes = pos 10 ∷ (pos 14 ∷ (pos 12 ∷ (pos 16 ∷ (pos 15 ∷ (pos 11 ∷ [])))))

sma_series-eq-means_example :
    sma_series closes 2 ≡ replicate (min_ℕ 1 6) none ++ map some (means 2 closes)
sma_series-eq-means_example = sma_series-eq-means whole-IsExact 1 closes

ema_series-IsWithin_example : All (OfReading (IsWithin (pos 10) (pos 16))) (ema_series closes 2)
ema_series-IsWithin_example = ema_series-IsWithin whole-IsExact (pos 10) (pos 16) 1 closes (
  (refl, refl),
  ((refl, refl), ((refl, refl), ((refl, refl), ((refl, refl), ((refl, refl), tt))))),
)

rsi_series-IsWithin_example : All (OfReading (IsWithin (pos 0) (pos 100))) (rsi_series closes 2)
rsi_series-IsWithin_example = rsi_series-IsWithin whole-IsExact 1 closes

abbrev pivots : List (Pivot ℤ)
pivots =
    record { index = 1; price = pos 200; kind = high }
    ∷ (record { index = 3; price = pos 201; kind = high }
        ∷ (record { index = 4; price = pos 100; kind = low } ∷ []))

abbrev levels : List (PriceLevel ℤ)
levels =
    record { price = pos 100; touches = 1; last_index = 4; strength = pos 0 }
    ∷ (record { price = pos 200; touches = 2; last_index = 3; strength = pos 0 } ∷ [])

abbrev reported : List (SupportResistanceLevel ℤ)
reported =
    record {
      price = pos 14;
      kind = resistance;
      touches = 3;
      strength = pos 0;
      distance_pct = pos 0;
    }
    ∷ []

cluster_pivots-IsGrouped_example : IsGrouped pivots levels
unfolding cluster_pivots sort_by fdiv ◌+ℤ◌ ◌*ℤ◌ ◌-ℤ◌ level_of
cluster_pivots-IsGrouped_example = cluster_pivots-IsGrouped pivots (pos 1) 6 refl

detect_levels-OnSide_example : All (OnSide (pos 13)) reported × IsFew 2 reported
unfolding detect_levels find_pivots cluster_pivots sort_by fdiv ◌+ℤ◌ ◌*ℤ◌ ◌-ℤ◌ level_of
detect_levels-OnSide_example =
    detect_levels-OnSide whole-IsExact closes closes (pos 13) 1 (pos 5) 2 refl

abbrev level : SupportResistanceLevel ℤ
level = record {
  price = pos 95;
  kind = support;
  touches = 2;
  strength = pos 1;
  distance_pct = pos 5;
}

protective_levels-IsProtecting_example :
    IsProtecting Direction.short
      (pos 100)
      (protective_levels Direction.short (pos 100) (level ∷ []) (some (pos 4)))
protective_levels-IsProtecting_example =
    protective_levels-IsProtecting whole-IsExact Direction.short (pos 100) (level ∷ [])
      (some (pos 4)) refl

abbrev bar : ℤ → Candle ℤ
bar close = record {
  symbol = "BTC";
  interval = "1m";
  open_time = pos 1;
  close_time = pos 2;
  open_price = close;
  high = close;
  low = close;
  close = close;
  volume = pos 5;
  trade_count = 1;
  is_closed = true;
  correlation_id = 6;
}

abbrev params : AnalystParams ℤ
params = record {
  rsi_period = 1;
  rsi_overbought = pos 70;
  rsi_oversold = pos 30;
  macd_fast = 1;
  macd_slow = 2;
  macd_signal = 1;
  ema_fast = 1;
  ema_slow = 2;
  bollinger_period = 2;
  bollinger_std = pos 2;
  atr_period = 1;
  volume_ma_period = 1;
  swing_lookback = 1;
  support_resistance_levels = 2;
  level_cluster_pct = pos 1;
  timeframe_weights = ("1m", pos 1) ∷ [];
  signal_ttl_s = pos 90;
  min_abs_score = pos 1;
  full_conviction_score = pos 1;
}

abbrev context : AgentContext ℤ
context = record {
  symbol = "BTC";
  candles = ("1m", map bar closes) ∷ [];
  order_book = none;
  recent_trades = [];
  portfolio = none;
}

analyze-IsUnit_example :
    OfSignal
      (λ s. IsUnit s.confidence)
      (analyze (λ xs. pos 1) params "analyst" "1" 7 (pos 5) context)
analyze-IsUnit_example =
    analyze-IsUnit whole-IsExact (λ xs. pos 1) params "analyst" "1" 7 (pos 5) context refl refl
