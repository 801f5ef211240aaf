-- ===== src/Analyst/Scores.antt =====
-- services/agents/market_analyst/agent.py: the series of a timeframe and its component scores. A literal
-- such as 0.45 is the quotient of its digits; `none` is the exception of an indicator.
use Prim.Native.Nat.{max as max_ℕ, min as min_ℕ}
use crypto_research_platform.Prelude.{
  ℕ, ◌+ℕ◌, String, Bool, false, ◌&&◌, ◌||◌, Option, none, some, List, [], ◌∷◌, map, length, take,
  string_eq, leb as leb_ℕ, if◌then◌else◌,
}
use crypto_research_platform.Prelude.Dict.{Dict}
use crypto_research_platform.Decimal.{Decimal, ◌+◌, ◌-◌, ◌*◌, ◌/◌, of_ℕ, leb, ltb, eqb, min, abs}
use crypto_research_platform.Schemas.{Candle}
use crypto_research_platform.Analyst.Indicators.{
  Series, MacdResult, sma, on_balance_volume, normalized_slope, last_defined, crossed_above,
  crossed_below, clamped, defined, last_of,
}
use crypto_research_platform.Analyst.Bands.{BollingerResult}
use crypto_research_platform.Analyst.Levels.{sort_by}

pub record AnalystParams (D : Type 0) : Type 0 where
  pub rsi_period : ℕ
  pub rsi_overbought : D
  pub rsi_oversold : D
  pub macd_fast : ℕ
  pub macd_slow : ℕ
  pub macd_signal : ℕ
  pub ema_fast : ℕ
  pub ema_slow : ℕ
  pub bollinger_period : ℕ
  pub bollinger_std : D
  pub atr_period : ℕ
  pub volume_ma_period : ℕ
  pub swing_lookback : ℕ
  pub support_resistance_levels : ℕ
  pub level_cluster_pct : D
  pub timeframe_weights : Dict String D
  pub signal_ttl_s : D
  pub min_abs_score : D
  pub full_conviction_score : D

-- `_required_bars`
unfoldable pub required_bars : {D : Type 0} → AnalystParams D → ℕ
required_bars p =
    max_ℕ (p.rsi_period +ℕ 1) (
      max_ℕ (p.macd_slow +ℕ p.macd_signal) (
        max_ℕ p.ema_slow (max_ℕ p.bollinger_period (max_ℕ (p.atr_period +ℕ 1) p.volume_ma_period))))
    +ℕ 2

-- `xs[-1]`
abbrev pub last_value : {A : Type 0} → List A → Option A
last_value [] = none
last_value (a ∷ []) = some a
last_value (a ∷ (b ∷ xs)) = last_value (b ∷ xs)

pub record Ohlcv (D : Type 0) : Type 0 where
  pub opens : List D
  pub highs : List D
  pub lows : List D
  pub closes : List D
  pub volumes : List D

unfoldable pub from_candles : {D : Type 0} → List (Candle D) → Ohlcv D
from_candles cs = record {
  opens = map (λ c. c.open_price) cs;
  highs = map (λ c. c.high) cs;
  lows = map (λ c. c.low) cs;
  closes = map (λ c. c.close) cs;
  volumes = map (λ c. c.volume) cs;
}

module _ {D : Type 0} ⦃d : Decimal D⦄ where
  abbrev pub percent : ℕ → D
  percent n = of_ℕ n / of_ℕ 100

  abbrev pub negated : D → D
  negated a = of_ℕ 0 - a

  -- Where the price stands to the two averages.
  abbrev pub position_score : D → D → D → D
  position_score price fast slow =
      if ltb fast price && ltb slow fast
      then of_ℕ 1
      else if ltb price fast && ltb fast slow
      then negated (of_ℕ 1)
      else if ltb slow price
      then percent 35
      else if ltb price slow
      then negated (percent 35)
      else of_ℕ 0

  abbrev pub histogram_sign : D → Option D → D
  histogram_sign price none = of_ℕ 0
  histogram_sign price (some h) =
      if eqb price (of_ℕ 0) then of_ℕ 0 else clamped (h / price * of_ℕ 200)

  abbrev pub trend_of : D → Option D → Option D → Option D → D
  trend_of price (some fast) (some slow) histogram =
      let separation = clamped ((fast - slow) / slow * of_ℕ 100) in
      if eqb slow (of_ℕ 0)
      then of_ℕ 0
      else clamped (
          percent 45 * separation
          + percent 35 * position_score price fast slow
          + percent 20 * histogram_sign price histogram)
  trend_of price _ _ histogram = of_ℕ 0

  -- `_trend_score`, at the last close
  unfoldable pub trend_score : D → Series D → Series D → Series D → D
  trend_score price ema_fast ema_slow hist =
      trend_of price (last_defined ema_fast) (last_defined ema_slow) (last_defined hist)

  abbrev pub rsi_part : AnalystParams D → Option D → D
  rsi_part p none = of_ℕ 0
  rsi_part p (some v) =
      let centred = (v - of_ℕ 50) / of_ℕ 50 in
      let damped =
        if leb p.rsi_overbought v || leb v p.rsi_oversold then centred * percent 80 else centred in
      percent 45 * clamped damped

  abbrev pub histogram_part : D → Option D → D
  histogram_part price none = of_ℕ 0
  histogram_part price (some h) =
      if ltb (of_ℕ 0) price then percent 35 * clamped (h / price * of_ℕ 200) else of_ℕ 0

  abbrev pub cross_part : MacdResult D → D
  cross_part m =
      if crossed_above m.macd m.signal
      then percent 20
      else if crossed_below m.macd m.signal
      then negated (percent 20)
      else of_ℕ 0

  -- `_momentum_score`
  unfoldable pub momentum_score : AnalystParams D → Series D → MacdResult D → D → D
  momentum_score p rsi_series m price = clamped (
      rsi_part p (last_defined rsi_series)
      + histogram_part price (last_defined m.histogram)
      + cross_part m)

  -- The middle of the last twenty band widths, if there are so many, and the last of them.
  abbrev pub eleventh : List D → Option D
  eleventh xs = last_value (take 11 xs)

  abbrev pub squeezed : Option D → Option D → Bool
  squeezed (some recent) (some typical) = ltb (of_ℕ 0) typical && ltb recent (typical * percent 75)
  squeezed _ _ = false

  abbrev pub is_squeeze : List D → Bool
  is_squeeze widths =
      leb_ℕ 20 (length widths)
      && squeezed (last_value widths) (eleventh (sort_by leb (last_of 20 widths)))

  abbrev pub volatility_of : Bool → D → Option D → D
  volatility_of squeeze trend none = of_ℕ 0
  volatility_of squeeze trend (some percent_b) =
      if squeeze
      then clamped (percent 50 * trend)
      else clamped
          (clamped ((percent 50 - percent_b) * of_ℕ 2) * (of_ℕ 1 - min (of_ℕ 1) (abs trend)))

  -- `_volatility_score`
  unfoldable pub volatility_score : BollingerResult D → D → D
  volatility_score bands trend =
      volatility_of (is_squeeze (defined bands.bandwidth)) trend (last_defined bands.percent_b)

  abbrev pub ratio_of : Option D → Option D → D
  ratio_of (some last_volume) (some average) =
      if ltb (of_ℕ 0) average then last_volume / average else of_ℕ 0
  ratio_of _ _ = of_ℕ 0

  -- The score, the volume ratio and the slope of the on-balance volume.
  abbrev pub volume_of : D → D → D → D × D × D
  volume_of direction_hint ratio obv_slope =
      let confirmation =
        if ltb (of_ℕ 0) ratio
        then clamped (ratio - of_ℕ 1)
          * (if leb (of_ℕ 0) direction_hint then of_ℕ 1 else negated (of_ℕ 1))
        else of_ℕ 0 in
      (
        clamped (percent 50 * confirmation + percent 50 * clamped (obv_slope * of_ℕ 5)),
        ratio,
        obv_slope,
      )

  abbrev pub volume_with :
      AnalystParams D → Ohlcv D → D → Option (Series D) → Option (List D) → Option (D × D × D)
  volume_with p o hint (some volume_ma) (some obv) = some (
      volume_of hint (ratio_of (last_value o.volumes) (last_defined volume_ma))
        (normalized_slope obv (min_ℕ p.volume_ma_period (length obv))))
  volume_with p o hint _ _ = none

  -- `_volume_score`
  unfoldable pub volume_score : AnalystParams D → Ohlcv D → D → Option (D × D × D)
  volume_score p o hint =
      volume_with p o hint (sma o.volumes p.volume_ma_period) (on_balance_volume o.closes o.volumes)

  -- `COMPONENT_WEIGHTS`
  unfoldable pub composite : D → D → D → D → D
  composite trend momentum volatility volume =
      clamped
        (percent 40 * trend + percent 30 * momentum + percent 20 * volatility + percent 10 * volume)
