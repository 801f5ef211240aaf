-- ===== src/Research/Signals.antt =====
-- services/research/signals.py: what a signal sees and says, and the signals of the indicators of
-- price. `none` is an exception of an indicator; `pstdev` is that of the statistics module.
use Prim.Native.Nat.{◌-◌ as sub_ℕ}
use crypto_research_platform.Prelude.{
  ℕ, ◌+ℕ◌, String, Bool, true, false, ◌&&◌, Option, none, some, List, [], ◌∷◌, map, length,
  leb as leb_ℕ, if◌then◌else◌, get_elem?,
}
use crypto_research_platform.Decimal.{
  Decimal, ◌+◌, ◌-◌, ◌*◌, ◌/◌, of_ℕ, leb, ltb, eqb, min, max, abs,
}
use crypto_research_platform.Schemas.{Candle, FundingRate, OrderBookSnapshot, Direction}
use crypto_research_platform.Analyst.Indicators.{
  Series, MacdResult, rsi, macd, ema, atr, last_defined,
}
use crypto_research_platform.Analyst.Bands.{BollingerResult, bollinger}

pub data DataRequirement : Type 0 where
  candles : DataRequirement
  funding : DataRequirement
  order_book : DataRequirement
  open_interest : DataRequirement

-- `HISTORICALLY_AVAILABLE`
abbrev pub is_available : DataRequirement → Bool
is_available DataRequirement.candles = true
is_available DataRequirement.funding = true
is_available _ = false

abbrev pub all_available : List DataRequirement → Bool
all_available [] = true
all_available (r ∷ rs) = is_available r && all_available rs

pub record SignalWindow (D : Type 0) : Type 0 where
  pub candles : List (Candle D)
  pub funding : List (FundingRate D)
  pub order_book : Option (OrderBookSnapshot D)
  pub open_interest : List D

pub record SignalReading (D : Type 0) : Type 0 where
  pub direction : Direction
  pub conviction : D
  pub value : D

pub record SignalSpec (D : Type 0) : Type 0 where
  pub name : String
  pub min_bars : ℕ
  pub requires : List DataRequirement
  pub evaluate : SignalWindow D → Option (Option (SignalReading D))

unfoldable pub is_backtestable : {D : Type 0} → SignalSpec D → Bool
is_backtestable s = all_available s.requires

module _ {D : Type 0} where
  abbrev pub closes : SignalWindow D → List D
  closes w = map (λ c. c.close) w.candles

  abbrev pub highs : SignalWindow D → List D
  highs w = map (λ c. c.high) w.candles

  abbrev pub lows : SignalWindow D → List D
  lows w = map (λ c. c.low) w.candles

  -- `closes[-1 - back]`
  abbrev pub close_back : ℕ → SignalWindow D → Option D
  close_back back w = get_elem? (closes w) (sub_ℕ (length w.candles) (1 +ℕ back))

module _ {D : Type 0} ⦃d : Decimal D⦄ where
  unfoldable pub probability : SignalReading D → D
  probability r = of_ℕ 1 / of_ℕ 2 + of_ℕ 1 / of_ℕ 2 * max (of_ℕ 0) (min (of_ℕ 1) r.conviction)

  abbrev pub call : Direction → D → D → SignalReading D
  call direction conviction value = record {
    direction = direction;
    conviction = conviction;
    value = value;
  }

  abbrev pub flat_reading : SignalReading D
  flat_reading = call Direction.flat (of_ℕ 0) (of_ℕ 0)

  unfoldable pub directional : D → D → SignalReading D
  directional value conviction =
      let clamped = max (of_ℕ 0) (min (of_ℕ 1) conviction) in
      if ltb (of_ℕ 0) value
      then call Direction.long clamped value
      else if ltb value (of_ℕ 0)
      then call Direction.short clamped value
      else call Direction.flat (of_ℕ 0) value

  -- A reading of the last defined value of a series, FLAT when there is none.
  abbrev pub read_value : (D → SignalReading D) → Option D → SignalReading D
  read_value f none = flat_reading
  read_value f (some v) = f v

  abbrev pub read_last : (D → SignalReading D) → Option (Series D) → Option (SignalReading D)
  read_last f none = none
  read_last f (some s) = some (read_value f (last_defined s))

  unfoldable pub rsi_reversion : ℕ → D → SignalWindow D → Option (SignalReading D)
  rsi_reversion period band w =
      read_last
        (λ value.
          if leb value (of_ℕ 50 - band)
          then call Direction.long (min (of_ℕ 1) ((of_ℕ 50 - band - value) / band)) value
          else if leb (of_ℕ 50 + band) value
          then call Direction.short (min (of_ℕ 1) ((value - of_ℕ 50 - band) / band)) value
          else call Direction.flat (of_ℕ 0) value)
        (rsi (closes w) period)

  unfoldable pub rsi_momentum : ℕ → SignalWindow D → Option (SignalReading D)
  unfolding directional
  rsi_momentum period w =
      read_last
        (λ value. let centred = (value - of_ℕ 50) / of_ℕ 50 in directional centred (abs centred))
        (rsi (closes w) period)

  abbrev pub by_close : Option D → D → SignalReading D
  by_close none value = flat_reading
  by_close (some close) value =
      let normalised = value / close * of_ℕ 200 in
      if leb close (of_ℕ 0) then flat_reading else directional normalised (abs normalised)

  abbrev pub histogram_of : Option (MacdResult D) → Option (Series D)
  histogram_of none = none
  histogram_of (some r) = some r.histogram

  -- The defaults of `macd` are 12, 26 and 9.
  unfoldable pub macd_histogram : SignalWindow D → Option (SignalReading D)
  macd_histogram w = read_last (by_close (close_back 0 w)) (histogram_of (macd (closes w) 12 26 9))

  abbrev pub separated : Option D → Option D → SignalReading D
  separated (some fast) (some slow) =
      let separation = (fast - slow) / slow * of_ℕ 100 in
      if eqb slow (of_ℕ 0) then flat_reading else directional separation (abs separation)
  separated _ _ = flat_reading

  abbrev pub crossing : Option (Series D) → Option (Series D) → Option (SignalReading D)
  crossing (some fast) (some slow) = some (separated (last_defined fast) (last_defined slow))
  crossing _ _ = none

  unfoldable pub ema_cross : ℕ → ℕ → SignalWindow D → Option (SignalReading D)
  ema_cross fast slow w = crossing (ema (closes w) fast) (ema (closes w) slow)

  abbrev pub percent_of : Option (BollingerResult D) → Option (Series D)
  percent_of none = none
  percent_of (some b) = some b.percent_b

  unfoldable pub bollinger_percent_b :
      (List D → D) → ℕ → D → SignalWindow D → Option (SignalReading D)
  bollinger_percent_b pstdev period num_std w =
      read_last
        (λ value.
          if ltb value (of_ℕ 0)
          then call Direction.long (min (of_ℕ 1) ((of_ℕ 0 - value) * of_ℕ 2)) value
          else if ltb (of_ℕ 1) value
          then call Direction.short (min (of_ℕ 1) ((value - of_ℕ 1) * of_ℕ 2)) value
          else call Direction.flat (of_ℕ 0) value)
        (percent_of (bollinger pstdev (closes w) period num_std))

  abbrev pub moved_by : Option D → Option D → D → SignalReading D
  moved_by (some now) (some before) atr_value =
      let move = (now - before) / atr_value in
      if leb atr_value (of_ℕ 0) then flat_reading else directional move (abs move / of_ℕ 2)
  moved_by _ _ atr_value = flat_reading

  unfoldable pub atr_normalized_momentum : ℕ → ℕ → SignalWindow D → Option (SignalReading D)
  atr_normalized_momentum lookback atr_period w =
      if leb_ℕ (length w.candles) lookback
      then some flat_reading
      else read_last (moved_by (close_back 0 w) (close_back lookback w))
          (atr (highs w) (lows w) (closes w) atr_period)
