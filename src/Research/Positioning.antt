-- ===== src/Research/Positioning.antt =====
-- services/research/signals.py: the signals of volume, funding, the book and open interest. `none` is
-- an exception.
use Prim.Native.Nat.{◌-◌ as sub_ℕ, ◌*◌ as mul_ℕ}
use crypto_research_platform.Prelude.{
  ℕ, ◌+ℕ◌, not, ◌&&◌, ◌||◌, Option, none, some, List, [], ◌∷◌, map, length, leb as leb_ℕ,
  ltb as ltb_ℕ, if◌then◌else◌, get_elem?,
}
use crypto_research_platform.Decimal.{Decimal, ◌-◌, ◌*◌, ◌/◌, of_ℕ, leb, ltb, eqb, min, max, abs}
use crypto_research_platform.Schemas.{FundingRate, OrderBookSnapshot, imbalance, Direction}
use crypto_research_platform.Analyst.Indicators.{on_balance_volume, last_of}
use crypto_research_platform.Analyst.Scores.{last_value}
use crypto_research_platform.Backtest.Replay.{slice}
use crypto_research_platform.Research.Signals.{
  SignalWindow, SignalReading, call, flat_reading, directional, closes, close_back,
}

-- `xs[-2 * lookback : -lookback]`
abbrev pub prior_of : {A : Type 0} → ℕ → List A → List A
prior_of lookback xs = slice (sub_ℕ (length xs) (mul_ℕ 2 lookback)) (sub_ℕ (length xs) lookback) xs

-- The extremes of the prices and of the volume, in the recent and in the prior half.
pub record Extremes (D : Type 0) : Type 0 where
  pub recent_high : D
  pub recent_low : D
  pub prior_high : D
  pub prior_low : D

module _ {D : Type 0} ⦃d : Decimal D⦄ where
  abbrev pub fold_from : (D → D → D) → D → List D → D
  fold_from f best [] = best
  fold_from f best (v ∷ vs) = fold_from f (f best v) vs

  abbrev pub extremes_in : List D → List D → Option (Extremes D)
  extremes_in (r ∷ rs) (p ∷ ps) = some (record {
    recent_high = fold_from max r rs;
    recent_low = fold_from min r rs;
    prior_high = fold_from max p ps;
    prior_low = fold_from min p ps;
  })
  extremes_in _ _ = none

  abbrev pub extremes_of : ℕ → List D → Option (Extremes D)
  extremes_of lookback xs = extremes_in (last_of lookback xs) (prior_of lookback xs)

  abbrev pub divergence : Extremes D → Extremes D → SignalReading D
  divergence price obv =
      let high_break = λ (e : Extremes D). ltb e.prior_high e.recent_high in
      let low_break = λ (e : Extremes D). ltb e.recent_low e.prior_low in
      let scale = max (max (abs obv.prior_high) (abs obv.prior_low)) (of_ℕ 1) in
      let magnitude = min (of_ℕ 1) (abs (obv.recent_high - obv.prior_high) / scale) in
      if high_break price && not (high_break obv)
      then call Direction.short magnitude (of_ℕ 0 - magnitude)
      else if low_break price && not (low_break obv)
      then call Direction.long magnitude magnitude
      else flat_reading

  abbrev pub divergence_of : Option (Extremes D) → Option (Extremes D) → Option (SignalReading D)
  divergence_of (some price) (some obv) = some (divergence price obv)
  divergence_of _ _ = none

  abbrev pub against_volume : ℕ → List D → Option (List D) → Option (SignalReading D)
  against_volume lookback prices none = none
  against_volume lookback prices (some obv) =
      divergence_of (extremes_of lookback prices) (extremes_of lookback obv)

  unfoldable pub obv_divergence : ℕ → SignalWindow D → Option (SignalReading D)
  obv_divergence lookback w =
      if ltb_ℕ (length w.candles) (mul_ℕ lookback 2)
      then some flat_reading
      else against_volume lookback (closes w)
          (on_balance_volume (closes w) (map (λ c. c.volume) w.candles))

  abbrev pub against_rate : D → Option (FundingRate D) → SignalReading D
  against_rate scale none = flat_reading
  against_rate scale (some f) =
      if eqb f.funding_rate (of_ℕ 0)
      then flat_reading
      else directional (of_ℕ 0 - f.funding_rate) (abs f.funding_rate / scale)

  unfoldable pub funding_rate_contrarian : D → SignalWindow D → SignalReading D
  funding_rate_contrarian scale w = against_rate scale (last_value w.funding)

  abbrev pub by_book : ℕ → Option (OrderBookSnapshot D) → SignalReading D
  by_book depth none = flat_reading
  by_book depth (some book) = directional (imbalance depth book) (abs (imbalance depth book))

  unfoldable pub order_book_imbalance : ℕ → SignalWindow D → SignalReading D
  order_book_imbalance depth w = by_book depth w.order_book

  -- The newest value of open interest and of the closes, each with the one before.
  abbrev pub confirmed : Option D → Option D → Option D → Option D → SignalReading D
  confirmed (some latest) (some previous) (some now) (some before) =
      let oi_change = (latest - previous) / previous in
      let price_change = (now - before) / before in
      if leb previous (of_ℕ 0)
      then flat_reading
      else if leb oi_change (of_ℕ 0)
      then call Direction.flat (of_ℕ 0) oi_change
      else directional price_change (min (of_ℕ 1) (abs oi_change * of_ℕ 5))
  confirmed _ _ _ _ = flat_reading

  unfoldable pub open_interest_change : ℕ → SignalWindow D → SignalReading D
  open_interest_change lookback w =
      if leb_ℕ (length w.open_interest) lookback || leb_ℕ (length w.candles) lookback
      then flat_reading
      else confirmed (last_value w.open_interest)
          (get_elem? w.open_interest (sub_ℕ (length w.open_interest) (1 +ℕ lookback)))
          (close_back 0 w) (close_back lookback w)
