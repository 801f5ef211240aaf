-- ===== src/Backtest/Trade.antt =====
-- services/backtest/replay.py: `ReplayTrade`, `_OpenTrade`, `_exit_on`, `_cost_for` and `_close`.
use crypto_research_platform.Prelude.{
  ℕ, String, Bool, true, false, Option, none, some, if◌then◌else◌,
}
use crypto_research_platform.Decimal.{Decimal, ◌+◌, ◌-◌, ◌*◌, ◌/◌, of_ℕ, leb, ltb, eqb, min, max}
use crypto_research_platform.Schemas.{Candle, Direction, is_long, sign, ExitReason}

pub record ReplayTrade (D : Type 0) : Type 0 where
  pub symbol : String
  pub direction : Direction
  pub confidence : D
  pub entry_time : D
  pub entry_price : D
  pub exit_time : D
  pub exit_price : D
  pub exit_reason : ExitReason
  pub size : D
  pub gross_pnl : D
  pub costs : D
  pub bars_held : ℕ
  pub forced_close : Bool

pub record OpenTrade (D : Type 0) : Type 0 where
  pub symbol : String
  pub direction : Direction
  pub confidence : D
  pub entry_time : D
  pub entry_price : D
  pub size : D
  pub stop_price : Option D
  pub take_profit_price : Option D
  pub trailing_stop_pct : Option D
  pub extreme_price : D
  pub entry_cost : D
  pub bars : ℕ

-- What `ReplayEngine` is configured with.
pub record ReplayParams (D : Type 0) : Type 0 where
  pub cost_bps : D
  pub warmup_bars : ℕ
  pub window_bars : ℕ
  pub position_size : D
  pub max_bars_held : Option ℕ
  pub trailing_stop_pct : Option D
  pub min_confidence : D

module _ {D : Type 0} ⦃d : Decimal D⦄ where
  unfoldable pub net_pnl : ReplayTrade D → D
  net_pnl t = t.gross_pnl - t.costs

  unfoldable pub was_correct : ReplayTrade D → Bool
  unfolding net_pnl
  was_correct t = ltb (of_ℕ 0) (net_pnl t)

  unfoldable pub return_pct : ReplayTrade D → D
  unfolding net_pnl
  return_pct t =
      let notional = t.entry_price * t.size in
      if eqb notional (of_ℕ 0) then of_ℕ 0 else net_pnl t / notional * of_ℕ 100

  unfoldable pub observe_bar : Candle D → OpenTrade D → OpenTrade D
  observe_bar c t =
      if is_long t.direction
      then record t { extreme_price = max t.extreme_price c.high }
      else record t { extreme_price = min t.extreme_price c.low }

  abbrev pub trailing_from : Direction → D → Option D → Option D
  trailing_from dir extreme none = none
  trailing_from dir extreme (some pct) =
      if is_long dir
      then some (extreme * (of_ℕ 1 - pct / of_ℕ 100))
      else some (extreme * (of_ℕ 1 + pct / of_ℕ 100))

  unfoldable pub trailing_level : OpenTrade D → Option D
  trailing_level t = trailing_from t.direction t.extreme_price t.trailing_stop_pct

  abbrev pub tighter_of : Direction → Option D → Option D → Option D
  tighter_of dir none trailing = trailing
  tighter_of dir (some fixed) none = some fixed
  tighter_of dir (some fixed) (some trailing) =
      if is_long dir then some (max fixed trailing) else some (min fixed trailing)

  unfoldable pub stop_level : OpenTrade D → Option D
  unfolding trailing_level
  stop_level t = tighter_of t.direction t.stop_price (trailing_level t)

  abbrev pub stopped : Direction → Candle D → D → Bool
  stopped dir c stop = if is_long dir then leb c.low stop else leb stop c.high

  abbrev pub reached : Direction → Candle D → D → Bool
  reached dir c target = if is_long dir then leb target c.high else leb c.low target

  -- `is_trailing`
  abbrev pub trailed : Direction → Option D → Option D → Bool
  trailed dir none fixed = false
  trailed dir (some trailing) none = true
  trailed dir (some trailing) (some fixed) =
      if is_long dir then ltb fixed trailing else ltb trailing fixed

  abbrev pub stop_exit : Candle D → OpenTrade D → Option D → Option (ExitReason × D)
  stop_exit c t none = none
  stop_exit c t (some stop) =
      if stopped t.direction c stop
      then (if trailed t.direction (trailing_level t) t.stop_price
          then some (ExitReason.trailing_stop, stop)
          else some (ExitReason.stop_loss, stop))
      else none

  abbrev pub target_exit : Candle D → OpenTrade D → Option D → Option (ExitReason × D)
  target_exit c t none = none
  target_exit c t (some target) =
      if reached t.direction c target then some (ExitReason.take_profit, target) else none

  abbrev pub first_exit :
      Option (ExitReason × D) → Option (ExitReason × D) → Option (ExitReason × D)
  first_exit none later = later
  first_exit (some e) later = some e

  -- `_exit_on`
  unfoldable pub exit_on : Candle D → OpenTrade D → Option (ExitReason × D)
  unfolding stop_level trailing_level
  exit_on c t = first_exit (stop_exit c t (stop_level t)) (target_exit c t t.take_profit_price)

  -- `_cost_for`
  unfoldable pub cost_for : ReplayParams D → D → D
  cost_for p price = price * p.position_size * p.cost_bps / of_ℕ 10000

  -- `_close`
  unfoldable pub close_trade :
      ReplayParams D → OpenTrade D → D → D → ExitReason → Bool → ReplayTrade D
  unfolding cost_for
  close_trade p t exit_price exit_time reason forced = record {
    symbol = t.symbol;
    direction = t.direction;
    confidence = t.confidence;
    entry_time = t.entry_time;
    entry_price = t.entry_price;
    exit_time = exit_time;
    exit_price = exit_price;
    exit_reason = reason;
    size = t.size;
    gross_pnl = (exit_price - t.entry_price) * t.size * sign t.direction;
    costs = t.entry_cost + cost_for p exit_price;
    bars_held = t.bars;
    forced_close = forced;
  }
