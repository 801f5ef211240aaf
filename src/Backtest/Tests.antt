-- ===== src/Backtest/Tests.antt =====
-- Three bars around 100, a trade that is guarded below, and two forecasts.
use crypto_research_platform.Prelude.{
  ◌≡◌, refl, true, false, none, some, List, [], ◌∷◌, ◌++◌, string_eq, arith,
}
use crypto_research_platform.Decimal.Int.{ℤ, pos, pos_part, whole, ◌+ℤ◌, ◌-ℤ◌, ◌*ℤ◌, fdiv}
use crypto_research_platform.Schemas.{Candle, Direction, AgentSignal}
use crypto_research_platform.Monitor.{ProtectedPosition, observe, breach}
use crypto_research_platform.Engine.Trust.{brier_score}
use crypto_research_platform.Backtest.Trade.{OpenTrade, ReplayParams, observe_bar, exit_on}
use crypto_research_platform.Backtest.Replay.{View, walk, fresh_walk}
use crypto_research_platform.Backtest.Causality.{Series, one_world, other_world, walk_causal}
use crypto_research_platform.Backtest.Live.{Agrees, reason_of, exit_on-eq-live}
use crypto_research_platform.Backtest.Calibration.{CalibrationReport, analyze_calibration, counts}
use crypto_research_platform.Backtest.Buckets.{analyze_calibration-counts}

abbrev bar : ℤ → ℤ → Candle ℤ
bar at price = record {
  symbol = "BTC";
  interval = "1m";
  open_time = at;
  close_time = at;
  open_price = price;
  high = price;
  low = price;
  close = price;
  volume = pos 5;
  trade_count = 1;
  is_closed = true;
  correlation_id = 6;
}

abbrev params : ReplayParams ℤ
params = record {
  cost_bps = pos 0;
  warmup_bars = 1;
  window_bars = 2;
  position_size = pos 1;
  max_bars_held = none;
  trailing_stop_pct = some (pos 10);
  min_confidence = pos 0;
}

abbrev bars : List (Candle ℤ)
bars = bar (pos 1) (pos 100) ∷ bar (pos 2) (pos 101) ∷ bar (pos 3) (pos 95) ∷ []

abbrev long_signal : AgentSignal ℤ
long_signal = record {
  event_id = 3;
  agent_name = "analyst";
  agent_version = "1";
  symbol = "BTC";
  direction = Direction.long;
  confidence = pos 1;
  reference_price = some (pos 100);
  suggested_stop = some (pos 96);
  suggested_take_profit = some (pos 150);
  valid_until = none;
  degraded = false;
  correlation_id = 9;
}

-- A long signal at every bar.
abbrev bullish : View ℤ
bullish context = some (some long_signal)

-- Of the hourly candles one closed before the first bar, and one of two possible ones closes after
-- the last.
abbrev hourly : Series ℤ
hourly = record {
  interval = "1h";
  known = bar (pos 0) (pos 60) ∷ [];
  next = bar (pos 50) (pos 70) ∷ [];
  other_next = bar (pos 60) (pos 5) ∷ [];
}

walk_causal_example :
    walk params bullish "BTC" "1m" (bars ++ []) (one_world (hourly ∷ [])) 2 1 fresh_walk
    ≡ walk params bullish "BTC" "1m"
        (bars ++ (bar (pos 4) (pos 9) ∷ []))
        (other_world (hourly ∷ []))
        2
        1
        fresh_walk
walk_causal_example =
    walk_causal params bullish "BTC" "1m" bars [] (bar (pos 4) (pos 9) ∷ []) (hourly ∷ []) 2 1
      fresh_walk (omega arith)
      (
        (((refl, tt), (refl, tt)), tt),
        ((((refl, tt), (refl, tt)), tt), ((((refl, tt), (refl, tt)), tt), tt)),
      )

abbrev traded : OpenTrade ℤ
traded = record {
  symbol = "BTC";
  direction = Direction.long;
  confidence = pos 1;
  entry_time = pos 1;
  entry_price = pos 100;
  size = pos 2;
  stop_price = some (pos 96);
  take_profit_price = some (pos 150);
  trailing_stop_pct = some (pos 10);
  extreme_price = pos 100;
  entry_cost = pos 0;
  bars = 1;
}

abbrev guarded : ProtectedPosition ℤ
guarded = record {
  symbol = "BTC";
  direction = Direction.long;
  size = pos 2;
  entry_price = pos 100;
  stop_price = some (pos 96);
  take_profit_price = some (pos 150);
  trailing_stop_pct = some (pos 10);
  extreme_price = some (pos 100);
  exit_pending = false;
  correlation_id = none;
  decision_id = none;
  opened_at = pos 1;
  updated_at = pos 1;
}

exit_on-eq-live_example :
    Agrees (observe_bar (bar (pos 3) (pos 95)) traded) (observe (pos 95) guarded)
    × (reason_of (exit_on (bar (pos 3) (pos 95)) (observe_bar (bar (pos 3) (pos 95)) traded))
        ≡ breach (pos 95) (observe (pos 95) guarded))
exit_on-eq-live_example =
    exit_on-eq-live (pos 95) (bar (pos 3) (pos 95)) traded guarded refl
      (record { at_high = refl; at_low = refl })
      (record {
        direction = refl;
        stop_price = refl;
        take_profit_price = refl;
        trailing_stop_pct = refl;
        extreme_price = refl;
      })

abbrev report : CalibrationReport ℤ
report = record {
  bins =
      record { lower = pos 0; upper = pos 1; count = 2; mean_confidence = pos 0; hit_rate = pos 0 }
      ∷ [];
  sample_count = 2;
  brier = pos 0;
  ece = pos 0;
  mean_confidence = pos 0;
  hit_rate = pos 0;
}

reported : analyze_calibration pos_part (pos 0 ∷ pos 1 ∷ []) (false ∷ true ∷ []) 1 ≡ some report
unfolding analyze_calibration brier_score ◌+ℤ◌ ◌-ℤ◌ ◌*ℤ◌ fdiv
reported = refl

analyze_calibration-counts_example : (counts report.bins ≡ 2) × (report.sample_count ≡ 2)
analyze_calibration-counts_example =
    analyze_calibration-counts pos_part (pos 0 ∷ pos 1 ∷ []) (false ∷ true ∷ []) 1 reported
