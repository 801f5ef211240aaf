-- ===== src/Learning/Tests.antt =====
-- A losing long of 2 that an analyst of confidence 1 had called.
use crypto_research_platform.Prelude.{ℕ, false, none, some, [], ◌∷◌, List, arith}
use crypto_research_platform.Decimal.Int.{ℤ, pos, negsuc, whole}
use crypto_research_platform.Schemas.{Direction, ExitReason, AgentSignal, PositionClosed, Event}
use crypto_research_platform.Learning.Defs.{OutcomeRecorder, handle}
use crypto_research_platform.Learning.Attribution.{IsBounded, handle-IsBounded}

abbrev signal : AgentSignal ℤ
signal = record {
  event_id = 3;
  agent_name = "analyst";
  agent_version = "1";
  symbol = "BTC";
  direction = Direction.long;
  confidence = pos 1;
  reference_price = none;
  suggested_stop = none;
  suggested_take_profit = none;
  valid_until = none;
  degraded = false;
  correlation_id = 9;
}

abbrev closure : PositionClosed ℤ
closure = record {
  symbol = "BTC";
  direction = Direction.long;
  size = pos 2;
  entry_price = pos 100;
  exit_price = pos 95;
  realized_pnl = negsuc 9;
  fees_paid = pos 2;
  exit_reason = ExitReason.stop_loss;
  opened_at = pos 10;
  closed_at = pos 40;
  opening_correlation_id = some 9;
  opening_decision_id = some 7;
  correlation_id = 9;
}

abbrev recorder : OutcomeRecorder ℤ
recorder = record {
  attribute_degraded_signals = false;
  signals = [];
  signals_by_correlation = [];
  decisions = [];
  outcomes_recorded = 0;
  closures_seen = 0;
  unattributed = 0;
}

abbrev stored : ℕ → List (AgentSignal ℤ)
stored correlation_id = signal ∷ []

handle-IsBounded_example : IsBounded (handle stored (Event.closure closure) recorder).0
handle-IsBounded_example =
    handle-IsBounded stored (Event.closure closure) recorder
      (record { signals = omega arith; by_correlation = omega arith; decisions = omega arith })
