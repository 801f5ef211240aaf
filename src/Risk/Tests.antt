-- ===== src/Risk/Tests.antt =====
-- A long at 100 with equity 10000, sized by the risk budget over the default stop distance.
use crypto_research_platform.Prelude.{true, ◌≡◌, refl, none, some, []}
use crypto_research_platform.Decimal.Int.{ℤ, pos, whole, whole-IsExact, ◌-ℤ◌, ◌*ℤ◌, fdiv}
use crypto_research_platform.Schemas.{Direction, DecisionAction, TradeDecision, OrderIntent}
use crypto_research_platform.Risk.Defs.{
  RiskLimits, RiskManager, resolve_stop, evaluate, evaluate_price, evaluate_at, conclude, order_for,
  approved_size, reasons,
}
use crypto_research_platform.Risk.Stops.{IsLosingSide, resolve_stop-IsLosingSide}
use crypto_research_platform.Risk.Gate.{IsSafeOrder, evaluate-IsSafeOrder}

abbrev limits : RiskLimits ℤ
limits = record {
  max_position_notional = pos 500;
  max_portfolio_leverage = pos 2;
  max_open_positions = 3;
  daily_loss_limit_pct = pos 5;
  risk_per_trade_pct = pos 1;
  min_confidence = pos 0;
  default_stop_distance_pct = pos 2;
  min_order_notional = pos 10;
  trailing_stop_pct = none;
  min_stop_distance_pct = pos 1;
}

abbrev manager : RiskManager ℤ
manager = record {
  limits = limits;
  starting_equity = pos 10000;
  is_paper = true;
  portfolio = none;
  approvals = 0;
  vetoes = 0;
}

abbrev wanted : TradeDecision ℤ
wanted = record {
  decision_id = 7;
  symbol = "BTC";
  action = DecisionAction.open_long;
  confidence = pos 1;
  weighted_confidence = pos 1;
  reference_price = some (pos 100);
  suggested_stop = some (pos 120);
  suggested_take_profit = none;
  contributing_signals = [];
  agent_weights = [];
  correlation_id = 9;
}

evaluated : (evaluate manager 8 wanted).1 ≡ some (order_for manager 8 wanted (pos 5) (pos 98))
unfolding evaluate ◌-ℤ◌ resolve_stop crypto_research_platform.Risk.Defs.correct_side
    crypto_research_platform.Schemas.direction_of_action
    crypto_research_platform.Risk.Defs.default_stop fdiv ◌*ℤ◌ reasons approved_size
evaluated = refl

resolve_stop-IsLosingSide_example :
    IsLosingSide Direction.long
      (pos 100)
      (resolve_stop limits (some (pos 120)) (pos 100) Direction.long)
unfolding ◌*ℤ◌ fdiv
resolve_stop-IsLosingSide_example =
    resolve_stop-IsLosingSide whole-IsExact limits (some (pos 120)) (pos 100) Direction.long refl

evaluate-IsSafeOrder_example :
    IsSafeOrder manager wanted (pos 100) (order_for manager 8 wanted (pos 5) (pos 98))
unfolding ◌*ℤ◌ fdiv
evaluate-IsSafeOrder_example =
    evaluate-IsSafeOrder whole-IsExact manager 8 wanted (pos 100)
      (record { risk_nonneg = refl; cap_nonneg = refl }) refl refl evaluated
