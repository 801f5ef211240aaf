-- ===== src/Risk/Defs.antt =====
-- `class RiskManagerAgent`: `evaluate`, `_resolve_stop`, `_veto` and `handle`. The rationale texts are
-- left out. A fresh order id is an argument.
use crypto_research_platform.Prelude.{
  ℕ, suc, leb as leb_ℕ, String, Bool, true, false, not, ◌&&◌, ◌||◌, Option, none, some, List, [],
  ◌∷◌, ◌++◌, if◌then◌else◌,
}
use crypto_research_platform.Decimal.{
  Decimal, ◌+◌, ◌-◌, ◌*◌, ◌/◌, of_ℕ, leb, ltb, abs, quantize_down,
}
use crypto_research_platform.Schemas.{
  Side, Direction, same_direction, is_long, direction_of_action, DecisionAction, OrderType,
  VetoReason, Position, PortfolioSnapshot, TradeDecision, RiskVerdict, OrderIntent, day_pnl_pct,
  position_for, open_position_count, Topic, Event, Publication,
}

pub record RiskLimits (D : Type 0) : Type 0 where
  pub max_position_notional : D
  pub max_portfolio_leverage : D
  pub max_open_positions : ℕ
  pub daily_loss_limit_pct : D
  pub risk_per_trade_pct : D
  pub min_confidence : D
  pub default_stop_distance_pct : D
  pub min_order_notional : D
  pub trailing_stop_pct : Option D
  pub min_stop_distance_pct : D

pub record RiskManager (D : Type 0) : Type 0 where
  pub limits : RiskLimits D
  pub starting_equity : D
  pub is_paper : Bool
  pub portfolio : Option (PortfolioSnapshot D)
  pub approvals : ℕ
  pub vetoes : ℕ

abbrev pub reason_if : Bool → VetoReason → List VetoReason
reason_if true r = r ∷ []
reason_if false r = []

abbrev pub is_none : {A : Type 0} → Option A → Bool
is_none none = true
is_none (some a) = false

abbrev pub is_hold : DecisionAction → Bool
is_hold DecisionAction.hold = true
is_hold _ = false

module _ {D : Type 0} ⦃d : Decimal D⦄ where
  -- What the manager knows of the account, with its fallbacks while no snapshot has come.
  abbrev pub equity_of : RiskManager D → Option (PortfolioSnapshot D) → D
  equity_of m none = m.starting_equity
  equity_of m (some s) = s.equity

  abbrev pub known_equity : RiskManager D → D
  known_equity m = equity_of m m.portfolio

  abbrev pub loss_limit_hit : RiskLimits D → Option (PortfolioSnapshot D) → Bool
  loss_limit_hit l none = false
  loss_limit_hit l (some s) = leb (day_pnl_pct s) (of_ℕ 0 - l.daily_loss_limit_pct)

  abbrev pub held : String → Option (PortfolioSnapshot D) → Option (Position D)
  held symbol none = none
  held symbol (some s) = position_for symbol s.positions

  abbrev pub opposed : Direction → Option (Position D) → Bool
  opposed dir none = false
  opposed dir (some p) = not (same_direction p.direction dir)

  abbrev pub count_open : Option (PortfolioSnapshot D) → ℕ
  count_open none = 0
  count_open (some s) = open_position_count s

  abbrev pub gross_of : Option (PortfolioSnapshot D) → D
  gross_of none = of_ℕ 0
  gross_of (some s) = s.gross_notional

  -- `_resolve_stop`
  unfoldable pub default_stop : RiskLimits D → D → Direction → D
  default_stop l price dir =
      let offset = price * l.default_stop_distance_pct / of_ℕ 100 in
      if is_long dir then price - offset else price + offset

  unfoldable pub correct_side : D → D → Direction → Bool
  correct_side suggested price Direction.long = ltb suggested price
  correct_side suggested price Direction.short = ltb price suggested
  correct_side suggested price Direction.flat = false

  unfoldable pub resolve_stop : RiskLimits D → Option D → D → Direction → D
  resolve_stop l none price dir = default_stop l price dir
  resolve_stop l (some suggested) price dir =
      let distance_pct = abs (price - suggested) / price * of_ℕ 100 in
      if ltb (of_ℕ 0) suggested
        && (correct_side suggested price dir && leb l.min_stop_distance_pct distance_pct)
      then suggested
      else default_stop l price dir

  -- The size before rounding: the risk budget over the stop distance, under the two caps.
  unfoldable pub risk_size : RiskLimits D → D → D → D
  risk_size l equity stop_distance = equity * l.risk_per_trade_pct / of_ℕ 100 / stop_distance

  unfoldable pub capped_size : RiskLimits D → D → D → D
  capped_size l price size =
      if ltb l.max_position_notional (size * price) then l.max_position_notional / price else size

  unfoldable pub headroom : RiskLimits D → D → D → D
  headroom l equity gross = equity * l.max_portfolio_leverage - gross

  unfoldable pub levered_size : D → D → D → D
  levered_size room price size =
      if leb room (of_ℕ 0) then size else if ltb room (size * price) then room / price else size

  unfoldable pub approved_size : RiskLimits D → D → D → D → D → D
  unfolding risk_size capped_size headroom levered_size
  approved_size l equity gross price stop_distance = quantize_down 8 (
      levered_size (headroom l equity gross) price
        (capped_size l price (risk_size l equity stop_distance)))

  unfoldable pub reasons :
      RiskLimits D → Option (PortfolioSnapshot D) → TradeDecision D → D → D → D → List VetoReason
  unfolding headroom
  reasons l snap dec equity size notional =
      let dir = direction_of_action dec.action in
      let existing = held dec.symbol snap in
      reason_if (ltb dec.weighted_confidence l.min_confidence) VetoReason.low_confidence
      ++ (reason_if (loss_limit_hit l snap) VetoReason.daily_loss_limit
          ++ (reason_if (opposed dir existing) VetoReason.duplicate_exposure
              ++ (reason_if (is_none existing && leb_ℕ l.max_open_positions (count_open snap))
                    VetoReason.max_open_positions
                  ++ (reason_if (leb (headroom l equity (gross_of snap)) (of_ℕ 0))
                        VetoReason.max_leverage
                      ++ reason_if (leb size (of_ℕ 0) || ltb notional l.min_order_notional)
                          VetoReason.size_below_minimum))))

  unfoldable pub veto : TradeDecision D → List VetoReason → D → RiskVerdict D
  veto dec rs equity = record {
    decision_id = dec.decision_id;
    symbol = dec.symbol;
    approved = false;
    veto_reasons = rs;
    approved_size = of_ℕ 0;
    approved_notional = of_ℕ 0;
    stop_price = none;
    take_profit_price = none;
    risk_amount = of_ℕ 0;
    equity_at_decision = equity;
    correlation_id = dec.correlation_id;
  }

  unfoldable pub approval : TradeDecision D → D → D → D → D → D → RiskVerdict D
  approval dec size notional stop stop_distance equity = record {
    decision_id = dec.decision_id;
    symbol = dec.symbol;
    approved = true;
    veto_reasons = [];
    approved_size = size;
    approved_notional = notional;
    stop_price = some stop;
    take_profit_price = dec.suggested_take_profit;
    risk_amount = quantize_down 2 (size * stop_distance);
    equity_at_decision = equity;
    correlation_id = dec.correlation_id;
  }

  unfoldable pub order_for : RiskManager D → ℕ → TradeDecision D → D → D → OrderIntent D
  order_for m order_id dec size stop = record {
    order_id = order_id;
    decision_id = dec.decision_id;
    symbol = dec.symbol;
    side = if is_long (direction_of_action dec.action) then Side.buy else Side.sell;
    size = size;
    order_type = OrderType.market;
    reduce_only = false;
    stop_price = some stop;
    take_profit_price = dec.suggested_take_profit;
    trailing_stop_pct = m.limits.trailing_stop_pct;
    exit_reason = none;
    is_paper = m.is_paper;
    correlation_id = dec.correlation_id;
  }

  -- The end of `evaluate`: veto with every reason, or approve.
  unfoldable pub conclude :
      RiskManager D
      → ℕ
      → TradeDecision D
      → D
      → D
      → D
      → List VetoReason
      → D
      → D
      → RiskVerdict D × Option (OrderIntent D)
  unfolding veto approval order_for
  conclude m order_id dec equity stop stop_distance [] size notional = (
    approval dec size notional stop stop_distance equity,
    some (order_for m order_id dec size stop),
  )
  conclude m order_id dec equity stop stop_distance (r ∷ rs) size notional =
      (veto dec (r ∷ rs) equity, none)

  -- `evaluate` from the point where the reference price is known.
  unfoldable pub evaluate_at :
      RiskManager D → ℕ → TradeDecision D → D → D → RiskVerdict D × Option (OrderIntent D)
  unfolding veto approval order_for conclude
  evaluate_at m order_id dec equity price =
      let l = m.limits in
      let stop = resolve_stop l dec.suggested_stop price (direction_of_action dec.action) in
      let stop_distance = abs (price - stop) in
      let size = approved_size l equity (gross_of m.portfolio) price stop_distance in
      let notional = quantize_down 2 (size * price) in
      if leb stop_distance (of_ℕ 0)
      then (veto dec (VetoReason.no_market_data ∷ []) (of_ℕ 0), none)
      else conclude m order_id dec equity stop stop_distance
          (reasons l m.portfolio dec equity size notional) size notional

  unfoldable pub evaluate_price :
      RiskManager D → ℕ → TradeDecision D → D → Option D → RiskVerdict D × Option (OrderIntent D)
  unfolding veto evaluate_at
  evaluate_price m order_id dec equity none =
      (veto dec (VetoReason.no_market_data ∷ []) (of_ℕ 0), none)
  evaluate_price m order_id dec equity (some price) =
      if leb price (of_ℕ 0)
      then (veto dec (VetoReason.no_market_data ∷ []) (of_ℕ 0), none)
      else evaluate_at m order_id dec equity price

  unfoldable pub evaluate :
      RiskManager D → ℕ → TradeDecision D → RiskVerdict D × Option (OrderIntent D)
  unfolding veto evaluate_price
  evaluate m order_id dec =
      let equity = known_equity m in
      if is_hold dec.action
      then (veto dec (VetoReason.low_confidence ∷ []) (of_ℕ 0), none)
      else if leb equity (of_ℕ 0)
      then (veto dec (VetoReason.insufficient_equity ∷ []) (of_ℕ 0), none)
      else evaluate_price m order_id dec equity dec.reference_price

  abbrev pub order_publication : Option (OrderIntent D) → List (Publication D)
  order_publication none = []
  order_publication (some o) = (Topic.order_intents, Event.order o) ∷ []

  unfoldable pub handle : ℕ → Event D → RiskManager D → RiskManager D × List (Publication D)
  handle order_id (Event.portfolio s) m = (record m { portfolio = some s }, [])
  handle order_id (Event.decision dec) m =
      let (v, o) = evaluate m order_id dec in
      (
        (if v.approved
            then record m { approvals = suc m.approvals }
            else record m { vetoes = suc m.vetoes }),
        (Topic.risk_verdicts, Event.verdict v) ∷ order_publication o,
      )
  handle order_id _ m = (m, [])
