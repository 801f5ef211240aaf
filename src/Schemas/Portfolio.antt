-- ===== src/Schemas/Portfolio.antt =====
-- libs/schemas/portfolio.py and learning.py: positions, account snapshots, closures and outcomes.
use crypto_research_platform.Prelude.{
  ℕ, ◌+ℕ◌, String, Bool, Option, none, some, List, [], ◌∷◌, ◌==◌, nat_eq, string_eq, length,
  if◌then◌else◌,
}
use crypto_research_platform.Decimal.{Decimal, ◌-◌, ◌*◌, ◌/◌, of_ℕ, leb, ltb, eqb, max}
use crypto_research_platform.Schemas.Enums.{Direction, ExitReason, sign}

pub record Position (D : Type 0) : Type 0 where
  pub symbol : String
  pub direction : Direction
  pub size : D
  pub entry_price : D
  pub mark_price : D
  pub realized_pnl : D
  pub fees_paid : D
  pub opened_at : D
  pub updated_at : D
  pub stop_price : Option D
  pub take_profit_price : Option D
  pub trailing_stop_pct : Option D
  pub opening_correlation_id : Option ℕ
  pub opening_decision_id : Option ℕ

pub record PortfolioSnapshot (D : Type 0) : Type 0 where
  pub equity : D
  pub cash : D
  pub starting_equity : D
  pub day_start_equity : D
  pub realized_pnl : D
  pub unrealized_pnl : D
  pub fees_paid : D
  pub gross_notional : D
  pub positions : List (Position D)
  pub trade_count : ℕ
  pub win_count : ℕ
  pub loss_count : ℕ
  pub is_paper : Bool

pub record PositionClosed (D : Type 0) : Type 0 where
  pub symbol : String
  pub direction : Direction
  pub size : D
  pub entry_price : D
  pub exit_price : D
  pub realized_pnl : D
  pub fees_paid : D
  pub exit_reason : ExitReason
  pub opened_at : D
  pub closed_at : D
  pub opening_correlation_id : Option ℕ
  pub opening_decision_id : Option ℕ
  pub correlation_id : ℕ

pub record AgentOutcome (D : Type 0) : Type 0 where
  pub agent_name : String
  pub agent_version : String
  pub signal_id : ℕ
  pub symbol : String
  pub direction : Direction
  pub confidence : D
  pub realized_pnl : D
  pub was_correct : Bool
  pub brier_score : D
  pub exit_reason : ExitReason
  pub closed_at : D
  pub holding_period_s : D
  pub correlation_id : ℕ

module _ {D : Type 0} ⦃d : Decimal D⦄ where
  -- `Position.notional`
  unfoldable pub notional : Position D → D
  notional p = p.size * p.mark_price

  -- `Position.unrealized_pnl`
  unfoldable pub unrealized_pnl : Position D → D
  unfolding sign
  unrealized_pnl p = (p.mark_price - p.entry_price) * p.size * sign p.direction

  unfoldable pub leverage : PortfolioSnapshot D → D
  leverage s = if leb s.equity (of_ℕ 0) then of_ℕ 0 else s.gross_notional / s.equity

  unfoldable pub day_pnl_pct : PortfolioSnapshot D → D
  day_pnl_pct s =
      if leb s.day_start_equity (of_ℕ 0)
      then of_ℕ 0
      else (s.equity - s.day_start_equity) / s.day_start_equity * of_ℕ 100

  unfoldable pub total_return_pct : PortfolioSnapshot D → D
  total_return_pct s =
      if leb s.starting_equity (of_ℕ 0)
      then of_ℕ 0
      else (s.equity - s.starting_equity) / s.starting_equity * of_ℕ 100

  unfoldable pub win_rate : PortfolioSnapshot D → D
  win_rate s =
      let closed = s.win_count +ℕ s.loss_count in
      if closed == 0 then of_ℕ 0 else of_ℕ s.win_count / of_ℕ closed

  -- `PositionClosed.net_pnl`
  unfoldable pub net_pnl : PositionClosed D → D
  net_pnl c = c.realized_pnl - c.fees_paid

  unfoldable pub return_pct : PositionClosed D → D
  unfolding net_pnl
  return_pct c =
      let cost = c.entry_price * c.size in
      if eqb cost (of_ℕ 0) then of_ℕ 0 else net_pnl c / cost * of_ℕ 100

  unfoldable pub holding_period_s : PositionClosed D → D
  holding_period_s c = max (of_ℕ 0) (c.closed_at - c.opened_at)

  unfoldable pub was_profitable : PositionClosed D → Bool
  unfolding net_pnl
  was_profitable c = ltb (of_ℕ 0) (net_pnl c)

-- `PortfolioSnapshot.position_for`
unfoldable pub position_for : {D : Type 0} → String → List (Position D) → Option (Position D)
position_for symbol [] = none
position_for symbol (p ∷ ps) = if p.symbol == symbol then some p else position_for symbol ps

abbrev pub open_position_count : {D : Type 0} → PortfolioSnapshot D → ℕ
open_position_count s = length s.positions
