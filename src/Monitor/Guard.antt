-- ===== src/Monitor/Guard.antt =====
-- `class ProtectedPosition`: the guarded position and its levels.
use crypto_research_platform.Prelude.{
  ℕ, String, Bool, true, false, Option, none, some, if◌then◌else◌,
}
use crypto_research_platform.Decimal.{Decimal, ◌+◌, ◌-◌, ◌*◌, ◌/◌, of_ℕ, leb, ltb, min, max}
use crypto_research_platform.Schemas.{Direction, is_long, ExitReason, Position}

pub record ProtectedPosition (D : Type 0) : Type 0 where
  pub symbol : String
  pub direction : Direction
  pub size : D
  pub entry_price : D
  pub stop_price : Option D
  pub take_profit_price : Option D
  pub trailing_stop_pct : Option D
  pub extreme_price : Option D
  pub exit_pending : Bool
  pub correlation_id : Option ℕ
  pub decision_id : Option ℕ
  pub opened_at : D
  pub updated_at : D

module _ {D : Type 0} ⦃d : Decimal D⦄ where
  abbrev pub watermark : Direction → D → Option D → D
  watermark dir price none = price
  watermark dir price (some e) = if is_long dir then max e price else min e price

  unfoldable pub observe : D → ProtectedPosition D → ProtectedPosition D
  observe price p =
      if leb price (of_ℕ 0)
      then p
      else record p { extreme_price = some (watermark p.direction price p.extreme_price) }

  abbrev pub trail : Direction → Option D → Option D → Option D
  trail dir (some pct) (some e) =
      if is_long dir
      then some (e * (of_ℕ 1 - pct / of_ℕ 100))
      else some (e * (of_ℕ 1 + pct / of_ℕ 100))
  trail dir _ _ = none

  unfoldable pub trailing_stop : ProtectedPosition D → Option D
  trailing_stop p = trail p.direction p.trailing_stop_pct p.extreme_price

  abbrev pub tighter : Direction → Option D → Option D → Option D
  tighter dir none trailing = trailing
  tighter dir (some fixed) none = some fixed
  tighter dir (some fixed) (some trailing) =
      some (if is_long dir then max fixed trailing else min fixed trailing)

  unfoldable pub effective_stop : ProtectedPosition D → Option D
  unfolding trailing_stop
  effective_stop p = tighter p.direction p.stop_price (trailing_stop p)

  abbrev pub stop_hit : Direction → D → Option D → Bool
  stop_hit dir price none = false
  stop_hit dir price (some stop) = if is_long dir then leb price stop else leb stop price

  abbrev pub target_hit : Direction → D → Option D → Bool
  target_hit dir price none = false
  target_hit dir price (some target) = if is_long dir then leb target price else leb price target

  -- `is_trailing`: the trailing stop is the one that was hit.
  abbrev pub by_trail : Direction → Option D → Option D → Bool
  by_trail dir none fixed = false
  by_trail dir (some trailing) none = true
  by_trail dir (some trailing) (some fixed) =
      if is_long dir then ltb fixed trailing else ltb trailing fixed

  unfoldable pub breach : D → ProtectedPosition D → Option ExitReason
  unfolding effective_stop
  breach price p =
      if stop_hit p.direction price (effective_stop p)
      then (if by_trail p.direction (trailing_stop p) p.stop_price
          then some ExitReason.trailing_stop
          else some ExitReason.stop_loss)
      else if target_hit p.direction price p.take_profit_price
      then some ExitReason.take_profit
      else none

  unfoldable pub from_position : D → Position D → ProtectedPosition D
  from_position now p = record {
    symbol = p.symbol;
    direction = p.direction;
    size = p.size;
    entry_price = p.entry_price;
    stop_price = p.stop_price;
    take_profit_price = p.take_profit_price;
    trailing_stop_pct = p.trailing_stop_pct;
    extreme_price = some p.mark_price;
    exit_pending = false;
    correlation_id = p.opening_correlation_id;
    decision_id = p.opening_decision_id;
    opened_at = p.opened_at;
    updated_at = now;
  }
