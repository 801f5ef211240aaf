-- ===== src/Schemas/Enums.antt =====
-- The enumerations of libs/schemas, with the parsing of the one that is read back from text.
use crypto_research_platform.Prelude.{
  String, Bool, true, false, Option, none, some, ◌==◌, string_eq, if◌then◌else◌,
}
use crypto_research_platform.Decimal.{Decimal, of_ℕ, leb, ◌-◌}

pub data Side : Type 0 where
  buy sell : Side

pub data Direction : Type 0 where
  long short flat : Direction

-- `a is b`
abbrev pub same_direction : Direction → Direction → Bool
same_direction Direction.long Direction.long = true
same_direction Direction.short Direction.short = true
same_direction Direction.flat Direction.flat = true
same_direction _ _ = false

abbrev pub is_buy : Side → Bool
is_buy Side.buy = true
is_buy Side.sell = false

abbrev pub is_long : Direction → Bool
is_long Direction.long = true
is_long _ = false

-- `Direction.sign`, as a decimal
unfoldable pub sign : {D : Type 0} ⦃d : Decimal D⦄ → Direction → D
sign Direction.long = of_ℕ 1
sign Direction.short = of_ℕ 0 - of_ℕ 1
sign Direction.flat = of_ℕ 0

-- `Direction.LONG if fill.side is Side.BUY else Direction.SHORT`
abbrev pub direction_of_side : Side → Direction
direction_of_side Side.buy = Direction.long
direction_of_side Side.sell = Direction.short

-- `Direction.from_score`
unfoldable pub from_score : {D : Type 0} ⦃d : Decimal D⦄ → D → D → Direction
from_score score threshold =
    if leb threshold score
    then Direction.long
    else if leb score (of_ℕ 0 - threshold)
    then Direction.short
    else Direction.flat

pub data DecisionAction : Type 0 where
  open_long open_short close hold : DecisionAction

unfoldable pub direction_of_action : DecisionAction → Direction
direction_of_action DecisionAction.open_long = Direction.long
direction_of_action DecisionAction.open_short = Direction.short
direction_of_action _ = Direction.flat

unfoldable pub from_direction : Direction → DecisionAction
from_direction Direction.long = DecisionAction.open_long
from_direction Direction.short = DecisionAction.open_short
from_direction Direction.flat = DecisionAction.hold

pub data OrderType : Type 0 where
  market limit : OrderType

pub data VetoReason : Type 0 where
  low_confidence max_position_notional max_open_positions max_leverage : VetoReason
  daily_loss_limit insufficient_equity size_below_minimum duplicate_exposure : VetoReason
  stale_decision no_market_data kill_switch internal_error : VetoReason

pub data ExitReason : Type 0 where
  stop_loss take_profit trailing_stop signal_reversal manual unknown : ExitReason

-- `reason.value`
unfoldable pub exit_reason_value : ExitReason → String
exit_reason_value ExitReason.stop_loss = "stop_loss"
exit_reason_value ExitReason.take_profit = "take_profit"
exit_reason_value ExitReason.trailing_stop = "trailing_stop"
exit_reason_value ExitReason.signal_reversal = "signal_reversal"
exit_reason_value ExitReason.manual = "manual"
exit_reason_value ExitReason.unknown = "unknown"

-- `ExitReason(text)`; `none` is the `ValueError`
unfoldable pub parse_exit_reason : String → Option ExitReason
parse_exit_reason t =
    if t == "stop_loss"
    then some ExitReason.stop_loss
    else if t == "take_profit"
    then some ExitReason.take_profit
    else if t == "trailing_stop"
    then some ExitReason.trailing_stop
    else if t == "signal_reversal"
    then some ExitReason.signal_reversal
    else if t == "manual"
    then some ExitReason.manual
    else if t == "unknown"
    then some ExitReason.unknown
    else none
