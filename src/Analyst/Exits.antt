-- ===== src/Analyst/Exits.antt =====
-- services/agents/market_analyst/agent.py: `_protective_levels`.
use crypto_research_platform.Prelude.{Option, none, some, List, string_eq, if◌then◌else◌}
use crypto_research_platform.Decimal.{Decimal, ◌+◌, ◌-◌, ◌*◌, ◌/◌, of_ℕ, leb, eqb, round}
use crypto_research_platform.Schemas.{
  Direction, is_long, same_direction, support, resistance, SupportResistanceLevel,
}
use crypto_research_platform.Analyst.Levels.{nearest_level}

module _ {D : Type 0} ⦃d : Decimal D⦄ where
  abbrev pub level_times : D → D → Option (SupportResistanceLevel D) → D
  level_times factor fallback none = fallback
  level_times factor fallback (some l) = l.price * factor

  -- `(atr_value * 1.5) if atr_value else price * 0.015`
  abbrev pub buffer_of : D → Option D → D
  buffer_of price none = price * (of_ℕ 15 / of_ℕ 1000)
  buffer_of price (some a) =
      if eqb a (of_ℕ 0) then price * (of_ℕ 15 / of_ℕ 1000) else a * (of_ℕ 15 / of_ℕ 10)

  abbrev pub long_levels :
      D → D → Option (SupportResistanceLevel D) → Option (SupportResistanceLevel D) → D × D
  long_levels price buffer below above =
      let stop = level_times (of_ℕ 999 / of_ℕ 1000) (price - buffer) below in
      let target = level_times (of_ℕ 999 / of_ℕ 1000) (price + of_ℕ 2 * buffer) above in
      (
        (if leb price stop then price - buffer else stop),
        (if leb target price then price + of_ℕ 2 * buffer else target),
      )

  abbrev pub short_levels :
      D → D → Option (SupportResistanceLevel D) → Option (SupportResistanceLevel D) → D × D
  short_levels price buffer below above =
      let stop = level_times (of_ℕ 1001 / of_ℕ 1000) (price + buffer) above in
      let target = level_times (of_ℕ 1001 / of_ℕ 1000) (price - of_ℕ 2 * buffer) below in
      (
        (if leb stop price then price + buffer else stop),
        (if leb price target then price - of_ℕ 2 * buffer else target),
      )

  abbrev pub quoted : D × D → Option D × Option D
  quoted (stop, target) =
      if leb target (of_ℕ 0)
      then (some (round 8 stop), none)
      else (some (round 8 stop), some (round 8 target))

  -- `_protective_levels`
  unfoldable pub protective_levels :
      Direction → D → List (SupportResistanceLevel D) → Option D → Option D × Option D
  protective_levels direction price levels atr_value =
      let buffer = buffer_of price atr_value in
      let below = nearest_level levels support in
      let above = nearest_level levels resistance in
      if same_direction direction Direction.flat
      then (none, none)
      else if leb price (of_ℕ 0)
      then (none, none)
      else quoted (
          if is_long direction
          then long_levels price buffer below above
          else short_levels price buffer below above)
