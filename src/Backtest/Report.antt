-- ===== src/Backtest/Report.antt =====
-- services/backtest/replay.py: the figures of `ReplayResult` over the trades of a run.
use crypto_research_platform.Prelude.{
  ℕ, suc, ◌+ℕ◌, String, Bool, not, Option, none, some, List, [], ◌∷◌, map, length, string_eq,
  if◌then◌else◌,
}
use crypto_research_platform.Prelude.Dict.{Dict, lookup, insert}
use crypto_research_platform.Decimal.{Decimal, ◌-◌, ◌/◌, of_ℕ, ltb, eqb, sum}
use crypto_research_platform.Schemas.{exit_reason_value}
use crypto_research_platform.Analyst.Levels.{filter_by}
use crypto_research_platform.Portfolio.{sorted_items}
use crypto_research_platform.Backtest.Trade.{ReplayTrade, net_pnl, was_correct}

abbrev pub count_of : Option ℕ → ℕ
count_of none = 0
count_of (some n) = n

module _ {D : Type 0} where
  unfoldable pub closed_trades : List (ReplayTrade D) → List (ReplayTrade D)
  closed_trades trades = filter_by (λ t. not t.forced_close) trades

  abbrev pub counted : List (ReplayTrade D) → Dict String ℕ → Dict String ℕ
  counted [] counts = counts
  counted (t ∷ ts) counts =
      let reason = exit_reason_value t.exit_reason in
      counted ts (insert reason (suc (count_of (lookup reason counts))) counts)

  -- `dict(sorted(counts.items()))`
  unfoldable pub exit_breakdown : List (ReplayTrade D) → Dict String ℕ
  exit_breakdown trades = sorted_items (counted trades [])

module _ {D : Type 0} ⦃d : Decimal D⦄ where
  -- The mean of a number over the trades, zero when there are none.
  abbrev pub share_of : (ReplayTrade D → Bool) → List (ReplayTrade D) → D
  share_of test [] = of_ℕ 0
  share_of test (t ∷ ts) = of_ℕ (length (filter_by test (t ∷ ts))) / of_ℕ (length (t ∷ ts))

  unfoldable pub hit_rate : List (ReplayTrade D) → D
  hit_rate trades = share_of was_correct trades

  unfoldable pub gross_hit_rate : List (ReplayTrade D) → D
  gross_hit_rate trades = share_of (λ t. ltb (of_ℕ 0) t.gross_pnl) trades

  unfoldable pub total_net_pnl : List (ReplayTrade D) → D
  total_net_pnl trades = sum (map net_pnl trades)

  unfoldable pub total_gross_pnl : List (ReplayTrade D) → D
  total_gross_pnl trades = sum (map (λ t. t.gross_pnl) trades)

  unfoldable pub total_costs : List (ReplayTrade D) → D
  total_costs trades = sum (map (λ t. t.costs) trades)

  -- `none` is infinity.
  unfoldable pub profit_factor : List (ReplayTrade D) → Option D
  profit_factor trades =
      let wins = sum (map net_pnl (filter_by (λ t. ltb (of_ℕ 0) (net_pnl t)) trades)) in
      let losses = of_ℕ 0 - sum (map net_pnl (filter_by (λ t. ltb (net_pnl t) (of_ℕ 0)) trades)) in
      if eqb losses (of_ℕ 0)
      then (if ltb (of_ℕ 0) wins then none else some (of_ℕ 0))
      else some (wins / losses)

  abbrev pub bars_total : List (ReplayTrade D) → ℕ
  bars_total [] = 0
  bars_total (t ∷ ts) = t.bars_held +ℕ bars_total ts

  unfoldable pub average_bars_held : List (ReplayTrade D) → D
  average_bars_held [] = of_ℕ 0
  average_bars_held (t ∷ ts) = of_ℕ (bars_total (t ∷ ts)) / of_ℕ (length (t ∷ ts))
