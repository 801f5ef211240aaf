-- ===== src/Analyst/Confluence.antt =====
-- services/agents/market_analyst/agent.py: `_confluence` and `_confidence`.
use crypto_research_platform.Prelude.{
  Bool, Option, none, some, List, [], ◌∷◌, length, string_eq, leb as leb_ℕ, if◌then◌else◌,
}
use Prim.Native.Nat.{◌-◌ as sub_ℕ, max as max_ℕ}
use crypto_research_platform.Prelude.Dict.{lookup}
use crypto_research_platform.Decimal.{
  Decimal, ◌+◌, ◌-◌, ◌*◌, ◌/◌, of_ℕ, leb, ltb, min, max, abs, round,
}
use crypto_research_platform.Schemas.{TimeframeAnalysis}
use crypto_research_platform.Analyst.Indicators.{clamped}
use crypto_research_platform.Analyst.Levels.{filter_by}
use crypto_research_platform.Analyst.Scores.{AnalystParams, required_bars, percent}
use crypto_research_platform.Analyst.Timeframe.{score}

module _ {D : Type 0} ⦃d : Decimal D⦄ where
  abbrev pub is_scored : AnalystParams D → TimeframeAnalysis D → Bool
  is_scored p a = leb_ℕ (required_bars p) a.candles_used

  abbrev pub or_tenth : Option D → D
  or_tenth none = percent 10
  or_tenth (some w) = w

  abbrev pub weight_of : AnalystParams D → TimeframeAnalysis D → D
  weight_of p a = or_tenth (lookup a.interval p.timeframe_weights)

  abbrev pub total_weight : AnalystParams D → List (TimeframeAnalysis D) → D
  total_weight p [] = of_ℕ 0
  total_weight p (a ∷ xs) = weight_of p a + total_weight p xs

  abbrev pub weighted_sum : AnalystParams D → List (TimeframeAnalysis D) → D
  weighted_sum p [] = of_ℕ 0
  weighted_sum p (a ∷ xs) = weight_of p a * a.composite_score + weighted_sum p xs

  abbrev pub is_directional : TimeframeAnalysis D → Bool
  is_directional a = leb (percent 5) (abs a.composite_score)

  abbrev pub is_positive : TimeframeAnalysis D → Bool
  is_positive a = ltb (of_ℕ 0) a.composite_score

  unfoldable pub agreement : List (TimeframeAnalysis D) → D
  agreement [] = of_ℕ 0
  agreement (a ∷ xs) =
      let n = length (a ∷ xs) in
      let positives = length (filter_by is_positive (a ∷ xs)) in
      let share = of_ℕ (max_ℕ positives (sub_ℕ n positives)) / of_ℕ n in
      (share - of_ℕ 1 / of_ℕ 2) * of_ℕ 2

  -- `_confluence` over the timeframes with enough bars.
  unfoldable pub confluence_of : AnalystParams D → List (TimeframeAnalysis D) → D × D
  unfolding agreement
  confluence_of p scored = if leb (total_weight p scored) (of_ℕ 0) then (of_ℕ 0, of_ℕ 0) else (
    clamped (weighted_sum p scored / total_weight p scored),
    max (of_ℕ 0) (min (of_ℕ 1) (agreement (filter_by is_directional scored))),
  )

  unfoldable pub confluence : AnalystParams D → List (TimeframeAnalysis D) → D × D
  unfolding confluence_of
  confluence p analyses = confluence_of p (filter_by (is_scored p) analyses)

  -- `_confidence`
  unfoldable pub confidence : AnalystParams D → D → D → D
  confidence p score agreement =
      let conviction = min (of_ℕ 1) (abs score / p.full_conviction_score) in
      round 4 (conviction * (percent 60 + percent 40 * agreement))
