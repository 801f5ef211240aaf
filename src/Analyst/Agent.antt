-- ===== src/Analyst/Agent.antt =====
-- services/agents/market_analyst/agent.py: `analyze`. The features and the rationale of a signal are left
-- out; a fresh event id and the clock are arguments.
use crypto_research_platform.Prelude.{
  ℕ, String, false, Option, none, some, List, [], ◌∷◌, map, string_eq, if◌then◌else◌,
}
use crypto_research_platform.Prelude.Dict.{Dict}
use crypto_research_platform.Decimal.{Decimal, ◌+◌, of_ℕ, ltb, eqb, min}
use crypto_research_platform.Schemas.{
  Candle, Direction, same_direction, from_score, SupportResistanceLevel, TimeframeAnalysis,
  AgentSignal,
}
use crypto_research_platform.Runtime.Context.{AgentContext, candles_for, reference_price}
use crypto_research_platform.Analyst.Levels.{filter_by, detect_levels}
use crypto_research_platform.Analyst.Scores.{AnalystParams}
use crypto_research_platform.Analyst.Timeframe.{◌>>=◌, score, analyze_timeframe}
use crypto_research_platform.Analyst.Confluence.{
  is_scored, weight_of, agreement, confluence, confidence,
}
use crypto_research_platform.Analyst.Exits.{protective_levels}

module _ {D : Type 0} ⦃d : Decimal D⦄ where
  -- The first timeframe of the greatest weight.
  abbrev pub heaviest_from :
      AnalystParams D → TimeframeAnalysis D → List (TimeframeAnalysis D) → TimeframeAnalysis D
  heaviest_from p best [] = best
  heaviest_from p best (a ∷ xs) =
      heaviest_from p (if ltb (weight_of p best) (weight_of p a) then a else best) xs

  -- `context.reference_price or Decimal(anchor.close)`: a price of zero counts as none.
  abbrev pub price_or : D → Option D → D
  price_or fallback none = fallback
  price_or fallback (some a) = if eqb a (of_ℕ 0) then fallback else a

  abbrev pub analyses_of :
      (List D → D)
      → AnalystParams D
      → Dict String (List (Candle D))
      → Option (List (TimeframeAnalysis D))
  analyses_of pstdev p [] = some []
  analyses_of pstdev p ((interval, []) ∷ rest) = analyses_of pstdev p rest
  analyses_of pstdev p ((interval, c ∷ cs) ∷ rest) = do
    a ← analyze_timeframe pstdev p interval (c ∷ cs)
    xs ← analyses_of pstdev p rest
    some (a ∷ xs)

  -- The direction, the capped confidence and the price of a signal.
  abbrev pub confidence_of : AnalystParams D → D → D → D
  confidence_of p score agreement =
      let raw = confidence p score agreement in
      if same_direction (from_score score p.min_abs_score) Direction.flat
      then min raw p.min_abs_score
      else raw

  abbrev pub price_of : AgentContext D → TimeframeAnalysis D → D
  price_of c anchor = price_or anchor.close (reference_price c)

  abbrev pub emitted :
      AnalystParams D
      → String
      → String
      → ℕ
      → D
      → AgentContext D
      → D × D
      → TimeframeAnalysis D
      → List (SupportResistanceLevel D)
      → AgentSignal D
  emitted p name version fresh_id now c (score, agreement) anchor levels =
      let direction = from_score score p.min_abs_score in
      let guards = protective_levels direction (price_of c anchor) levels anchor.atr in
      record {
        event_id = fresh_id;
        agent_name = name;
        agent_version = version;
        symbol = c.symbol;
        direction = direction;
        confidence = confidence_of p score agreement;
        reference_price = some (price_of c anchor);
        suggested_stop = guards.0;
        suggested_take_profit = guards.1;
        valid_until = some (now + p.signal_ttl_s);
        degraded = false;
        correlation_id = fresh_id;
      }

  unfoldable pub signal_of :
      AnalystParams D
      → String
      → String
      → ℕ
      → D
      → AgentContext D
      → D × D
      → TimeframeAnalysis D
      → Option (AgentSignal D)
  signal_of p name version fresh_id now c view anchor =
      let candles = candles_for anchor.interval c in
      detect_levels (map (λ k. k.high) candles) (map (λ k. k.low) candles) (price_of c anchor)
        p.swing_lookback p.level_cluster_pct p.support_resistance_levels
      >>= λ levels. some (emitted p name version fresh_id now c view anchor levels)

  -- The outer `Option` is an exception, the inner one is `None`: still warming up.
  abbrev pub with_anchor :
      AnalystParams D
      → String
      → String
      → ℕ
      → D
      → AgentContext D
      → List (TimeframeAnalysis D)
      → List (TimeframeAnalysis D)
      → Option (Option (AgentSignal D))
  with_anchor p name version fresh_id now c analyses [] = some none
  with_anchor p name version fresh_id now c analyses (a ∷ xs) =
      signal_of p name version fresh_id now c (confluence p analyses) (heaviest_from p a xs)
      >>= λ s. some (some s)

  unfoldable pub analyze :
      (List D → D)
      → AnalystParams D
      → String
      → String
      → ℕ
      → D
      → AgentContext D
      → Option (Option (AgentSignal D))
  unfolding signal_of
  analyze pstdev p name version fresh_id now c = analyses_of pstdev p c.candles >>= λ analyses.
      with_anchor p name version fresh_id now c analyses (filter_by (is_scored p) analyses)
