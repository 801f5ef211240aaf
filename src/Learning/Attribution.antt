-- ===== src/Learning/Attribution.antt =====
-- The indexes of the outcome recorder.
use crypto_research_platform.Prelude.{
  ℕ, ◌≤ℕ◌, Option, none, some, List, [], ◌∷◌, ◌++◌, length, nat_eq, length-drop_excess,
}
use crypto_research_platform.Prelude.Dict.{Dict, lookup, insert}
use crypto_research_platform.Decimal.{Decimal}
use crypto_research_platform.Schemas.{AgentSignal, PositionClosed, AgentOutcome, Event}
use crypto_research_platform.Learning.Defs.{
  OutcomeRecorder, ids_or_empty, index_limit, trim, index_signal, index_decision, score_signals,
  scored, attribute_to, attribute, signals_for, handle,
}

trim_bound : {V : Type 0} (limit : ℕ) (index : Dict ℕ V) → length (trim limit index) ≤ℕ limit
unfolding trim
trim_bound limit index = length-drop_excess limit index

module _ {D : Type 0} ⦃d : Decimal D⦄ where
  -- Every index is within its bound.
  pub record IsBounded (r : OutcomeRecorder D) : Type 0 where
    pub signals : length r.signals ≤ℕ index_limit
    pub by_correlation : length r.signals_by_correlation ≤ℕ index_limit
    pub decisions : length r.decisions ≤ℕ index_limit

  attribute_to-IsBounded :
      (c : PositionClosed D) (ss : List (AgentSignal D)) (r : OutcomeRecorder D)
      → IsBounded r
      → IsBounded (attribute_to c ss r).0
  attribute_to-IsBounded c [] r b = record {
    signals = b.signals;
    by_correlation = b.by_correlation;
    decisions = b.decisions;
  }
  attribute_to-IsBounded c (s ∷ ss) r b =
      of_score (score_signals r.attribute_degraded_signals c (s ∷ ss))
    where
      of_score : (o : Option (List (AgentOutcome D))) → IsBounded (scored r o).0
      of_score none = b
      of_score (some os) = record {
        signals = b.signals;
        by_correlation = b.by_correlation;
        decisions = b.decisions;
      }

  -- Whatever event arrives, the three indexes stay within their bound.
  pub handle-IsBounded :
      (stored : ℕ → List (AgentSignal D)) (e : Event D) (r : OutcomeRecorder D)
      → IsBounded r
      → IsBounded (handle stored e r).0
  unfolding handle attribute index_signal index_decision
  handle-IsBounded stored (Event.signal s) r b = record {
    signals = trim_bound index_limit (insert s.event_id s r.signals);
    by_correlation = trim_bound index_limit (
        insert s.correlation_id
          (ids_or_empty (lookup s.correlation_id r.signals_by_correlation) ++ (s.event_id ∷ []))
          r.signals_by_correlation);
    decisions = b.decisions;
  }
  handle-IsBounded stored (Event.decision dec) r b = record {
    signals = b.signals;
    by_correlation = b.by_correlation;
    decisions = trim_bound index_limit (insert dec.correlation_id dec r.decisions);
  }
  handle-IsBounded stored (Event.closure c) r b =
      attribute_to-IsBounded c (signals_for stored c.opening_correlation_id r) _
        (record { signals = b.signals; by_correlation = b.by_correlation; decisions = b.decisions })
  handle-IsBounded stored (Event.candle _) r b = b
  handle-IsBounded stored (Event.trade _) r b = b
  handle-IsBounded stored (Event.book _) r b = b
  handle-IsBounded stored (Event.perp_metrics _) r b = b
  handle-IsBounded stored (Event.funding _) r b = b
  handle-IsBounded stored (Event.verdict _) r b = b
  handle-IsBounded stored (Event.order _) r b = b
  handle-IsBounded stored (Event.fill _) r b = b
  handle-IsBounded stored (Event.portfolio _) r b = b
  handle-IsBounded stored (Event.outcome _) r b = b
