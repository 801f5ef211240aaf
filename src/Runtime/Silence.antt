-- ===== src/Runtime/Silence.antt =====
-- A failing invocation of a signal agent, and what the decision engine makes of it.
use crypto_research_platform.Prelude.{
  suc, String, ◌≡◌, refl, inl, inr, true, some, [], ◌∷◌, string_eq, ◌==◌, Bool-cases,
}
use crypto_research_platform.Decimal.{Decimal}
use crypto_research_platform.Schemas.{AgentSignal, Topic, Event}
use crypto_research_platform.Engine.{Engine, Reading, done, raised, is_actionable, decide, handle}
use crypto_research_platform.Runtime.Context.{ContextBuilder}
use crypto_research_platform.Runtime.Agent.{
  Message, outcome, SignalAgent, neutral, symbol_of, handle_market, on_error, service,
}

module _ {D : Type 0} ⦃d : Decimal D⦄ where
  -- A neutral signal makes no decision, whatever the engine's state.
  degraded_ignored :
      (r : Reading D) (s : AgentSignal D) (e : Engine D)
      → s.degraded ≡ true
      → handle r (Event.signal s) e ≡ done (record e { signals_seen = suc e.signals_seen }) []
  unfolding handle decide is_actionable
  degraded_ignored r s e h = elim (Bool-cases (s.agent_name == e.params.passthrough_agent)) [
    | inl listened ↦ simp (listened, h) refl
    | inr other ↦ simp (other) refl
  ]

  -- When the handling of an event about a symbol raises, the agent publishes exactly one signal, for
  -- that symbol and under the correlation id of the event; and the decision engine, whatever its
  -- state, only counts it: it publishes no decision.
  pub outcome_failure :
      (a : SignalAgent D) (m : Message D) (b : ContextBuilder D) (r : Reading D) (e : Engine D)
      {b' : ContextBuilder D} {symbol : String}
      → handle_market a m.reading m.topic m.event b ≡ raised b'
      → symbol_of m.event ≡ some symbol
      → (s : AgentSignal D) × (outcome (service a) m b
          ≡ (b', (Topic.agent_signals, Event.signal s) ∷ []))
        × (s.symbol ≡ symbol)
        × (s.correlation_id ≡ m.correlation_id)
        × (handle r (Event.signal s) e ≡ done (record e { signals_seen = suc e.signals_seen }) [])
  unfolding outcome on_error neutral
  outcome_failure a m b r e {b'} {symbol} h k =
      let n = neutral m.reading a.name a.version symbol m.correlation_id a.signal_ttl_s in
      (n, simp (h, k) refl, refl, refl, degraded_ignored r n e refl)
