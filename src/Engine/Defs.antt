-- ===== src/Engine/Defs.antt =====
-- services/decision_engine/engine.py: `class DecisionEngine`. Fresh ids and the readings of the wall
-- clock and of the monotonic clock are arguments.
use crypto_research_platform.Prelude.{
  ℕ, suc, String, Bool, false, not, Option, none, some, List, [], ◌∷◌, ◌==◌, string_eq,
  if◌then◌else◌, ◌&&◌, ◌||◌,
}
use crypto_research_platform.Prelude.Dict.{Dict, lookup, insert}
use crypto_research_platform.Decimal.{Decimal, ◌-◌, ◌*◌, of_ℕ, leb, ltb, min, round}
use crypto_research_platform.Schemas.{
  Direction, same_direction, direction_of_action, from_direction, AgentSignal, is_expired,
  TradeDecision, Topic, Event, Publication,
}
use crypto_research_platform.Engine.Trust.{TrustRegistry, record_outcome, weight_for}

pub record SymbolState (D : Type 0) : Type 0 where
  pub last_direction : Direction
  pub last_decision_at : D

pub record EngineParams (D : Type 0) : Type 0 where
  pub passthrough_agent : String
  pub min_confidence : D
  pub cooldown_s : D

pub record Engine (D : Type 0) : Type 0 where
  pub params : EngineParams D
  pub trust : TrustRegistry D
  pub state : Dict String (SymbolState D)
  pub decisions_emitted : ℕ
  pub signals_seen : ℕ
  pub outcomes_seen : ℕ

-- What a handler reads besides its event.
pub record Reading (D : Type 0) : Type 0 where
  pub now : D
  pub monotonic : D
  pub fresh_id : ℕ

-- A handler's result; `raised` is an exception that `BaseAgent.run` catches.
pub data Handled (S A : Type 0) : Type 0 where
  done : S → A → Handled S A
  raised : S → Handled S A

module _ {D : Type 0} ⦃d : Decimal D⦄ where
  abbrev pub fresh_state : SymbolState D
  fresh_state = record { last_direction = Direction.flat; last_decision_at = of_ℕ 0 }

  abbrev pub state_or_fresh : Option (SymbolState D) → SymbolState D
  state_or_fresh none = fresh_state
  state_or_fresh (some s) = s

  abbrev pub state_for : String → Engine D → SymbolState D
  state_for symbol e = state_or_fresh (lookup symbol e.state)

  unfoldable pub within_cooldown : EngineParams D → D → SymbolState D → Bool
  within_cooldown p monotonic s =
      ltb (of_ℕ 0) s.last_decision_at && ltb (monotonic - s.last_decision_at) p.cooldown_s

  -- The guards of `_decide` before the cooldown.
  unfoldable pub is_actionable : Reading D → EngineParams D → AgentSignal D → Bool
  is_actionable r p s =
      if not (s.agent_name == p.passthrough_agent)
      then false
      else if s.degraded || leb s.confidence (of_ℕ 0)
      then false
      else if is_expired r.now s.valid_until
      then false
      else if same_direction s.direction Direction.flat
      then false
      else not (ltb s.confidence p.min_confidence)

  unfoldable pub decision_of : Reading D → D → AgentSignal D → TradeDecision D
  decision_of r weight s = record {
    decision_id = r.fresh_id;
    symbol = s.symbol;
    action = from_direction s.direction;
    confidence = s.confidence;
    weighted_confidence = round 4 (min (of_ℕ 1) (s.confidence * weight));
    reference_price = s.reference_price;
    suggested_stop = s.suggested_stop;
    suggested_take_profit = s.suggested_take_profit;
    contributing_signals = s.event_id ∷ [];
    agent_weights = (s.agent_name, round 4 weight) ∷ [];
    correlation_id = s.correlation_id;
  }

  -- `_decide`; it also makes the state of a symbol that passes the guards (`setdefault`).
  unfoldable pub decide : Reading D → AgentSignal D → Engine D → Engine D × Option (TradeDecision D)
  unfolding is_actionable within_cooldown
  decide r s e =
      let st = state_for s.symbol e in
      let e' = record e { state = insert s.symbol st e.state } in
      if is_actionable r e.params s
      then (if within_cooldown e.params r.monotonic st
            && same_direction st.last_direction s.direction
          then (e', none)
          else (e', some (decision_of r (weight_for s.agent_name e.trust) s)))
      else (e, none)

  abbrev pub emit :
      Reading D
      → AgentSignal D
      → Engine D × Option (TradeDecision D)
      → Engine D × List (Publication D)
  emit r s (e, none) = (e, [])
  emit r s (e, some dec) = (
    record e {
      decisions_emitted = suc e.decisions_emitted;
      state =
          insert s.symbol
            (record {
              last_direction = direction_of_action dec.action;
              last_decision_at = r.monotonic;
            })
            e.state;
    },
    (Topic.trade_decisions, Event.decision dec) ∷ [],
  )

  abbrev pub learn :
      Engine D → Option (TrustRegistry D × D) → Handled (Engine D) (List (Publication D))
  learn e none = raised e
  learn e (some (t, _)) = done (record e { trust = t }) []

  abbrev pub finish : Engine D × List (Publication D) → Handled (Engine D) (List (Publication D))
  finish (e, ps) = done e ps

  unfoldable pub handle : Reading D → Event D → Engine D → Handled (Engine D) (List (Publication D))
  unfolding decide
  handle r (Event.outcome o) e =
      let e' = record e { outcomes_seen = suc e.outcomes_seen } in
      learn e' (record_outcome o.agent_name o.confidence o.was_correct e.trust)
  handle r (Event.signal s) e =
      finish (emit r s (decide r s (record e { signals_seen = suc e.signals_seen })))
  handle r _ e = done e []
