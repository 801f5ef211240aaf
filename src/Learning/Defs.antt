-- ===== src/Learning/Defs.antt =====
-- `class OutcomeRecorder`: the indexes and the attribution of a closure. What the signal repository
-- holds for a correlation id is an argument; with no repository it is empty.
use Prim.Native.Nat.{◌-◌ as sub_ℕ}
use crypto_research_platform.Prelude.{
  ℕ, suc, ◌+ℕ◌, Bool, not, ◌||◌, Option, none, some, List, [], ◌∷◌, ◌++◌, length, drop, nat_eq,
  if◌then◌else◌,
}
use crypto_research_platform.Prelude.Dict.{Dict, lookup, insert}
use crypto_research_platform.Decimal.{Decimal, of_ℕ, leb, round}
use crypto_research_platform.Schemas.{
  AgentSignal, TradeDecision, PositionClosed, AgentOutcome, net_pnl, was_profitable,
  holding_period_s, Topic, Event, Publication,
}
use crypto_research_platform.Engine.Trust.{brier_score}

abbrev pub index_limit : ℕ
index_limit = 5000

pub record OutcomeRecorder (D : Type 0) : Type 0 where
  pub attribute_degraded_signals : Bool
  pub signals : Dict ℕ (AgentSignal D)
  pub signals_by_correlation : Dict ℕ (List ℕ)
  pub decisions : Dict ℕ (TradeDecision D)
  pub outcomes_recorded : ℕ
  pub closures_seen : ℕ
  pub unattributed : ℕ

-- `_trim`: the oldest entries leave until the index is within its bound.
unfoldable pub trim : {V : Type 0} → ℕ → Dict ℕ V → Dict ℕ V
trim limit index = drop (sub_ℕ (length index) limit) index

abbrev pub ids_or_empty : Option (List ℕ) → List ℕ
ids_or_empty none = []
ids_or_empty (some ids) = ids

module _ {D : Type 0} where
  unfoldable pub index_signal : AgentSignal D → OutcomeRecorder D → OutcomeRecorder D
  unfolding trim
  index_signal s r = record r {
    signals = trim index_limit (insert s.event_id s r.signals);
    signals_by_correlation = trim index_limit (
        insert s.correlation_id
          (ids_or_empty (lookup s.correlation_id r.signals_by_correlation) ++ (s.event_id ∷ []))
          r.signals_by_correlation);
  }

  unfoldable pub index_decision : TradeDecision D → OutcomeRecorder D → OutcomeRecorder D
  unfolding trim
  index_decision dec r = record r {
    decisions = trim index_limit (insert dec.correlation_id dec r.decisions);
  }

  abbrev pub keep : Option (AgentSignal D) → List (AgentSignal D) → List (AgentSignal D)
  keep none found = found
  keep (some s) found = s ∷ found

  -- The signals of the given ids that are still held in memory.
  unfoldable pub known_signals : List ℕ → Dict ℕ (AgentSignal D) → List (AgentSignal D)
  known_signals [] signals = []
  known_signals (i ∷ ids) signals = keep (lookup i signals) (known_signals ids signals)

  -- The first list that is not empty.
  abbrev pub first_found : List (AgentSignal D) → List (AgentSignal D) → List (AgentSignal D)
  first_found [] rest = rest
  first_found (s ∷ ss) rest = s ∷ ss

  abbrev pub by_decision : Option (TradeDecision D) → OutcomeRecorder D → List (AgentSignal D)
  by_decision none r = []
  by_decision (some dec) r = known_signals dec.contributing_signals r.signals

  unfoldable pub signals_for :
      (ℕ → List (AgentSignal D)) → Option ℕ → OutcomeRecorder D → List (AgentSignal D)
  signals_for stored none r = []
  signals_for stored (some correlation_id) r =
      first_found (by_decision (lookup correlation_id r.decisions) r) (
        first_found
          (known_signals (ids_or_empty (lookup correlation_id r.signals_by_correlation)) r.signals)
          (stored correlation_id))

module _ {D : Type 0} ⦃d : Decimal D⦄ where
  unfoldable pub is_scored : Bool → AgentSignal D → Bool
  is_scored all s = all || not (s.degraded || leb s.confidence (of_ℕ 0))

  unfoldable pub outcome_of : PositionClosed D → AgentSignal D → D → AgentOutcome D
  outcome_of c s score = record {
    agent_name = s.agent_name;
    agent_version = s.agent_version;
    signal_id = s.event_id;
    symbol = c.symbol;
    direction = s.direction;
    confidence = s.confidence;
    realized_pnl = net_pnl c;
    was_correct = was_profitable c;
    brier_score = round 6 score;
    exit_reason = c.exit_reason;
    closed_at = c.closed_at;
    holding_period_s = holding_period_s c;
    correlation_id = c.correlation_id;
  }

  abbrev pub cons_outcome :
      PositionClosed D
      → AgentSignal D
      → Option D
      → Option (List (AgentOutcome D))
      → Option (List (AgentOutcome D))
  cons_outcome c s (some score) (some os) = some (outcome_of c s score ∷ os)
  cons_outcome c s _ _ = none

  -- The loop of `attribute`; `none` is the `ValueError` of `brier_score`.
  unfoldable pub score_signals :
      Bool → PositionClosed D → List (AgentSignal D) → Option (List (AgentOutcome D))
  unfolding is_scored
  score_signals all c [] = some []
  score_signals all c (s ∷ ss) =
      let rest = score_signals all c ss in
      if is_scored all s
      then cons_outcome c s (brier_score s.confidence (was_profitable c)) rest
      else rest

  abbrev pub publications : List (AgentOutcome D) → List (Publication D)
  publications [] = []
  publications (o ∷ os) = (Topic.agent_outcomes, Event.outcome o) ∷ publications os

  abbrev pub scored :
      OutcomeRecorder D
      → Option (List (AgentOutcome D))
      → OutcomeRecorder D × Option (List (Publication D))
  scored r none = (r, none)
  scored r (some os) =
      (record r { outcomes_recorded = r.outcomes_recorded +ℕ length os }, some (publications os))

  abbrev pub attribute_to :
      PositionClosed D
      → List (AgentSignal D)
      → OutcomeRecorder D
      → OutcomeRecorder D × Option (List (Publication D))
  attribute_to c [] r = (record r { unattributed = suc r.unattributed }, some [])
  attribute_to c (s ∷ ss) r = scored r (score_signals r.attribute_degraded_signals c (s ∷ ss))

  unfoldable pub attribute :
      (ℕ → List (AgentSignal D))
      → PositionClosed D
      → OutcomeRecorder D
      → OutcomeRecorder D × Option (List (Publication D))
  attribute stored c r =
      attribute_to c (signals_for stored c.opening_correlation_id r)
        (record r { closures_seen = suc r.closures_seen })

  unfoldable pub handle :
      (ℕ → List (AgentSignal D))
      → Event D
      → OutcomeRecorder D
      → OutcomeRecorder D × Option (List (Publication D))
  unfolding attribute
  handle stored (Event.signal s) r = (index_signal s r, some [])
  handle stored (Event.decision dec) r = (index_decision dec r, some [])
  handle stored (Event.closure c) r = attribute stored c r
  handle stored _ r = (r, some [])
