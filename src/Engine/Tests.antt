-- ===== src/Engine/Tests.antt =====
-- A signal that is decided on, one that repeats it, and a registry that learns from an outcome.
use crypto_research_platform.Prelude.{string_eq, true, false, ◌≡◌, refl, none, some, [], ◌∷◌}
use crypto_research_platform.Prelude.Dict.{lookup, insert}
use crypto_research_platform.Decimal.Int.{ℤ, pos, whole, whole-IsExact, ◌-ℤ◌}
use crypto_research_platform.Schemas.{
  Direction, AgentSignal, Topic, Event, Publication, is_expired, from_direction,
  direction_of_action,
}
use crypto_research_platform.Engine.Trust.{TrustRegistry, record_outcome, weight_for}
use crypto_research_platform.Engine.Defs.{
  Engine, Reading, done, within_cooldown, is_actionable, decision_of, decide, handle,
}
use crypto_research_platform.Decimal.{IsWithin}
use crypto_research_platform.Engine.Scores.{Records, record_outcome-Records}
use crypto_research_platform.Engine.Windows.{weight_for-IsWithin}
use crypto_research_platform.Engine.Cooldown.{Decides, published, handle-Decides, handle_repeat}

abbrev trust : TrustRegistry ℤ
trust = record {
  default_weight = pos 1;
  min_samples = 2;
  min_weight = pos 0;
  max_weight = pos 3;
  window = 2;
  agents = ("analyst", pos 1 ∷ (pos 0 ∷ [])) ∷ [];
}

record_outcome-Records_example : Records (pos 0) (record_outcome "analyst" (pos 0) true trust)
record_outcome-Records_example =
    record_outcome-Records whole-IsExact "analyst" (pos 0) true trust
      (((refl, refl), ((refl, refl), tt)), tt)

weight_for-IsWithin_example : IsWithin (pos 0) (pos 3) (weight_for "analyst" trust)
weight_for-IsWithin_example = weight_for-IsWithin whole-IsExact "analyst" trust refl (refl, refl)

abbrev engine : Engine ℤ
engine = record {
  params = record { passthrough_agent = "analyst"; min_confidence = pos 1; cooldown_s = pos 60 };
  trust = trust;
  state = [];
  decisions_emitted = 0;
  signals_seen = 0;
  outcomes_seen = 0;
}

abbrev reading : ℤ → Reading ℤ
reading at = record { now = at; monotonic = at; fresh_id = 7 }

abbrev signal : AgentSignal ℤ
signal = record {
  event_id = 3;
  agent_name = "analyst";
  agent_version = "1";
  symbol = "BTC";
  direction = Direction.long;
  confidence = pos 1;
  reference_price = some (pos 100);
  suggested_stop = none;
  suggested_take_profit = none;
  valid_until = none;
  degraded = false;
  correlation_id = 9;
}

abbrev decided : Engine ℤ
decided = record engine {
  state = ("BTC", record { last_direction = Direction.long; last_decision_at = pos 10 }) ∷ [];
  decisions_emitted = 1;
  signals_seen = 1;
}

abbrev decision : Publication ℤ
decision = (
  Topic.trade_decisions,
  Event.decision (decision_of (reading (pos 10)) (weight_for "analyst" trust) signal),
)

handled : handle (reading (pos 10)) (Event.signal signal) engine ≡ done decided (decision ∷ [])
unfolding handle decide is_actionable lookup insert within_cooldown is_expired from_direction
    direction_of_action decision_of
handled = refl

handle-Decides_example : Decides (reading (pos 10)) signal engine (decision ∷ [])
handle-Decides_example = handle-Decides (reading (pos 10)) signal engine handled

handle_repeat_example : published (handle (reading (pos 50)) (Event.signal signal) decided) ≡ []
unfolding ◌-ℤ◌
handle_repeat_example =
    handle_repeat (reading (pos 10)) (reading (pos 50)) signal signal engine handled refl refl refl
      refl
