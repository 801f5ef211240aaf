-- ===== src/Runtime/Agent.antt =====
-- services/agents/common/base_agent.py: `BaseAgent` and `SignalAgent`, and `KafkaConsumer.events` of
-- libs/kafka_client. A message carries what happens around it: whether `stop` ran before it is looked
-- at or while it is handled, the readings of the clocks, and which publications the broker accepts.
use crypto_research_platform.Prelude.{
  ℕ, String, Bool, true, false, not, ◌&&◌, ◌||◌, Option, none, some, List, [], ◌∷◌, ◌++◌, string_eq,
  if◌then◌else◌,
}
use crypto_research_platform.Decimal.{Decimal, ◌+◌, of_ℕ, eqb}
use crypto_research_platform.Schemas.{Direction, AgentSignal, Candle, Topic, Event, Publication}
use crypto_research_platform.Engine.{Reading, Handled, done, raised}
use crypto_research_platform.Runtime.Context.{
  AgentContext, ContextBuilder, member, add_candle, add_order_book, add_trade, set_portfolio, build,
}

-- A subclass of `BaseAgent`: what it overrides.
pub record Service (S D : Type 0) : Type 0 where
  pub handle : Reading D → Topic → Event D → S → Handled S (List (Publication D))
  pub on_error : Reading D → ℕ → Topic → Event D → List (Publication D)
  pub on_start : S → Handled S (List (Publication D))
  pub on_stop : S → S

pub record Message (D : Type 0) : Type 0 where
  pub topic : Topic
  pub event : Event D
  pub correlation_id : ℕ
  pub reading : Reading D
  pub stopped_before : Bool
  pub stopped_during : Bool
  pub accepts : Publication D → Bool

-- The calls of the clients and hooks, in order.
pub data Call (D : Type 0) : Type 0 where
  producer_start consumer_start hook_start hook_stop consumer_stop producer_stop : Call D
  publish : Publication D → Call D

pub record Process (S D : Type 0) : Type 0 where
  pub started : Bool
  pub stopping : Bool
  pub state : S
  pub calls : List (Call D)

-- `KafkaConsumer.events`: a message of an unknown topic, or one that does not decode, is skipped.
-- `model_validate_json` is the schema library's; `none` is its exception.
module _ {D Model Payload : Type 0} (model_validate_json : Payload → Model → Option (Event D)) where
  -- Its exceptions become an `EventDecodeError`.
  abbrev pub deserialize : Payload → Model → Option (Event D)
  deserialize payload model = model_validate_json payload model

  abbrev pub decoded : Topic → Payload → Option Model → Option (Event D)
  decoded topic payload none = none
  decoded topic payload (some model) = deserialize payload model

  abbrev pub yielded : Topic → Option (Event D) → List (Topic × Event D) → List (Topic × Event D)
  yielded topic none rest = rest
  yielded topic (some event) rest = (topic, event) ∷ rest

  unfoldable pub events : (Topic → Option Model) → List (Topic × Payload) → List (Topic × Event D)
  events models [] = []
  events models ((topic, payload) ∷ ms) =
      yielded topic (decoded topic payload (models topic)) (events models ms)

abbrev pub start_calls : {D : Type 0} → List (Call D)
start_calls = producer_start ∷ (consumer_start ∷ (hook_start ∷ []))

abbrev pub stop_calls : {D : Type 0} → List (Call D)
stop_calls = hook_stop ∷ (consumer_stop ∷ (producer_stop ∷ []))

module _ {S D : Type 0} where
  -- `BaseAgent.publish`: `false` is an exception of the producer, which raises when it is not started,
  -- or when the broker does not accept.
  unfoldable pub publish_all :
      (Publication D → Bool) → List (Publication D) → Process S D → Process S D × Bool
  publish_all accepts [] p = (p, true)
  publish_all accepts (x ∷ xs) p =
      let rest = publish_all accepts xs (record p { calls = p.calls ++ (publish x ∷ []) }) in
      if p.started && accepts x then rest else (p, false)

  -- The startup hook; what it publishes is published at its end.
  abbrev pub begun :
      (Publication D → Bool) → Process S D → Handled S (List (Publication D)) → Process S D × Bool
  begun accepts p (done state ps) = publish_all accepts ps (record p { state = state })
  begun accepts p (raised state) = (record p { state = state }, false)

  -- `false` is an exception of the hook.
  unfoldable pub start : Service S D → (Publication D → Bool) → Process S D → Process S D × Bool
  unfolding publish_all
  start s accepts p =
      if p.started
      then (p, true)
      else begun accepts (record p { started = true; calls = p.calls ++ start_calls })
          (s.on_start p.state)

  unfoldable pub stop : Service S D → Process S D → Process S D
  stop s p =
      if p.started
      then record p {
        started = false;
        stopping = true;
        state = s.on_stop p.state;
        calls = p.calls ++ stop_calls;
      }
      else record p { stopping = true }

  -- `stop`, where somebody calls it; it runs to its end.
  abbrev pub requested : Service S D → Bool → Process S D → Process S D
  requested s false p = p
  requested s true p = stop s p

  -- What one message comes to: an exception of the handler goes to `on_error`.
  abbrev pub isolated :
      Service S D → Message D → Handled S (List (Publication D)) → S × List (Publication D)
  isolated s m (done state ps) = (state, ps)
  isolated s m (raised state) = (state, s.on_error m.reading m.correlation_id m.topic m.event)

  unfoldable pub outcome : Service S D → Message D → S → S × List (Publication D)
  outcome s m state = isolated s m (s.handle m.reading m.topic m.event state)

  abbrev pub step : Service S D → Message D → Process S D → Process S D × Bool
  step s m p =
      let out = outcome s m p.state in
      publish_all m.accepts out.1 (requested s m.stopped_during (record p { state = out.0 }))

  -- The loop of `run`; `false` is an exception that leaves it.
  unfoldable pub loop : Service S D → List (Message D) → Process S D → Process S D × Bool
  unfolding publish_all outcome stop
  loop s [] p = (p, true)
  loop s (m ∷ ms) p =
      let p' = requested s m.stopped_before p in
      let next = step s m p' in
      let rest = loop s ms next.0 in
      if p'.stopping then (p', true) else if next.1 then rest else next

  -- The `try` of `run`: an exception of `start` does not reach its `finally`.
  abbrev pub tried : Service S D → List (Message D) → Process S D × Bool → Process S D × Bool
  tried s ms (p, false) = (p, false)
  tried s ms (p, true) = let out = loop s ms p in (stop s out.0, out.1)

  unfoldable pub run :
      Service S D → (Publication D → Bool) → List (Message D) → Process S D → Process S D × Bool
  unfolding start stop loop
  run s accepts ms p = tried s ms (start s accepts p)

abbrev is_empty : List String → Bool
is_empty [] = true
is_empty (_ ∷ _) = false

-- A subclass of `SignalAgent`; the outer `Option` of `analyze` is an exception.
pub record SignalAgent (D : Type 0) : Type 0 where
  pub name : String
  pub version : String
  pub trigger_intervals : List String
  pub consume_portfolio : Bool
  pub signal_ttl_s : D
  pub analyze : Reading D → AgentContext D → Option (Option (AgentSignal D))

module _ {D : Type 0} ⦃d : Decimal D⦄ where
  abbrev expiry : D → D → Option D
  expiry now ttl = if eqb ttl (of_ℕ 0) then none else some (now + ttl)

  -- `AgentSignal.neutral`
  unfoldable pub neutral : Reading D → String → String → String → ℕ → D → AgentSignal D
  neutral r name version symbol correlation_id ttl = record {
    event_id = r.fresh_id;
    agent_name = name;
    agent_version = version;
    symbol = symbol;
    direction = Direction.flat;
    confidence = of_ℕ 0;
    reference_price = none;
    suggested_stop = none;
    suggested_take_profit = none;
    valid_until = expiry r.now ttl;
    degraded = true;
    correlation_id = correlation_id;
  }

  -- `getattr(event, "symbol", None)`
  abbrev pub symbol_of : Event D → Option String
  symbol_of (Event.candle e) = some e.symbol
  symbol_of (Event.trade e) = some e.symbol
  symbol_of (Event.book e) = some e.symbol
  symbol_of (Event.perp_metrics e) = some e.symbol
  symbol_of (Event.funding e) = some e.symbol
  symbol_of (Event.signal e) = some e.symbol
  symbol_of (Event.decision e) = some e.symbol
  symbol_of (Event.verdict e) = some e.symbol
  symbol_of (Event.order e) = some e.symbol
  symbol_of (Event.fill e) = some e.symbol
  symbol_of (Event.portfolio e) = none
  symbol_of (Event.closure e) = some e.symbol
  symbol_of (Event.outcome e) = some e.symbol

  -- `_is_trigger`
  unfoldable pub is_trigger : String → SignalAgent D → Bool
  is_trigger interval a = is_empty a.trigger_intervals || member interval a.trigger_intervals

  abbrev pub published :
      ContextBuilder D
      → ℕ
      → Option (Option (AgentSignal D))
      → Handled (ContextBuilder D) (List (Publication D))
  published b correlation_id none = raised b
  published b correlation_id (some none) = done b []
  published b correlation_id (some (some s)) =
      done b
        ((Topic.agent_signals, Event.signal (record s { correlation_id = correlation_id })) ∷ [])

  abbrev pub analyzed :
      SignalAgent D
      → Reading D
      → Candle D
      → ContextBuilder D × Bool
      → Handled (ContextBuilder D) (List (Publication D))
  analyzed a r c (b, stored) =
      let context = build c.symbol a.consume_portfolio b in
      if not stored || not (is_trigger c.interval a)
      then done b []
      else published context.0 c.correlation_id (a.analyze r context.1)

  -- `SignalAgent.handle`
  unfoldable pub handle_market :
      SignalAgent D
      → Reading D
      → Topic
      → Event D
      → ContextBuilder D
      → Handled (ContextBuilder D) (List (Publication D))
  handle_market a r topic (Event.book e) b = done (add_order_book e b) []
  handle_market a r topic (Event.trade e) b = done (add_trade e b) []
  handle_market a r topic (Event.portfolio e) b = done (set_portfolio e b) []
  handle_market a r topic (Event.candle c) b = analyzed a r c (add_candle c b)
  handle_market a r topic _ b = done b []

  abbrev pub apologized : SignalAgent D → Reading D → ℕ → Option String → List (Publication D)
  apologized a r correlation_id none = []
  apologized a r correlation_id (some symbol) =
      (
        Topic.agent_signals,
        Event.signal (neutral r a.name a.version symbol correlation_id a.signal_ttl_s),
      )
      ∷ []

  -- `SignalAgent.on_error`
  unfoldable pub on_error : SignalAgent D → Reading D → ℕ → Topic → Event D → List (Publication D)
  on_error a r correlation_id topic event = apologized a r correlation_id (symbol_of event)

  abbrev pub service : SignalAgent D → Service (ContextBuilder D) D
  service a = record {
    handle = handle_market a;
    on_error = on_error a;
    on_start = λ b. done b [];
    on_stop = λ b. b;
  }
