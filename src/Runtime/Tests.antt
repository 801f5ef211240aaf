-- ===== src/Runtime/Tests.antt =====
-- An agent that fails on every candle, its messages, and its buffers.
use crypto_research_platform.Prelude.{string_eq, true, false, ◌≡◌, refl, none, List, [], ◌∷◌}
use crypto_research_platform.Prelude.Dict.{lookup, insert}
use crypto_research_platform.Decimal.Int.{ℤ, pos, whole, whole-IsExact}
use crypto_research_platform.Schemas.{Candle, AgentSignal, Topic, Event}
use crypto_research_platform.Engine.{Engine, Reading, done, handle}
use crypto_research_platform.Engine.Trust.{append_bounded}
use crypto_research_platform.Runtime.Context.{ContextBuilder, add_candle, build}
use crypto_research_platform.Runtime.Agent.{
  Message, Process, SignalAgent, outcome, is_trigger, handle_market, service,
}
use crypto_research_platform.Runtime.Lifecycle.{Comes, loop-Runs}
use crypto_research_platform.Runtime.Silence.{outcome_failure}
use crypto_research_platform.Runtime.Buffers.{IsBuffered, add_candle-IsBuffered}

abbrev builder : ContextBuilder ℤ
builder = record {
  intervals = "1m" ∷ [];
  max_candles = 2;
  max_trades = 2;
  candles = [];
  books = [];
  trades = [];
  portfolio = none;
}

abbrev candle : ℤ → Candle ℤ
candle at = record {
  symbol = "BTC";
  interval = "1m";
  open_time = at;
  close_time = at;
  open_price = pos 10;
  high = pos 12;
  low = pos 9;
  close = pos 11;
  volume = pos 5;
  trade_count = 1;
  is_closed = true;
  correlation_id = 6;
}

abbrev failing : SignalAgent ℤ
failing = record {
  name = "analyst";
  version = "1";
  trigger_intervals = [];
  consume_portfolio = false;
  signal_ttl_s = pos 90;
  analyze = λ r c. none;
}

abbrev reading : Reading ℤ
reading = record { now = pos 5; monotonic = pos 5; fresh_id = 7 }

abbrev message : ℤ → Message ℤ
message at = record {
  topic = Topic.market_candles;
  event = Event.candle (candle at);
  correlation_id = 6;
  reading = reading;
  stopped_before = false;
  stopped_during = false;
  accepts = λ q. true;
}

abbrev idle : Process (ContextBuilder ℤ) ℤ
idle = record { started = false; stopping = false; state = builder; calls = [] }

abbrev two : List (Message ℤ)
two = message (pos 1) ∷ (message (pos 2) ∷ [])

loop-Runs_example : Comes (service failing) two builder []
loop-Runs_example =
    loop-Runs (service failing) two builder []
      ((refl, refl, λ q. refl), ((refl, refl, λ q. refl), tt))

-- `stop` is called while the second message is handled.
abbrev interrupted : List (Message ℤ)
interrupted = message (pos 1) ∷ (record (message (pos 2)) { stopped_during = true } ∷ [])

abbrev engine : Engine ℤ
engine = record {
  params = record { passthrough_agent = "analyst"; min_confidence = pos 0; cooldown_s = pos 60 };
  trust = record {
    default_weight = pos 1;
    min_samples = 2;
    min_weight = pos 0;
    max_weight = pos 3;
    window = 2;
    agents = [];
  };
  state = [];
  decisions_emitted = 0;
  signals_seen = 0;
  outcomes_seen = 0;
}

abbrev after_one : ContextBuilder ℤ
after_one = record builder {
  candles = ("BTC", ("1m", candle (pos 1) ∷ []) ∷ []) ∷ [];
  trades = ("BTC", []) ∷ [];
}

outcome_failure_example :
    (s : AgentSignal ℤ) × (outcome (service failing) (message (pos 1)) builder
      ≡ (after_one, (Topic.agent_signals, Event.signal s) ∷ []))
    × (s.symbol ≡ "BTC")
    × (s.correlation_id ≡ 6)
    × (handle reading (Event.signal s) engine ≡ done (record engine { signals_seen = 1 }) [])
unfolding handle_market add_candle lookup insert is_trigger build append_bounded
outcome_failure_example = outcome_failure failing (message (pos 1)) builder reading engine refl refl

add_candle-IsBuffered_example : IsBuffered (add_candle (candle (pos 1)) builder).0
add_candle-IsBuffered_example = add_candle-IsBuffered whole-IsExact (candle (pos 1)) builder tt
