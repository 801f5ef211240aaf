-- ===== src/Lib.antt =====
-- The trading core of the crypto research platform: the services that turn market data into orders,
-- fills, positions and a record of how well each agent forecast.
--
-- The program is a set of services that exchange events over topics, each run by the same consume loop.
-- The market analyst turns candles into indicators, levels and scores, and these into a signal. A
-- signal reaches the decision engine, which weighs it by the agent's record and publishes a
-- decision; the risk manager vetoes it or sizes an order; the paper broker fills the order against
-- its cached book; the portfolio tracker books the fill; the position monitor guards the position
-- and fires its exit; a closure reaches the outcome recorder, which scores the signals behind it and
-- so teaches the decision engine.
-- The market recorder stores the streams. Offline, history loaded from the exchange is replayed through the
-- analyst, and studies measure single signals against a fixed horizon.
--
-- Files and the code they model:
--   Schemas    libs/schemas/{market,signals,trading,portfolio,learning}.py and the topics of
--              libs/kafka_client/__init__.py, one record for each event model
--   Portfolio  services/agents/portfolio_manager/tracker.py: State (PortfolioTracker, mark, _roll_day),
--              Fills (apply_fill, _open, _add, _reduce_or_flip, _build_closure), Persist (restore,
--              snapshot, the account row)
--   Risk       services/agents/risk_manager/agent.py: evaluate, _resolve_stop, _veto, handle
--   Broker     services/agents/execution/paper_broker.py: walk_book, simulate_fill, handle
--   Engine     services/decision_engine/engine.py (handle, _decide) and trust.py (TrustRegistry)
--   Monitor    services/execution/position_monitor.py: ProtectedPosition (Guard, Rows),
--              PositionMonitor (Defs), and the table of ProtectionRepository in
--              libs/persistence/repositories.py (Rows); Breach, Exits, Ratchet, Mirror, Snapshot,
--              Reconcile and Restart hold the proofs
--   Recorder   services/data_ingestion/recorder.py: handle, _should_store_book, flush
--   Learning   services/agents/learning/outcome_recorder.py: the indexes, attribute, handle
--   Analyst    services/agents/market_analyst: Indicators and Bands (indicators.py), Levels (levels.py),
--              Scores (the component scores of agent.py), Timeframe, Confluence, Exits and Agent
--              (analyze_timeframe, _confluence and _confidence, _protective_levels, analyze)
--   Runtime    services/agents/common: Context (context.py, the candle windows), Agent (base_agent.py: the
--              consume loop, SignalAgent) with KafkaConsumer.events and deserialize of
--              libs/kafka_client; Lifecycle, Shutdown, Buffers and Silence hold the proofs
--   Backtest   services/backtest: Trade, Report and Replay (replay.py), Calibration (calibration.py);
--              Causality, Live and Buckets hold the proofs
--   Ingestion  services/data_ingestion/market_data: Parsing (parsing.py and the retries), History and
--              Funding (hyperliquid_history.py, hyperliquid_funding.py), OrderBook (hyperliquid_orderbook.py);
--              Progress holds the proofs
--   Research   services/research: Statistics, Signals and Study, each the file of that name, with
--              Positioning (signals.py) and Figures (study.py); Corrections and Thinning hold the proofs
--   Decimal    the interface of the numbers
--   Prelude    shared names, lists, dicts
--
-- Conventions. The state of a service is a record and a handler is a function from an event and a state
-- to the state after it and what it publishes. Python's Decimal and float are a parameter: an instance of
-- Decimal has their operations, and theorems that need arithmetic take its laws, IsExact, as an argument:
-- the laws of exact arithmetic, of division with rounding toward the lower value, and of the roundings.
-- Decimal.Int shows that they can be met. So the theorems speak of arithmetic without the loss of digits
-- that a context precision or a float brings. Readings of clocks, fresh ids, answers of the database and
-- what a sink does with a batch are arguments; an exception that a handler lets out is a value. A dict is
-- an association list in insertion order. Loops are recursions over the list that the source runs
-- through, or count what the source counts: the windows of a history, the bars of a replay or a study,
-- the 300 iterations of the continued fraction. So no fuel is made up.
--
-- Not modelled: validation by the schema library, log text, connections, the producer and the
-- encoding of the Kafka client, persistence but for the table of the guards, the candle and metrics
-- collectors and the websockets of market data and the file caches. Of the research, the pooling of
-- studies, the table of the signals, power.py and long_horizon.py are left. The functions of the math
-- module, the endpoint of a history and the analyst of a replay are parameters. Of the runtime the
-- signal handlers and the cancellation of a task are left out, and a failing stop hook; a call of stop
-- stands between two messages or inside the handling of one, and runs to its end there: one that is
-- suspended while the loop ends is not covered. The producer refuses what is published once the agent
-- is no longer started. A startup hook publishes at its end.
-- Of a signal of the analyst the features and the rationale text are left out; pstdev of the
-- statistics module is a parameter. A decision reads the monotonic clock once, where the source reads
-- it for the test and again for the record. The window of the trust registry is applied at each
-- append, where the source fixes it when an agent is first seen; the registry's bound never changes.
-- The table of the guards is by symbol and its writes succeed. A flush of the recorder is modelled
-- with no event arriving while it runs; the service refuses to start without a database, so each stream has a sink.
pub mod Prelude
pub mod Decimal
pub mod Schemas
pub mod Portfolio
pub mod Risk
pub mod Broker
pub mod Engine
pub mod Monitor
pub mod Recorder
pub mod Learning
pub mod Runtime
pub mod Analyst
pub mod Backtest
pub mod Ingestion
pub mod Research
