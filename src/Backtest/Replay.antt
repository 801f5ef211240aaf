-- ===== src/Backtest/Replay.antt =====
-- services/backtest/replay.py: `ReplayEngine.run`. The analyst is a parameter: its outer `Option` is an
-- exception, the inner one is `None`. A slice is taken as the source takes it, by index.
use Prim.Native.Nat.{◌-◌ as sub_ℕ}
use crypto_research_platform.Prelude.{
  ℕ, zero, suc, ◌+ℕ◌, String, Bool, true, false, ◌||◌, Option, none, some, List, [], ◌∷◌, ◌++◌,
  length, take, drop, ◌==◌, string_eq, leb as leb_ℕ, if◌then◌else◌, get_elem?,
}
use crypto_research_platform.Prelude.Dict.{Dict, lookup}
use crypto_research_platform.Decimal.{Decimal, leb, ltb}
use crypto_research_platform.Schemas.{Candle, Direction, same_direction, ExitReason, AgentSignal}
use crypto_research_platform.Runtime.Context.{AgentContext, final, or_empty}
use crypto_research_platform.Analyst.Indicators.{last_of}
use crypto_research_platform.Backtest.Trade.{
  ReplayTrade, OpenTrade, ReplayParams, observe_bar, exit_on, cost_for, close_trade,
}

-- The variables of the loop: the open trade and the growing result.
pub record Walk (D : Type 0) : Type 0 where
  pub open_trade : Option (OpenTrade D)
  pub trades : List (ReplayTrade D)
  pub signals_evaluated : ℕ
  pub signals_actionable : ℕ
  pub bars_replayed : ℕ
  pub confidences : List D

abbrev pub View : Type 0 → Type 0
View D = AgentContext D → Option (Option (AgentSignal D))

abbrev pub is_open : {A : Type 0} → Option A → Bool
is_open none = false
is_open (some a) = true

-- `xs[a:b]`
abbrev pub slice : {A : Type 0} → ℕ → ℕ → List A → List A
slice a b xs = drop a (take b xs)

abbrev pub exhausted : Option ℕ → ℕ → Bool
exhausted none bars = false
exhausted (some bound) bars = leb_ℕ bound bars

module _ {D : Type 0} where
  abbrev pub then_walk : Option (Walk D) → (Walk D → Option (Walk D)) → Option (Walk D)
  then_walk none f = none
  then_walk (some w) f = f w

  abbrev pub fresh_walk : Walk D
  fresh_walk = record {
    open_trade = none;
    trades = [];
    signals_evaluated = 0;
    signals_actionable = 0;
    bars_replayed = 0;
    confidences = [];
  }

  -- The series of the other intervals.
  abbrev pub without : String → Dict String (List (Candle D)) → Dict String (List (Candle D))
  without driving [] = []
  without driving ((interval, series) ∷ rest) =
      if interval == driving
      then without driving rest
      else (interval, series) ∷ without driving rest

module _ {D : Type 0} ⦃d : Decimal D⦄ where
  abbrev pub closed_by : D → List (Candle D) → List (Candle D)
  closed_by time [] = []
  closed_by time (c ∷ cs) =
      if leb c.close_time time then c ∷ closed_by time cs else closed_by time cs

  abbrev pub with_series :
      String → List (Candle D) → Dict String (List (Candle D)) → Dict String (List (Candle D))
  with_series interval [] rest = rest
  with_series interval (c ∷ cs) rest = (interval, c ∷ cs) ∷ rest

  -- The other intervals, as far as they have closed.
  abbrev pub visible : ℕ → D → Dict String (List (Candle D)) → Dict String (List (Candle D))
  visible window time [] = []
  visible window time ((interval, series) ∷ rest) =
      with_series interval (last_of window (closed_by time series)) (visible window time rest)

  unfoldable pub history_at :
      ReplayParams D
      → String
      → List (Candle D)
      → Dict String (List (Candle D))
      → ℕ
      → Candle D
      → Dict String (List (Candle D))
  history_at p driving driver others index bar =
      (driving, slice (sub_ℕ (index +ℕ 1) p.window_bars) (index +ℕ 1) driver)
      ∷ visible p.window_bars bar.close_time others

  abbrev pub settle :
      ReplayParams D → Candle D → OpenTrade D → Option (ExitReason × D) → Walk D → Walk D
  settle p bar t (some (reason, price)) w = record w {
    open_trade = none;
    trades = w.trades ++ (close_trade p t price bar.close_time reason false ∷ []);
  }
  settle p bar t none w =
      if exhausted p.max_bars_held t.bars
      then record w {
        open_trade = none;
        trades = w.trades ++ (close_trade p t bar.close bar.close_time ExitReason.manual true ∷ []);
      }
      else record w { open_trade = some t }

  -- The open trade meets a bar.
  abbrev pub manage : ReplayParams D → Candle D → Option (OpenTrade D) → Walk D → Walk D
  manage p bar none w = w
  manage p bar (some t) w =
      let t' = observe_bar bar (record t { bars = suc t.bars }) in
      settle p bar t' (exit_on bar t') w

  abbrev pub opened : ReplayParams D → String → Candle D → AgentSignal D → OpenTrade D
  opened p symbol bar s = record {
    symbol = symbol;
    direction = s.direction;
    confidence = s.confidence;
    entry_time = bar.close_time;
    entry_price = bar.close;
    size = p.position_size;
    stop_price = s.suggested_stop;
    take_profit_price = s.suggested_take_profit;
    trailing_stop_pct = p.trailing_stop_pct;
    extreme_price = bar.close;
    entry_cost = cost_for p bar.close;
    bars = 0;
  }

  abbrev pub entered :
      ReplayParams D
      → String
      → Candle D
      → Option (Option (AgentSignal D))
      → Walk D
      → Option (Walk D)
  entered p symbol bar none w = none
  entered p symbol bar (some none) w = some w
  entered p symbol bar (some (some s)) w =
      let w' = record w {
        signals_evaluated = suc w.signals_evaluated;
        confidences = w.confidences ++ (s.confidence ∷ []);
      } in
      if same_direction s.direction Direction.flat || ltb s.confidence p.min_confidence
      then some w'
      else some (record w' {
        signals_actionable = suc w'.signals_actionable;
        open_trade = some (opened p symbol bar s);
      })

  abbrev pub context_of : String → Dict String (List (Candle D)) → AgentContext D
  context_of symbol history = record {
    symbol = symbol;
    candles = history;
    order_book = none;
    recent_trades = [];
    portfolio = none;
  }

  abbrev pub force_close :
      ReplayParams D → Option (Candle D) → Option (OpenTrade D) → Walk D → Walk D
  force_close p (some bar) (some t) w = record w {
    trades = w.trades ++ (close_trade p t bar.close bar.close_time ExitReason.manual true ∷ []);
  }
  force_close p _ _ w = w

  abbrev pub finish_walk : ReplayParams D → Option (Candle D) → Option (Walk D) → Option (Walk D)
  finish_walk p last none = none
  finish_walk p last (some w) = some (force_close p last w.open_trade w)

module _ {D : Type 0} ⦃d : Decimal D⦄ (p : ReplayParams D) (view : View D)
    (symbol driving : String) where
  -- The body of the loop; an index out of range does not occur.
  unfoldable pub replay_bar :
      List (Candle D)
      → Dict String (List (Candle D))
      → ℕ
      → Option (Candle D)
      → Walk D
      → Option (Walk D)
  unfolding history_at
  replay_bar driver others index none w = none
  replay_bar driver others index (some bar) w =
      let w' = manage p bar w.open_trade (record w { bars_replayed = suc w.bars_replayed }) in
      if is_open w'.open_trade
      then some w'
      else entered p symbol bar
          (view (context_of symbol (history_at p driving driver others index bar))) w'

  -- `for index in range(...)`, with the rounds that are left.
  unfoldable pub walk :
      List (Candle D) → Dict String (List (Candle D)) → ℕ → ℕ → Walk D → Option (Walk D)
  unfolding replay_bar
  walk driver others zero index w = some w
  walk driver others (suc rounds) index w =
      then_walk (replay_bar driver others index (get_elem? driver index) w)
        (walk driver others rounds (suc index))

  -- `run`: `none` is its `ValueError`, or an exception of the analyst.
  unfoldable pub run : Dict String (List (Candle D)) → Option (Walk D)
  unfolding walk
  run candles =
      let driver = or_empty (lookup driving candles) in
      if leb_ℕ (length driver) p.warmup_bars
      then none
      else finish_walk p (final driver) (
          walk driver (without driving candles) (sub_ℕ (length driver) p.warmup_bars) p.warmup_bars
            fresh_walk)
