-- ===== src/Research/Study.antt =====
-- services/research/study.py. A `next_allowed` of -1 is 0: an index is never below it. A note is the two
-- numbers of its text; `none` of a run is an exception of the signal.
use Prim.Native.Nat.{◌-◌ as sub_ℕ, max as max_ℕ}
use crypto_research_platform.Prelude.{
  ℕ, zero, suc, ◌+ℕ◌, String, Bool, true, false, Option, none, some, List, [], ◌∷◌, ◌++◌, length,
  take, drop, leb as leb_ℕ, if◌then◌else◌, get_elem?,
}
use crypto_research_platform.Decimal.{Decimal, ◌-◌, ◌*◌, ◌/◌, of_ℕ, leb}
use crypto_research_platform.Schemas.{Candle, FundingRate, Direction, sign, same_direction}
use crypto_research_platform.Analyst.Indicators.{last_of}
use crypto_research_platform.Analyst.Scores.{last_value}
use crypto_research_platform.Backtest.Replay.{slice}
use crypto_research_platform.Research.Signals.{SignalWindow, SignalReading, SignalSpec, probability}

pub record Observation (D : Type 0) : Type 0 where
  pub symbol : String
  pub index : ℕ
  pub timestamp : D
  pub direction : Direction
  pub probability : D
  pub conviction : D
  pub value : D
  pub entry_price : D
  pub exit_price : D
  pub gross_return : D
  pub net_return : D
  pub independent : Bool

pub record StudyResult (D : Type 0) : Type 0 where
  pub signal : String
  pub horizon : ℕ
  pub symbols : List String
  pub cost_bps : D
  pub bars_scanned : ℕ
  pub observations : List (Observation D)
  pub first_bar : Option D
  pub last_bar : Option D
  pub note : Option (ℕ × ℕ)

-- `ForwardHorizonStudy`
pub record ForwardStudy (D : Type 0) : Type 0 where
  pub horizon : ℕ
  pub cost_bps : D
  pub window_bars : ℕ

-- The variables of the loop of `run`.
pub record Scan (D : Type 0) : Type 0 where
  pub funding_cursor : ℕ
  pub bars_scanned : ℕ
  pub observations : List (Observation D)

module _ {D : Type 0} where
  abbrev pub open_of : List (Candle D) → Option D
  open_of [] = none
  open_of (c ∷ cs) = some c.open_time

  abbrev pub last_open : Option (Candle D) → Option D
  last_open none = none
  last_open (some c) = some c.open_time

  -- `_mark_independent`, from a value of `next_allowed`
  unfoldable pub mark_from : ℕ → ℕ → List (Observation D) → List (Observation D)
  mark_from horizon next [] = []
  mark_from horizon next (o ∷ os) =
      (if leb_ℕ next o.index then record o { independent = true } else o)
      ∷ mark_from horizon (if leb_ℕ next o.index then o.index +ℕ horizon else next) os

  unfoldable pub mark_independent : ℕ → List (Observation D) → List (Observation D)
  mark_independent horizon os = mark_from horizon 0 os

  abbrev pub then_scan : Option (Scan D) → (Scan D → Option (Scan D)) → Option (Scan D)
  then_scan none f = none
  then_scan (some s) f = f s

module _ {D : Type 0} ⦃d : Decimal D⦄ where
  abbrev pub round_trip_cost : ForwardStudy D → D
  round_trip_cost s = of_ℕ 2 * s.cost_bps / of_ℕ 10000

  -- The `while` that moves the cursor, over the funding that it has not passed.
  abbrev pub settled_by : D → List (FundingRate D) → ℕ → ℕ
  settled_by time [] cursor = cursor
  settled_by time (f ∷ fs) cursor =
      let rest = settled_by time fs (suc cursor) in if leb f.occurred_at time then rest else cursor

  abbrev pub window_at :
      ForwardStudy D → List (Candle D) → List (FundingRate D) → List D → ℕ → ℕ → SignalWindow D
  window_at s candles funding open_interest cursor index = record {
    candles = slice (sub_ℕ (index +ℕ 1) s.window_bars) (index +ℕ 1) candles;
    funding = last_of s.window_bars (take cursor funding);
    order_book = none;
    open_interest = last_of s.window_bars (take (index +ℕ 1) open_interest);
  }

  abbrev pub observation_of :
      ForwardStudy D → String → ℕ → Candle D → D → SignalReading D → Observation D
  observation_of s symbol index bar exit_price r =
      let gross = (exit_price - bar.close) / bar.close * sign r.direction in
      record {
        symbol = symbol;
        index = index;
        timestamp = bar.close_time;
        direction = r.direction;
        probability = probability r;
        conviction = r.conviction;
        value = r.value;
        entry_price = bar.close;
        exit_price = exit_price;
        gross_return = gross;
        net_return = gross - round_trip_cost s;
        independent = false;
      }

  -- What a bar adds; `none` inside is a reading of `None`.
  abbrev pub observed :
      ForwardStudy D
      → String
      → ℕ
      → Candle D
      → Option (Candle D)
      → Option (SignalReading D)
      → List (Observation D)
  observed s symbol index bar (some exit) (some r) =
      if same_direction r.direction Direction.flat
      then []
      else if leb bar.close (of_ℕ 0)
      then []
      else observation_of s symbol index bar exit.close r ∷ []
  observed s symbol index bar _ _ = []

  abbrev pub with_reading :
      ForwardStudy D
      → String
      → ℕ
      → Candle D
      → Option (Candle D)
      → ℕ
      → Scan D
      → Option (Option (SignalReading D))
      → Option (Scan D)
  with_reading s symbol index bar exit cursor w none = none
  with_reading s symbol index bar exit cursor w (some r) = some (record {
    funding_cursor = cursor;
    bars_scanned = suc w.bars_scanned;
    observations = w.observations ++ observed s symbol index bar exit r;
  })

  -- The body of the loop; the candle of an index below `last` is there.
  abbrev pub scan_bar :
      ForwardStudy D
      → SignalSpec D
      → String
      → List (Candle D)
      → List (FundingRate D)
      → List D
      → ℕ
      → Scan D
      → Option (Candle D)
      → Option (Scan D)
  scan_bar s spec symbol candles funding open_interest index w none = none
  scan_bar s spec symbol candles funding open_interest index w (some bar) =
      let cursor = settled_by bar.close_time (drop w.funding_cursor funding) w.funding_cursor in
      with_reading s symbol index bar (get_elem? candles (index +ℕ s.horizon)) cursor w
        (spec.evaluate (window_at s candles funding open_interest cursor index))

  -- The loop, by the bars that are left.
  unfoldable pub scan :
      ForwardStudy D
      → SignalSpec D
      → String
      → List (Candle D)
      → List (FundingRate D)
      → List D
      → ℕ
      → ℕ
      → Scan D
      → Option (Scan D)
  scan s spec symbol candles funding open_interest zero index w = some w
  scan s spec symbol candles funding open_interest (suc left) index w =
      then_scan
        (scan_bar s spec symbol candles funding open_interest index w (get_elem? candles index))
        (λ after. scan s spec symbol candles funding open_interest left (suc index) after)

  abbrev pub result_of :
      ForwardStudy D
      → SignalSpec D
      → String
      → List (Candle D)
      → ℕ
      → List (Observation D)
      → Option (ℕ × ℕ)
      → StudyResult D
  result_of s spec symbol candles bars observations note = record {
    signal = spec.name;
    horizon = s.horizon;
    symbols = symbol ∷ [];
    cost_bps = s.cost_bps;
    bars_scanned = bars;
    observations = observations;
    first_bar = open_of candles;
    last_bar = last_open (last_value candles);
    note = note;
  }

  abbrev pub finished :
      ForwardStudy D
      → SignalSpec D
      → String
      → List (Candle D)
      → Option (Scan D)
      → Option (StudyResult D)
  finished s spec symbol candles none = none
  finished s spec symbol candles (some w) = some (
      result_of s spec symbol candles w.bars_scanned (mark_independent s.horizon w.observations)
        none)

  unfoldable pub run_study :
      ForwardStudy D
      → SignalSpec D
      → String
      → List (Candle D)
      → List (FundingRate D)
      → List D
      → Option (StudyResult D)
  unfolding mark_independent scan
  run_study s spec symbol candles funding open_interest =
      let start = sub_ℕ (max_ℕ spec.min_bars 1) 1 in
      let last = sub_ℕ (length candles) s.horizon in
      if leb_ℕ last start
      then some (result_of s spec symbol candles 0 [] (some (length candles, start +ℕ s.horizon)))
      else finished s spec symbol candles (
          scan s spec symbol candles funding open_interest (sub_ℕ last start) start
            (record { funding_cursor = 0; bars_scanned = 0; observations = [] }))
