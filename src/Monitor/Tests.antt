-- ===== src/Monitor/Tests.antt =====
-- A guarded long of 2 from 100, trailing by 10%, with a stop at 90 and a target at 150.
use crypto_research_platform.Prelude.{
  inl, inr, Bool-cases, ◌==◌, string_eq, true, false, ◌≡◌, ◌≢◌, refl, none, some, [], ◌∷◌,
}
use crypto_research_platform.Prelude.Dict.{lookup}
use crypto_research_platform.Decimal.Int.{ℤ, pos, whole, whole-IsExact, ◌+ℤ◌, ◌-ℤ◌, ◌*ℤ◌, fdiv}
use crypto_research_platform.Schemas.{Side, Direction, Position, PortfolioSnapshot, Event}
use crypto_research_platform.Monitor.Guard.{ProtectedPosition, observe, effective_stop, breach}
use crypto_research_platform.Monitor.Defs.{
  Monitor, adopted, reconcile, price_guard, on_price, handle,
}
use crypto_research_platform.Monitor.Rows.{to_row, from_row, direction_from}
use crypto_research_platform.Monitor.Mirror.{Table, IsStored}
use crypto_research_platform.Monitor.Reconcile.{lookup-reconcile}
use crypto_research_platform.Monitor.Restart.{KeptTick, handle-IsStored}
use crypto_research_platform.Monitor.Ratchet.{IsNoLooser, effective_stop-observe}
use crypto_research_platform.Monitor.Breach.{Explains, breach-Explains}
use crypto_research_platform.Monitor.Exits.{Answers, on_price-Answers, on_price_once}

abbrev guarded : ProtectedPosition ℤ
guarded = record {
  symbol = "BTC";
  direction = Direction.long;
  size = pos 2;
  entry_price = pos 100;
  stop_price = some (pos 90);
  take_profit_price = some (pos 150);
  trailing_stop_pct = some (pos 10);
  extreme_price = some (pos 100);
  exit_pending = false;
  correlation_id = none;
  decision_id = none;
  opened_at = pos 1;
  updated_at = pos 1;
}

abbrev monitor : Monitor ℤ
monitor = record {
  default_trailing_stop_pct = none;
  pending_orders = [];
  exits_fired = 0;
  ticks_processed = 0;
  is_paper = true;
  positions = ("BTC", guarded) ∷ [];
}

effective_stop-observe_example :
    IsNoLooser Direction.long (effective_stop (observe (pos 140) guarded)) (effective_stop guarded)
unfolding ◌*ℤ◌ ◌+ℤ◌ ◌-ℤ◌ fdiv
effective_stop-observe_example = effective_stop-observe whole-IsExact (pos 140) guarded (refl, refl)

breach-Explains_example : Explains (pos 160) guarded (breach (pos 160) guarded)
breach-Explains_example = breach-Explains whole-IsExact (pos 160) guarded

on_price-Answers_example : Answers "BTC" (pos 80) (some guarded) (on_price 5 "BTC" (pos 80) monitor)
unfolding lookup
on_price-Answers_example = on_price-Answers whole-IsExact 5 "BTC" (pos 80) monitor

fires : (on_price 5 "BTC" (pos 80) monitor).2 ≢ []
unfolding on_price price_guard lookup breach observe ◌*ℤ◌ ◌-ℤ◌ fdiv
fires h = cc

on_price_once_example : (on_price 6 "BTC" (pos 70) (on_price 5 "BTC" (pos 80) monitor).0).2 ≡ []
on_price_once_example = on_price_once 5 6 "BTC" (pos 80) (pos 70) monitor fires

-- The row of the guard, as it was saved.
abbrev stored : Table ℤ
stored = ("BTC", to_row (pos 1) guarded) ∷ []

stored-IsStored : IsStored monitor.positions stored
unfolding lookup to_row from_row direction_from
stored-IsStored s = elim (Bool-cases ("BTC" == s)) [
  | inl here ↦ rw here (
    (string_eq.same_iff "BTC" s).0 here,
    (
      guarded,
      refl,
      record {
        same_symbol = refl;
        same_side = refl;
        same_size = refl;
        same_stop = refl;
        same_target = refl;
        same_trail = refl;
        same_pending = refl;
        as_tight = inr refl;
      },
    ),
  )
  | inr other ↦ rw other tt
]

-- A trade at a new best price, which moves the trail.
abbrev tick : Event ℤ
tick = Event.trade (record { symbol = "BTC"; price = pos 140; size = pos 1; side = Side.buy })

handle-IsStored_example : KeptTick (pos 9) stored (handle (pos 9) 5 tick monitor)
handle-IsStored_example =
    handle-IsStored whole-IsExact (pos 9) 5 tick monitor stored stored-IsStored

-- A snapshot that has a position in another symbol only.
abbrev position : Position ℤ
position = record {
  symbol = "ETH";
  direction = Direction.short;
  size = pos 3;
  entry_price = pos 50;
  mark_price = pos 48;
  realized_pnl = pos 0;
  fees_paid = pos 0;
  opened_at = pos 4;
  updated_at = pos 4;
  stop_price = some (pos 55);
  take_profit_price = none;
  trailing_stop_pct = none;
  opening_correlation_id = none;
  opening_decision_id = none;
}

abbrev snapshot : PortfolioSnapshot ℤ
snapshot = record {
  equity = pos 1000;
  cash = pos 1000;
  starting_equity = pos 1000;
  day_start_equity = pos 1000;
  realized_pnl = pos 0;
  unrealized_pnl = pos 0;
  fees_paid = pos 0;
  gross_notional = pos 144;
  positions = position ∷ [];
  trade_count = 0;
  win_count = 0;
  loss_count = 0;
  is_paper = true;
}

lookup-reconcile_example :
    lookup "ETH" (reconcile (pos 9) snapshot monitor).0.positions
    ≡ some (adopted (pos 9) position monitor)
unfolding lookup
lookup-reconcile_example = lookup-reconcile (pos 9) snapshot monitor "ETH"
