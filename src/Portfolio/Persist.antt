-- ===== src/Portfolio/Persist.antt =====
-- `PortfolioTracker.restore` and `snapshot`, and the row that `_save_state` writes.
use Prim.Native.Nat.{Ordering}
use Prim.Native.String.{compare}
use crypto_research_platform.Prelude.{
  ℕ, String, Bool, Option, none, some, List, [], ◌∷◌, nat_eq, string_eq,
}
use crypto_research_platform.Prelude.Dict.{Dict, insert}
use crypto_research_platform.Decimal.{Decimal}
use crypto_research_platform.Schemas.{Position, PortfolioSnapshot}
use crypto_research_platform.Portfolio.State.{
  Clock, Tracker, roll_day, equity, gross_notional, total_unrealized,
}

-- The account row that is persisted.
pub record AccountState (D : Type 0) : Type 0 where
  pub cash : D
  pub starting_equity : D
  pub day_start_equity : D
  pub realized_pnl : D
  pub fees_paid : D
  pub trade_count : ℕ
  pub win_count : ℕ
  pub loss_count : ℕ
  pub day_of : ℕ
  pub is_paper : Bool

-- `sorted(self._positions)`, by symbol
unfoldable pub insert_sorted : {V : Type 0} → String × V → List (String × V) → List (String × V)
insert_sorted e [] = e ∷ []
insert_sorted e (x ∷ xs) = elim (compare e.0 x.0) [
  | Ordering.gt ↦ x ∷ insert_sorted e xs
  | _ ↦ e ∷ (x ∷ xs)
]

unfoldable pub sorted_items : {V : Type 0} → List (String × V) → List (String × V)
unfolding insert_sorted
sorted_items [] = []
sorted_items (x ∷ xs) = insert_sorted x (sorted_items xs)

abbrev pub values : {V : Type 0} → List (String × V) → List V
values [] = []
values ((k, v) ∷ xs) = v ∷ values xs

module _ {D : Type 0} ⦃d : Decimal D⦄ where
  unfoldable pub open_positions : Tracker D → List (Position D)
  open_positions t = values (sorted_items t.positions)

  abbrev pub keyed : List (Position D) → Dict String (Position D) → Dict String (Position D)
  keyed [] m = m
  keyed (p ∷ ps) m = keyed ps (insert p.symbol p m)

  abbrev pub keyed_marks : List (Position D) → Dict String D → Dict String D
  keyed_marks [] m = m
  keyed_marks (p ∷ ps) m = keyed_marks ps (insert p.symbol p.mark_price m)

  abbrev pub restore_state : Option (AccountState D) → Tracker D → Tracker D
  restore_state none t = t
  restore_state (some s) t = record t {
    cash = s.cash;
    starting_equity = s.starting_equity;
    day_start_equity = s.day_start_equity;
    realized_pnl = s.realized_pnl;
    fees_paid = s.fees_paid;
    trade_count = s.trade_count;
    win_count = s.win_count;
    loss_count = s.loss_count;
    day = s.day_of;
  }

  unfoldable pub restore : Option (AccountState D) → List (Position D) → Tracker D → Tracker D
  restore s ps t = record (restore_state s t) { positions = keyed ps []; marks = keyed_marks ps [] }

  unfoldable pub snapshot : Clock D → Tracker D → Tracker D × PortfolioSnapshot D
  snapshot c t =
      let t' = roll_day c t in
      (
        t',
        record {
          equity = equity t';
          cash = t'.cash;
          starting_equity = t'.starting_equity;
          day_start_equity = t'.day_start_equity;
          realized_pnl = t'.realized_pnl;
          unrealized_pnl = total_unrealized t';
          fees_paid = t'.fees_paid;
          gross_notional = gross_notional t';
          positions = open_positions t';
          trade_count = t'.trade_count;
          win_count = t'.win_count;
          loss_count = t'.loss_count;
          is_paper = t'.is_paper;
        },
      )

  -- The row that `_save_state` writes.
  unfoldable pub account_row : Tracker D → AccountState D
  account_row t = record {
    cash = t.cash;
    starting_equity = t.starting_equity;
    day_start_equity = t.day_start_equity;
    realized_pnl = t.realized_pnl;
    fees_paid = t.fees_paid;
    trade_count = t.trade_count;
    win_count = t.win_count;
    loss_count = t.loss_count;
    day_of = t.day;
    is_paper = t.is_paper;
  }
