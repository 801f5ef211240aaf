-- ===== src/Portfolio/State.antt =====
-- `class PortfolioTracker`: its state, its sums, `mark` and `_roll_day`. A method takes a reading of
-- the clock; `utc_now` is read once a call.
use crypto_research_platform.Prelude.{
  ℕ, String, Bool, true, false, none, some, [], ◌∷◌, ◌==◌, nat_eq, string_eq, if◌then◌else◌,
}
use crypto_research_platform.Prelude.Dict.{Dict, lookup, insert}
use crypto_research_platform.Decimal.{Decimal, ◌+◌, of_ℕ, leb}
use crypto_research_platform.Schemas.{Position, notional, unrealized_pnl}

-- One reading of `utc_now()`: the instant and its UTC day.
pub record Clock (D : Type 0) : Type 0 where
  pub now : D
  pub today : ℕ

pub record Tracker (D : Type 0) : Type 0 where
  pub starting_equity : D
  pub cash : D
  pub day_start_equity : D
  pub is_paper : Bool
  pub realized_pnl : D
  pub fees_paid : D
  pub trade_count : ℕ
  pub win_count : ℕ
  pub loss_count : ℕ
  pub positions : Dict String (Position D)
  pub marks : Dict String D
  pub day : ℕ

module _ {D : Type 0} ⦃d : Decimal D⦄ where
  abbrev pub sum_of : {V : Type 0} → (V → D) → Dict String V → D
  sum_of f [] = of_ℕ 0
  sum_of f ((k, p) ∷ ps) = f p + sum_of f ps

  unfoldable pub create : D → Bool → Clock D → Tracker D
  create starting is_paper c = record {
    starting_equity = starting;
    cash = starting;
    day_start_equity = starting;
    is_paper = is_paper;
    realized_pnl = of_ℕ 0;
    fees_paid = of_ℕ 0;
    trade_count = 0;
    win_count = 0;
    loss_count = 0;
    positions = [];
    marks = [];
    day = c.today;
  }

  unfoldable pub total_unrealized : Tracker D → D
  total_unrealized t = sum_of unrealized_pnl t.positions

  unfoldable pub gross_notional : Tracker D → D
  gross_notional t = sum_of notional t.positions

  unfoldable pub equity : Tracker D → D
  equity t = t.cash + total_unrealized t

  -- `True` if an open position was revalued
  unfoldable pub mark : Clock D → String → D → Tracker D → Tracker D × Bool
  mark c symbol price t =
      if leb price (of_ℕ 0)
      then (t, false)
      else let t' = record t { marks = insert symbol price t.marks } in
        elim (lookup symbol t.positions) [
          | none ↦ (t', false)
          | some p ↦ (
            record t' {
              positions =
                  insert symbol (record p { mark_price = price; updated_at = c.now }) t.positions;
            },
            true,
          )
        ]

  unfoldable pub roll_day : Clock D → Tracker D → Tracker D
  roll_day c t =
      if c.today == t.day then t else record t { day = c.today; day_start_equity = equity t }
