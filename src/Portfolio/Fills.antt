-- ===== src/Portfolio/Fills.antt =====
-- `PortfolioTracker.apply_fill`, with `_open`, `_add`, `_reduce_or_flip` and `_build_closure`.
use crypto_research_platform.Prelude.{
  ℕ, suc, String, Option, none, some, ◌==◌, nat_eq, string_eq, if◌then◌else◌,
}
use crypto_research_platform.Prelude.Dict.{Dict, lookup, insert, erase}
use crypto_research_platform.Decimal.{Decimal, ◌+◌, ◌-◌, ◌*◌, ◌/◌, of_ℕ, ltb, min}
use crypto_research_platform.Schemas.{
  Direction, same_direction, direction_of_side, sign, ExitReason, parse_exit_reason, Position,
  PositionClosed, Fill, OrderIntent,
}
use crypto_research_platform.Portfolio.State.{Clock, Tracker, roll_day}

abbrev pub parsed : Option ExitReason → ExitReason
parsed none = ExitReason.unknown
parsed (some r) = r

abbrev pub or_id : Option ℕ → ℕ → ℕ
or_id none i = i
or_id (some j) i = j

module _ {D : Type 0} ⦃d : Decimal D⦄ where
  -- The levels that an opening order carries.
  abbrev pub level : (OrderIntent D → Option D) → Option (OrderIntent D) → Option D
  level f none = none
  level f (some o) = f o

  abbrev pub fresh_position : Clock D → Fill D → Direction → D → Option (OrderIntent D) → Position D
  fresh_position c f direction size o = record {
    symbol = f.symbol;
    direction = direction;
    size = size;
    entry_price = f.price;
    mark_price = f.price;
    realized_pnl = of_ℕ 0;
    fees_paid = f.fee;
    opened_at = c.now;
    updated_at = c.now;
    stop_price = level (λ x. x.stop_price) o;
    take_profit_price = level (λ x. x.take_profit_price) o;
    trailing_stop_pct = level (λ x. x.trailing_stop_pct) o;
    opening_correlation_id = some f.correlation_id;
    opening_decision_id = f.decision_id;
  }

  -- `_open`
  unfoldable pub open_fill :
      Clock D → Fill D → Direction → Option (OrderIntent D) → Tracker D → Tracker D
  open_fill c f direction o t = record t {
    positions = insert f.symbol (fresh_position c f direction f.size o) t.positions;
  }

  unfoldable pub average_entry : Position D → Fill D → D
  average_entry p f = (p.entry_price * p.size + f.price * f.size) / (p.size + f.size)

  -- `_add`
  unfoldable pub add_fill : Clock D → Position D → Fill D → Tracker D → Tracker D
  add_fill c p f t =
      let p' = record p {
        size = p.size + f.size;
        entry_price = average_entry p f;
        mark_price = f.price;
        fees_paid = p.fees_paid + f.fee;
        updated_at = c.now;
      } in
      record t { positions = insert f.symbol p' t.positions }

  abbrev pub stated : OrderIntent D → Option String → ExitReason
  stated o none = if o.reduce_only then ExitReason.unknown else ExitReason.signal_reversal
  stated o (some r) =
      if r == ""
      then (if o.reduce_only then ExitReason.unknown else ExitReason.signal_reversal)
      else parsed (parse_exit_reason r)

  unfoldable pub closure_reason : Option (OrderIntent D) → ExitReason
  closure_reason none = ExitReason.unknown
  closure_reason (some o) = stated o o.exit_reason

  unfoldable pub build_closure :
      Clock D → Position D → Fill D → D → D → Option (OrderIntent D) → PositionClosed D
  build_closure c p f closed_size pnl o = record {
    symbol = p.symbol;
    direction = p.direction;
    size = closed_size;
    entry_price = p.entry_price;
    exit_price = f.price;
    realized_pnl = pnl;
    fees_paid = p.fees_paid + f.fee;
    exit_reason = closure_reason o;
    opened_at = p.opened_at;
    closed_at = c.now;
    opening_correlation_id = p.opening_correlation_id;
    opening_decision_id = p.opening_decision_id;
    correlation_id = or_id p.opening_correlation_id f.correlation_id;
  }

  unfoldable pub realised : Position D → Fill D → D
  realised p f = (f.price - p.entry_price) * min p.size f.size * sign p.direction

  -- The account's part of `_reduce_or_flip`.
  unfoldable pub book_pnl : D → Tracker D → Tracker D
  book_pnl pnl t = record t {
    realized_pnl = t.realized_pnl + pnl;
    cash = t.cash + pnl;
    win_count = if ltb (of_ℕ 0) pnl then suc t.win_count else t.win_count;
    loss_count =
        if ltb (of_ℕ 0) pnl
        then t.loss_count
        else if ltb pnl (of_ℕ 0)
        then suc t.loss_count
        else t.loss_count;
  }

  -- The positions after `_reduce_or_flip`.
  unfoldable pub reduce_positions :
      Clock D
      → Position D
      → Fill D
      → Direction
      → Dict String (Position D)
      → Dict String (Position D)
  reduce_positions c p f direction ps =
      let closed_size = min p.size f.size in
      let remainder = f.size - closed_size in
      if ltb closed_size p.size
      then insert f.symbol
          (record p {
            size = p.size - closed_size;
            mark_price = f.price;
            realized_pnl = p.realized_pnl + realised p f;
            fees_paid = p.fees_paid + f.fee;
            updated_at = c.now;
          })
          ps
      else let left = erase f.symbol ps in
        if ltb (of_ℕ 0) remainder
        then insert f.symbol (fresh_position c f direction remainder none) left
        else left

  unfoldable pub reduce_or_flip :
      Clock D
      → Position D
      → Fill D
      → Direction
      → Option (OrderIntent D)
      → Tracker D
      → Tracker D × Option (PositionClosed D)
  unfolding book_pnl
  reduce_or_flip c p f direction o t =
      let pnl = realised p f in
      let closed_size = min p.size f.size in
      (
        record (book_pnl pnl t) { positions = reduce_positions c p f direction t.positions },
        (if ltb closed_size p.size then none else some (build_closure c p f closed_size pnl o)),
      )

  -- The cash and counter updates with which `apply_fill` begins.
  unfoldable pub charge : Fill D → Tracker D → Tracker D
  charge f t = record t {
    trade_count = suc t.trade_count;
    cash = t.cash - f.fee;
    fees_paid = t.fees_paid + f.fee;
    marks = insert f.symbol f.price t.marks;
  }

  unfoldable pub dispatch :
      Clock D
      → Fill D
      → Option (OrderIntent D)
      → Option (Position D)
      → Tracker D
      → Tracker D × Option (PositionClosed D)
  unfolding open_fill add_fill reduce_or_flip
  dispatch c f o none t = (open_fill c f (direction_of_side f.side) o t, none)
  dispatch c f o (some p) t =
      if same_direction p.direction (direction_of_side f.side)
      then (add_fill c p f t, none)
      else reduce_or_flip c p f (direction_of_side f.side) o t

  unfoldable pub apply_fill :
      Clock D → Fill D → Option (OrderIntent D) → Tracker D → Tracker D × Option (PositionClosed D)
  unfolding charge dispatch
  apply_fill c f o t =
      let t' = charge f (roll_day c t) in dispatch c f o (lookup f.symbol t'.positions) t'
