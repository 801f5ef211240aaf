-- ===== src/Broker/Defs.antt =====
-- `walk_book` and `class PaperBroker`. A fresh fill id and the reading of the clock are arguments.
use crypto_research_platform.Prelude.{
  ℕ, suc, String, true, Option, none, some, List, [], ◌∷◌, string_eq, if◌then◌else◌,
}
use crypto_research_platform.Prelude.Dict.{Dict, lookup, insert}
use crypto_research_platform.Decimal.{
  Decimal, ◌+◌, ◌-◌, ◌*◌, ◌/◌, of_ℕ, leb, ltb, min, quantize_half_up, round,
}
use crypto_research_platform.Schemas.{
  Side, is_buy, BookLevel, OrderBookSnapshot, best_bid, best_ask, OrderIntent, Fill, Topic, Event,
  Publication,
}

-- What `FillRejected` was raised for.
pub data Rejection : Type 0 where
  empty_side no_resting_size no_book stale_book : Rejection

pub data Outcome (A : Type 0) : Type 0 where
  filled : A → Outcome A
  rejected : Rejection → Outcome A

pub record PaperParams (D : Type 0) : Type 0 where
  pub taker_fee_bps : D
  pub slippage_bps : D
  pub max_book_age_s : D

pub record Broker (D : Type 0) : Type 0 where
  pub params : PaperParams D
  pub books : Dict String (OrderBookSnapshot D)
  pub fills_published : ℕ
  pub orders_rejected : ℕ

module _ {D : Type 0} ⦃d : Decimal D⦄ where
  -- The loop over the levels: (remaining, notional, filled size).
  unfoldable pub walk_levels : List (BookLevel D) → D → D → D → D × D
  walk_levels [] remaining notional got = (notional, got)
  walk_levels (l ∷ ls) remaining notional got =
      let take = min remaining l.size in
      let go_on = walk_levels ls (remaining - take) (notional + take * l.price) (got + take) in
      let skip = walk_levels ls remaining notional got in
      if leb remaining (of_ℕ 0) then (notional, got) else if leb take (of_ℕ 0) then skip else go_on

  unfoldable pub priced : D × D → Outcome (D × D)
  priced (notional, got) =
      if leb got (of_ℕ 0) then rejected no_resting_size else Outcome.filled (got, notional / got)

  -- The filled size and the volume-weighted price.
  unfoldable pub walk_book : List (BookLevel D) → D → Outcome (D × D)
  unfolding priced
  walk_book [] size = rejected empty_side
  walk_book (l ∷ ls) size = priced (walk_levels (l ∷ ls) size (of_ℕ 0) (of_ℕ 0))

  unfoldable pub taken_side : Side → OrderBookSnapshot D → List (BookLevel D)
  taken_side Side.buy b = b.asks
  taken_side Side.sell b = b.bids

  unfoldable pub adverse : PaperParams D → Side → D
  adverse p Side.buy = of_ℕ 1 + p.slippage_bps / of_ℕ 10000
  adverse p Side.sell = of_ℕ 1 - p.slippage_bps / of_ℕ 10000

  abbrev pub reference : Side → OrderBookSnapshot D → Option D
  reference Side.buy b = best_ask b
  reference Side.sell b = best_bid b

  abbrev pub drift_bps : Side → D → D → D
  drift_bps s price ref =
      let drift = (price - ref) / ref * of_ℕ 10000 in if is_buy s then drift else of_ℕ 0 - drift

  unfoldable pub effective_slippage : Side → D → Option D → D
  effective_slippage s price none = of_ℕ 0
  effective_slippage s price (some ref) = if ltb (of_ℕ 0) ref then drift_bps s price ref else of_ℕ 0

  unfoldable pub fill_price : PaperParams D → Side → D → D
  unfolding adverse
  fill_price p s book_price = quantize_half_up 8 (book_price * adverse p s)

  unfoldable pub taker_fee : PaperParams D → D → D → D
  taker_fee p size price = quantize_half_up 8 (size * price * p.taker_fee_bps / of_ℕ 10000)

  unfoldable pub fill_of : PaperParams D → ℕ → OrderIntent D → OrderBookSnapshot D → D × D → Fill D
  unfolding fill_price taker_fee effective_slippage
  fill_of p fill_id o b (filled_size, book_price) =
      let price = fill_price p o.side book_price in
      record {
        fill_id = fill_id;
        order_id = o.order_id;
        decision_id = some o.decision_id;
        symbol = o.symbol;
        side = o.side;
        size = filled_size;
        price = price;
        fee = taker_fee p filled_size price;
        slippage_bps = round 4 (effective_slippage o.side price (reference o.side b));
        reference_price = reference o.side b;
        is_paper = true;
        reduce_only = o.reduce_only;
        correlation_id = o.correlation_id;
      }

  abbrev pub fill_with :
      PaperParams D → ℕ → OrderIntent D → OrderBookSnapshot D → Outcome (D × D) → Outcome (Fill D)
  fill_with p fill_id o b (rejected r) = rejected r
  fill_with p fill_id o b (Outcome.filled w) = Outcome.filled (fill_of p fill_id o b w)

  unfoldable pub fill_from :
      D → PaperParams D → ℕ → OrderIntent D → Option (OrderBookSnapshot D) → Outcome (Fill D)
  fill_from now p fill_id o none = rejected no_book
  fill_from now p fill_id o (some b) =
      if ltb p.max_book_age_s (now - b.occurred_at)
      then rejected stale_book
      else fill_with p fill_id o b (walk_book (taken_side o.side b) o.size)

  unfoldable pub simulate_fill : D → ℕ → OrderIntent D → Broker D → Outcome (Fill D)
  unfolding fill_from
  simulate_fill now fill_id o k = fill_from now k.params fill_id o (lookup o.symbol k.books)

  abbrev pub settle : Outcome (Fill D) → Broker D → Broker D × List (Publication D)
  settle (rejected r) k = (record k { orders_rejected = suc k.orders_rejected }, [])
  settle (Outcome.filled f) k =
      (record k { fills_published = suc k.fills_published }, (Topic.fills, Event.fill f) ∷ [])

  unfoldable pub handle : D → ℕ → Event D → Broker D → Broker D × List (Publication D)
  handle now fill_id (Event.book b) k = (record k { books = insert b.symbol b k.books }, [])
  handle now fill_id (Event.order o) k = settle (simulate_fill now fill_id o k) k
  handle now fill_id _ k = (k, [])
