-- ===== src/Schemas/Market.antt =====
-- libs/schemas/market.py: order books, trades, candles and contract metrics.
use crypto_research_platform.Prelude.{
  ℕ, String, Bool, Option, none, some, List, [], ◌∷◌, take, if◌then◌else◌,
}
use crypto_research_platform.Decimal.{Decimal, ◌+◌, ◌-◌, ◌*◌, ◌/◌, of_ℕ, leb, eqb}
use crypto_research_platform.Schemas.Enums.{Side}

pub record BookLevel (D : Type 0) : Type 0 where
  pub price : D
  pub size : D
  pub order_count : ℕ

pub record OrderBookSnapshot (D : Type 0) : Type 0 where
  pub symbol : String
  pub bids : List (BookLevel D)
  pub asks : List (BookLevel D)
  pub occurred_at : D

pub record TradeTick (D : Type 0) : Type 0 where
  pub symbol : String
  pub price : D
  pub size : D
  pub side : Side

pub record Candle (D : Type 0) : Type 0 where
  pub symbol : String
  pub interval : String
  pub open_time : D
  pub close_time : D
  pub open_price : D
  pub high : D
  pub low : D
  pub close : D
  pub volume : D
  pub trade_count : ℕ
  pub is_closed : Bool
  pub correlation_id : ℕ

pub record FundingRate (D : Type 0) : Type 0 where
  pub symbol : String
  pub funding_rate : D
  pub premium : Option D
  pub occurred_at : D

pub record PerpMetrics (D : Type 0) : Type 0 where
  pub symbol : String
  pub open_interest : D
  pub mark_price : D
  pub occurred_at : D

module _ {D : Type 0} where
  abbrev best : List (BookLevel D) → Option D
  best [] = none
  best (l ∷ ls) = some l.price

  abbrev pub best_bid : OrderBookSnapshot D → Option D
  best_bid b = best b.bids

  abbrev pub best_ask : OrderBookSnapshot D → Option D
  best_ask b = best b.asks

module _ {D : Type 0} ⦃d : Decimal D⦄ where
  abbrev mid_of : Option D → Option D → Option D
  mid_of (some bid) (some ask) = some ((bid + ask) / of_ℕ 2)
  mid_of _ _ = none

  abbrev pub mid_price : OrderBookSnapshot D → Option D
  mid_price b = mid_of (best_bid b) (best_ask b)

  abbrev spread_of : Option D → Option D → Option D → Option D
  spread_of (some bid) (some ask) (some mid) =
      if eqb mid (of_ℕ 0) then none else some ((ask - bid) / mid * of_ℕ 10000)
  spread_of _ _ _ = none

  unfoldable pub spread_bps : OrderBookSnapshot D → Option D
  spread_bps b = spread_of (best_bid b) (best_ask b) (mid_price b)

  unfoldable pub size_total : List (BookLevel D) → D
  size_total [] = of_ℕ 0
  size_total (l ∷ ls) = l.size + size_total ls

  unfoldable pub imbalance : ℕ → OrderBookSnapshot D → D
  imbalance depth b =
      let bid_size = size_total (take depth b.bids) in
      let ask_size = size_total (take depth b.asks) in
      let total = bid_size + ask_size in
      if leb total (of_ℕ 0) then of_ℕ 0 else (bid_size - ask_size) / total
