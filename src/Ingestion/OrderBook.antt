-- ===== src/Ingestion/OrderBook.antt =====
-- services/data_ingestion/market_data/hyperliquid_orderbook.py: the parsing of a book and the collector's
-- throttle. Readings of the clocks are arguments.
use crypto_research_platform.Prelude.{
  ℕ, suc, String, Bool, true, false, Option, none, some, List, [], ◌∷◌, take, string_eq,
  if◌then◌else◌,
}
use crypto_research_platform.Prelude.Dict.{Dict, lookup, insert}
use crypto_research_platform.Decimal.{Decimal, ◌-◌, of_ℕ, leb, ltb, max}
use crypto_research_platform.Schemas.{BookLevel, OrderBookSnapshot}
use crypto_research_platform.Ingestion.Parsing.{
  Json, Parsed, parsed, malformed, crashed, ◌>>=◌, to_decimal, to_datetime, text_field,
  count_or_zero,
}

pub record BookCollector (D : Type 0) : Type 0 where
  pub depth : ℕ
  pub min_interval : D
  pub last_published : Dict String D
  pub snapshots_published : ℕ
  pub snapshots_throttled : ℕ

-- What becomes of a book; `raised` is an exception of the producer.
pub data Offered (D : Type 0) : Type 0 where
  held raised : Offered D
  published : OrderBookSnapshot D → Offered D

module _ {D : Type 0} ⦃d : Decimal D⦄ where
  unfoldable pub collector : ℕ → D → BookCollector D
  collector depth min_publish_interval_s = record {
    depth = depth;
    min_interval = max (of_ℕ 0) min_publish_interval_s;
    last_published = [];
    snapshots_published = 0;
    snapshots_throttled = 0;
  }

  abbrev pub too_early : BookCollector D → D → Option D → Bool
  too_early c now none = false
  too_early c now (some last) = ltb (now - last) c.min_interval

  unfoldable pub should_publish : String → D → BookCollector D → BookCollector D × Bool
  should_publish symbol now c =
      if leb c.min_interval (of_ℕ 0)
      then (c, true)
      else if too_early c now (lookup symbol c.last_published)
      then (c, false)
      else (record c { last_published = insert symbol now c.last_published }, true)

  abbrev pub is_one_sided : OrderBookSnapshot D → Bool
  is_one_sided b = elim b.bids [ [] ↦ true | _ ∷ _ ↦ elim b.asks [ [] ↦ true | _ ∷ _ ↦ false ] ]

  -- `accepts`: the producer takes it. It is counted only then.
  abbrev pub offer :
      OrderBookSnapshot D → Bool → BookCollector D × Bool → BookCollector D × Offered D
  offer b accepts (c, false) = (record c { snapshots_throttled = suc c.snapshots_throttled }, held)
  offer b accepts (c, true) =
      if accepts
      then (record c { snapshots_published = suc c.snapshots_published }, published b)
      else (c, raised)

module _ {V D : Type 0} ⦃d : Decimal D⦄ (j : Json V D) where
  abbrev pub parse_level : V → Parsed (BookLevel D)
  parse_level v =
      let level = (do
        price ← to_decimal j (j.get "px" v)
        size ← to_decimal j (j.get "sz" v)
        count ← count_or_zero j (j.get "n" v)
        parsed (record { price = price; size = size; order_count = count })) in
      if j.is_dict v then level else malformed

  abbrev pub parse_each : List V → Parsed (List (BookLevel D))
  parse_each [] = parsed []
  parse_each (v ∷ vs) =
      let rest = parse_each vs in parse_level v >>= λ l. rest >>= λ ls. parsed (l ∷ ls)

  abbrev pub levels_in : ℕ → Option (List V) → Parsed (List (BookLevel D))
  levels_in depth none = malformed
  levels_in depth (some vs) = parse_each (take depth vs)

  unfoldable pub parse_levels : ℕ → V → Parsed (List (BookLevel D))
  parse_levels depth v = if j.is_null v then parsed [] else levels_in depth (j.items v)

  -- `to_datetime(raw_time)` of a time that is there, or the time of the event.
  abbrev pub time_or_now : D → Option V → Parsed D
  time_or_now now none = parsed now
  time_or_now now (some v) = if j.is_null v then parsed now else to_datetime j (some v)

  abbrev pub sides_of : Option V → Option (List V)
  sides_of none = none
  sides_of (some v) = j.items v

  abbrev pub book_with : ℕ → D → String → Option V → Option (List V) → Parsed (OrderBookSnapshot D)
  book_with depth now symbol time (some (bids ∷ (asks ∷ more))) = do
    at ← time_or_now now time
    bid_levels ← parse_levels depth bids
    ask_levels ← parse_levels depth asks
    parsed (record { symbol = symbol; bids = bid_levels; asks = ask_levels; occurred_at = at })
  book_with depth now symbol time _ = malformed

  unfoldable pub parse_order_book : ℕ → D → V → Parsed (OrderBookSnapshot D)
  unfolding parse_levels
  parse_order_book depth now v = text_field j (j.get "coin" v) >>= λ symbol.
      book_with depth now symbol (j.get "time" v) (sides_of (j.get "levels" v))

  abbrev pub with_book :
      D
      → Bool
      → BookCollector D
      → Parsed (OrderBookSnapshot D)
      → Parsed (BookCollector D × Offered D)
  with_book now accepts c malformed = malformed
  with_book now accepts c crashed = crashed
  with_book now accepts c (parsed b) =
      if is_one_sided b
      then parsed (c, held)
      else parsed (offer b accepts (should_publish b.symbol now c))

  -- `wall` is the time of the event, `now` that of the throttle.
  unfoldable pub handle_book :
      D → D → Bool → V → BookCollector D → Parsed (BookCollector D × Offered D)
  unfolding parse_order_book should_publish
  handle_book wall now accepts v c = with_book now accepts c (parse_order_book c.depth wall v)
