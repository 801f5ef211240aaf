-- ===== src/Runtime/Context.antt =====
-- services/agents/common/context.py: `AgentContext` and `MarketContextBuilder`. A `deque` with a bound is
-- a list, oldest first.
use crypto_research_platform.Prelude.{
  ℕ, String, Bool, true, false, not, Option, none, some, List, [], ◌∷◌, ◌++◌, length, ◌==◌,
  string_eq, leb as leb_ℕ, if◌then◌else◌,
}
use crypto_research_platform.Prelude.Dict.{Dict, lookup, insert}
use crypto_research_platform.Decimal.{Decimal, ltb, eqb}
use crypto_research_platform.Schemas.{
  Candle, OrderBookSnapshot, TradeTick, PortfolioSnapshot, mid_price,
}
use crypto_research_platform.Engine.Trust.{append_bounded}

pub record AgentContext (D : Type 0) : Type 0 where
  pub symbol : String
  pub candles : Dict String (List (Candle D))
  pub order_book : Option (OrderBookSnapshot D)
  pub recent_trades : List (TradeTick D)
  pub portfolio : Option (PortfolioSnapshot D)

abbrev pub final : {A : Type 0} → List A → Option A
final [] = none
final (a ∷ []) = some a
final (a ∷ (b ∷ xs)) = final (b ∷ xs)

-- All but the last.
abbrev pub front : {A : Type 0} → List A → List A
front [] = []
front (a ∷ []) = []
front (a ∷ (b ∷ xs)) = a ∷ front (b ∷ xs)

abbrev pub or_empty : {A : Type 0} → Option (List A) → List A
or_empty none = []
or_empty (some xs) = xs

module _ {D : Type 0} where
  unfoldable pub candles_for : String → AgentContext D → List (Candle D)
  candles_for interval c = or_empty (lookup interval c.candles)

  abbrev close_of : Option (Candle D) → Option D
  close_of none = none
  close_of (some c) = some c.close

  unfoldable pub latest_close : String → AgentContext D → Option D
  latest_close interval c = close_of (final (candles_for interval c))

  unfoldable pub has_warmup : String → ℕ → AgentContext D → Bool
  has_warmup interval required c = leb_ℕ required (length (candles_for interval c))

  abbrev or_next : Option D → Option D → Option D
  or_next none next = next
  or_next (some a) next = some a

  -- The last close of the first series that is not empty.
  abbrev first_close : Dict String (List (Candle D)) → Option D
  first_close [] = none
  first_close ((_, series) ∷ rest) = or_next (close_of (final series)) (first_close rest)

  abbrev price_of : Option (TradeTick D) → Option D
  price_of none = none
  price_of (some t) = some t.price

module _ {D : Type 0} ⦃d : Decimal D⦄ where
  abbrev mid_of_book : Option (OrderBookSnapshot D) → Option D
  mid_of_book none = none
  mid_of_book (some b) = mid_price b

  -- `AgentContext.reference_price`
  unfoldable pub reference_price : AgentContext D → Option D
  reference_price c =
      or_next (mid_of_book c.order_book)
        (or_next (price_of (final c.recent_trades)) (first_close c.candles))

pub record ContextBuilder (D : Type 0) : Type 0 where
  pub intervals : List String
  pub max_candles : ℕ
  pub max_trades : ℕ
  pub candles : Dict String (Dict String (List (Candle D)))
  pub books : Dict String (OrderBookSnapshot D)
  pub trades : Dict String (List (TradeTick D))
  pub portfolio : Option (PortfolioSnapshot D)

abbrev pub member : String → List String → Bool
member s [] = false
member s (t ∷ ts) = if t == s then true else member s ts

module _ {D : Type 0} where
  -- Empty buffers for each interval.
  abbrev pub empty_buffers : List String → Dict String (List (Candle D))
  empty_buffers [] = []
  empty_buffers (i ∷ is) = insert i [] (empty_buffers is)

  abbrev pub with_symbol :
      Option (Dict String (List (Candle D))) → String → ContextBuilder D → ContextBuilder D
  with_symbol none symbol b = record b {
    candles = insert symbol (empty_buffers b.intervals) b.candles;
    trades = insert symbol [] b.trades;
  }
  with_symbol (some _) symbol b = b

  unfoldable pub ensure_symbol : String → ContextBuilder D → ContextBuilder D
  ensure_symbol symbol b = with_symbol (lookup symbol b.candles) symbol b

  abbrev pub buffers_or_empty :
      Option (Dict String (List (Candle D))) → Dict String (List (Candle D))
  buffers_or_empty none = []
  buffers_or_empty (some m) = m

  abbrev pub buffers_of : String → ContextBuilder D → Dict String (List (Candle D))
  buffers_of symbol b = buffers_or_empty (lookup symbol b.candles)

module _ {D : Type 0} ⦃d : Decimal D⦄ where
  -- What storing a candle does to its buffer: `none` if it is out of order.
  unfoldable pub stored_after :
      ℕ → Candle D → Option (Candle D) → List (Candle D) → Option (List (Candle D))
  stored_after bound c none buffer = some (append_bounded bound c buffer)
  stored_after bound c (some newest) buffer =
      if eqb newest.open_time c.open_time
      then some (front buffer ++ (c ∷ []))
      else if ltb c.open_time newest.open_time
      then none
      else some (append_bounded bound c buffer)

  abbrev pub put_buffer :
      String → String → Option (List (Candle D)) → ContextBuilder D → ContextBuilder D × Bool
  put_buffer symbol interval none b = (b, false)
  put_buffer symbol interval (some buffer) b = (
    record b { candles = insert symbol (insert interval buffer (buffers_of symbol b)) b.candles },
    true,
  )

  unfoldable pub store_candle : Candle D → ContextBuilder D → ContextBuilder D × Bool
  unfolding stored_after
  store_candle c b =
      let buffer = or_empty (lookup c.interval (buffers_of c.symbol b)) in
      put_buffer c.symbol c.interval (stored_after b.max_candles c (final buffer) buffer) b

  unfoldable pub add_candle : Candle D → ContextBuilder D → ContextBuilder D × Bool
  unfolding store_candle ensure_symbol
  add_candle c b =
      if not c.is_closed
      then (b, false)
      else if not (member c.interval b.intervals)
      then (b, false)
      else store_candle c (ensure_symbol c.symbol b)

module _ {D : Type 0} where
  unfoldable pub add_order_book : OrderBookSnapshot D → ContextBuilder D → ContextBuilder D
  unfolding ensure_symbol
  add_order_book book b =
      let b' = ensure_symbol book.symbol b in record b' { books = insert book.symbol book b'.books }

  unfoldable pub add_trade : TradeTick D → ContextBuilder D → ContextBuilder D
  unfolding ensure_symbol
  add_trade t b =
      let b' = ensure_symbol t.symbol b in
      record b' {
        trades =
            insert t.symbol (append_bounded b'.max_trades t (or_empty (lookup t.symbol b'.trades)))
              b'.trades;
      }

  unfoldable pub set_portfolio : PortfolioSnapshot D → ContextBuilder D → ContextBuilder D
  set_portfolio s b = record b { portfolio = some s }

  -- The buffers that are not empty.
  abbrev pub filled_buffers : Dict String (List (Candle D)) → Dict String (List (Candle D))
  filled_buffers [] = []
  filled_buffers ((i, []) ∷ rest) = filled_buffers rest
  filled_buffers ((i, c ∷ cs) ∷ rest) = (i, c ∷ cs) ∷ filled_buffers rest

  abbrev pub shared : Bool → Option (PortfolioSnapshot D) → Option (PortfolioSnapshot D)
  shared true p = p
  shared false p = none

  unfoldable pub build : String → Bool → ContextBuilder D → ContextBuilder D × AgentContext D
  unfolding ensure_symbol
  build symbol include_portfolio b =
      let b' = ensure_symbol symbol b in
      (
        b',
        record {
          symbol = symbol;
          candles = filled_buffers (buffers_of symbol b');
          order_book = lookup symbol b'.books;
          recent_trades = or_empty (lookup symbol b'.trades);
          portfolio = shared include_portfolio b'.portfolio;
        },
      )
