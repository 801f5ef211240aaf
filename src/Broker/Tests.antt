-- ===== src/Broker/Tests.antt =====
-- A buy of 3 against asks of 2 at 100 and 4 at 110, at 1% slippage and 1% fee.
use crypto_research_platform.Prelude.{string_eq, true, false, ◌≡◌, refl, none, some, List, [], ◌∷◌}
use crypto_research_platform.Prelude.Dict.{lookup}
use crypto_research_platform.Decimal.Int.{ℤ, pos, whole, whole-IsExact, ◌+ℤ◌, ◌-ℤ◌, ◌*ℤ◌, fdiv}
use crypto_research_platform.Schemas.{
  Side, OrderType, BookLevel, OrderBookSnapshot, OrderIntent, size_total,
}
use crypto_research_platform.Broker.Defs.{
  Broker, filled, walk_levels, walk_book, taken_side, fill_from, fill_of, simulate_fill,
}
use mathlib.Core.Option.{some-injective}
use crypto_research_platform.Broker.Price.{IsFilled, walk_book-IsFilled, walk_book_fills}
use crypto_research_platform.Broker.Execution.{IsSide, IsFaithful, simulate_fill-IsFaithful}

abbrev asks : List (BookLevel ℤ)
asks =
    record { price = pos 100; size = pos 2; order_count = 1 }
    ∷ record { price = pos 110; size = pos 4; order_count = 2 }
    ∷ []

abbrev book : OrderBookSnapshot ℤ
book = record { symbol = "BTC"; bids = []; asks = asks; occurred_at = pos 40 }

abbrev broker : Broker ℤ
broker = record {
  params = record { taker_fee_bps = pos 100; slippage_bps = pos 100; max_book_age_s = pos 30 };
  books = ("BTC", book) ∷ [];
  fills_published = 0;
  orders_rejected = 0;
}

abbrev order : OrderIntent ℤ
order = record {
  order_id = 8;
  decision_id = 7;
  symbol = "BTC";
  side = Side.buy;
  size = pos 3;
  order_type = OrderType.market;
  reduce_only = false;
  stop_price = none;
  take_profit_price = none;
  trailing_stop_pct = none;
  exit_reason = none;
  is_paper = true;
  correlation_id = 9;
}

walked : walk_book asks (pos 3) ≡ filled (pos 3, pos 103)
unfolding walk_book walk_levels ◌-ℤ◌ ◌+ℤ◌ fdiv ◌*ℤ◌
walked = refl

walk_book-IsFilled_example : IsFilled whole-IsExact asks (pos 3) (pos 3) (pos 103)
walk_book-IsFilled_example =
    walk_book-IsFilled whole-IsExact asks (pos 3) (refl, (refl, tt)) refl walked

walk_book_fills_example : (w : ℤ × ℤ) × (walk_book asks (pos 3) ≡ filled w)
unfolding size_total ◌+ℤ◌
walk_book_fills_example = walk_book_fills whole-IsExact asks (pos 3) (refl, (refl, tt)) refl refl

simulated :
    simulate_fill (pos 50) 6 order broker
    ≡ filled (fill_of broker.params 6 order book (pos 3, pos 103))
unfolding simulate_fill lookup ◌-ℤ◌ walk_book taken_side walk_levels ◌+ℤ◌ fdiv ◌*ℤ◌ fill_from
simulated = refl

books_nonneg :
    (b : OrderBookSnapshot ℤ)
    → lookup "BTC" broker.books ≡ some b
    → IsSide (pos 110) (taken_side Side.buy b)
unfolding lookup taken_side
books_nonneg b h =
    rw (← some-injective book b h) ((refl, (refl, tt)), ((refl, refl), ((refl, refl), tt)))

simulate_fill-IsFaithful_example :
    IsFaithful (pos 50) broker order (fill_of broker.params 6 order book (pos 3, pos 103))
simulate_fill-IsFaithful_example =
    simulate_fill-IsFaithful whole-IsExact (pos 110) (pos 50) 6 order broker refl refl refl
      books_nonneg refl simulated
