-- ===== src/Broker/Execution.antt =====
-- `simulate_fill`: what a fill says of its order and of the book that it was priced from.
use crypto_research_platform.Prelude.{
  ℕ, ◌≡◌, refl, Bool, true, false, Option, none, some, List, arith, string_eq, if◌then◌else◌,
}
use crypto_research_platform.Prelude.Dict.{lookup}
use crypto_research_platform.Decimal.{
  Decimal, IsExact, ◌-◌, ◌/◌, ◌≤◌, ◌<◌, of_ℕ, ltb, quantize_half_up, le_of_lt, lt_of_lt_of_le,
  zero_mul, zero_add, mul_nonneg, mul_mono_right, sub_le_self, sub_nonneg, add_nonneg,
}
use crypto_research_platform.Schemas.{Side, BookLevel, OrderBookSnapshot, OrderIntent, Fill}
use crypto_research_platform.Broker.Defs.{
  Outcome, Rejection, filled, rejected, PaperParams, Broker, walk_book, taken_side, adverse,
  fill_price, taker_fee, fill_of, fill_with, fill_from, simulate_fill,
}
use crypto_research_platform.Broker.Walk.{IsBook, IsBetween}
use crypto_research_platform.Broker.Price.{walk_book-IsFilled, walk_book_between}

not_refused :
    {A : Type 0} (c : Bool) (e : Rejection) (r : Outcome A) {a : A}
    → (if c then rejected e else r) ≡ filled a
    → (c ≡ false) × (r ≡ filled a)
not_refused true e r h = cc
not_refused false e r h = (refl, h)

module _ {D : Type 0} ⦃d : Decimal D⦄ where
  -- A price that is no better than another for the side that takes it.
  abbrev pub IsNoBetter : Side → D → D → Type 0
  IsNoBetter Side.buy price book_price = quantize_half_up 8 book_price ≤ price
  IsNoBetter Side.sell price book_price = price ≤ quantize_half_up 8 book_price

  -- A side of a book: no negative sizes, and prices from zero to some top.
  abbrev pub IsSide : D → List (BookLevel D) → Type 0
  IsSide top levels = IsBook levels × IsBetween (of_ℕ 0) top levels

  -- What a fill says.
  pub record IsFaithful (now : D) (k : Broker D) (o : OrderIntent D) (f : Fill D) : Type 0 where
    pub book : OrderBookSnapshot D
    pub cached : lookup o.symbol k.books ≡ some book
    pub fresh : now - book.occurred_at ≤ k.params.max_book_age_s
    pub for_order : f.order_id ≡ o.order_id
    pub same_symbol : f.symbol ≡ o.symbol
    pub same_side : f.side ≡ o.side
    pub same_chain : f.correlation_id ≡ o.correlation_id
    pub size_pos : of_ℕ 0 < f.size
    pub size_le : f.size ≤ o.size
    pub price_nonneg : of_ℕ 0 ≤ f.price
    pub fee_nonneg : of_ℕ 0 ≤ f.fee
    pub book_price : D
    pub at_book : walk_book (taken_side o.side book) o.size ≡ filled (f.size, book_price)
    pub no_better : IsNoBetter o.side f.price book_price

  module _ (x : IsExact D) where
    open x use {add_comm, add_mono, mul_one, le-div, quantize_half_up_mono, quantize_half_up_zero}

    bps_pos : of_ℕ {D = D} 0 < of_ℕ 10000
    bps_pos = lt_of_lt_of_le x _ _ _ x.zero_lt_one (x.of_ℕ_mono 1 10000 (omega arith))

    bps_nonneg : (a : D) → of_ℕ 0 ≤ a → of_ℕ 0 ≤ a / of_ℕ 10000
    bps_nonneg a h = le-div _ _ _ bps_pos (rw (zero_mul x (of_ℕ 10000)) h)

    fill_price-IsNoBetter :
        (p : PaperParams D) (s : Side) (book_price : D)
        → of_ℕ 0 ≤ p.slippage_bps
        → of_ℕ 0 ≤ book_price
        → IsNoBetter s (fill_price p s book_price) book_price
    unfolding fill_price adverse
    fill_price-IsNoBetter p Side.buy b hs hb = quantize_half_up_mono 8 _ _ (
        rw mul_one at (
          mul_mono_right x (of_ℕ 1) _ b hb (
            rw (zero_add x (of_ℕ 1), add_comm (p.slippage_bps / of_ℕ 10000) (of_ℕ 1)) at
              (add_mono _ _ (of_ℕ 1) (bps_nonneg p.slippage_bps hs)))))
    fill_price-IsNoBetter p Side.sell b hs hb = quantize_half_up_mono 8 _ _ (
        rw mul_one at
          (mul_mono_right x _ (of_ℕ 1) b hb (sub_le_self x _ _ (bps_nonneg p.slippage_bps hs))))

    quantize_nonneg : (a : D) → of_ℕ 0 ≤ a → of_ℕ 0 ≤ quantize_half_up 8 a
    quantize_nonneg a h = rw (quantize_half_up_zero) at (quantize_half_up_mono 8 _ _ h)

    fill_price_nonneg :
        (p : PaperParams D) (s : Side) (book_price : D)
        → of_ℕ 0 ≤ p.slippage_bps
        → p.slippage_bps ≤ of_ℕ 10000
        → of_ℕ 0 ≤ book_price
        → of_ℕ 0 ≤ fill_price p s book_price
    unfolding fill_price adverse
    fill_price_nonneg p Side.buy b hs hm hb = quantize_nonneg _ (
        mul_nonneg x _ _ hb
          (add_nonneg x _ _ (le_of_lt x _ _ x.zero_lt_one) (bps_nonneg p.slippage_bps hs)))
    fill_price_nonneg p Side.sell b hs hm hb = quantize_nonneg _ (
        mul_nonneg x _ _ hb (
          sub_nonneg x _ _ (
            x.div-le _ _ _ bps_pos
              (rw (x.mul_comm (of_ℕ 1) (of_ℕ 10000), mul_one (of_ℕ 10000)) hm))))

    taker_fee_nonneg :
        (p : PaperParams D) (size price : D)
        → of_ℕ 0 ≤ p.taker_fee_bps
        → of_ℕ 0 ≤ size
        → of_ℕ 0 ≤ price
        → of_ℕ 0 ≤ taker_fee p size price
    unfolding taker_fee
    taker_fee_nonneg p size price hf hs hp =
        rw (quantize_half_up_zero) at (
          quantize_half_up_mono 8 _ _ (bps_nonneg _ (mul_nonneg x _ _ (mul_nonneg x _ _ hs hp) hf)))

    fill_of-IsFaithful :
        (top now : D) (k : Broker D) (id : ℕ) (o : OrderIntent D) (b : OrderBookSnapshot D)
        (w : D × D)
        → of_ℕ 0 ≤ k.params.slippage_bps
        → k.params.slippage_bps ≤ of_ℕ 10000
        → of_ℕ 0 ≤ k.params.taker_fee_bps
        → IsSide top (taken_side o.side b)
        → of_ℕ 0 ≤ o.size
        → lookup o.symbol k.books ≡ some b
        → ltb k.params.max_book_age_s (now - b.occurred_at) ≡ false
        → walk_book (taken_side o.side b) o.size ≡ filled w
        → IsFaithful now k o (fill_of k.params id o b w)
    unfolding fill_of
    fill_of-IsFaithful top now k id o b (got, price) hs hm hf (hb, between) ho cached fresh walk =
        let r = walk_book-IsFilled x (taken_side o.side b) o.size hb ho walk in
        let (book_nonneg, _) =
          walk_book_between x (of_ℕ 0) top (taken_side o.side b) o.size between walk in
        let price_nonneg = fill_price_nonneg k.params o.side price hs hm book_nonneg in
        record {
          book = b;
          cached = cached;
          fresh = ground arith;
          for_order = refl;
          same_symbol = refl;
          same_side = refl;
          same_chain = refl;
          size_pos = r.got_pos;
          size_le = r.got_le;
          price_nonneg = price_nonneg;
          fee_nonneg = taker_fee_nonneg k.params got _ hf (le_of_lt x _ _ r.got_pos) price_nonneg;
          book_price = price;
          at_book = walk;
          no_better = fill_price-IsNoBetter k.params o.side price hs book_nonneg;
        }

    fill_with-filled :
        (p : PaperParams D) (id : ℕ) (o : OrderIntent D) (b : OrderBookSnapshot D)
        (r : Outcome (D × D)) {f : Fill D}
        → fill_with p id o b r ≡ filled f
        → (w : D × D) × (r ≡ filled w) × (f ≡ fill_of p id o b w)
    fill_with-filled p id o b (rejected e) h = cc
    fill_with-filled p id o b (Outcome.filled w) h = (w, refl, cc)

    fill_from-filled :
        (now : D) (p : PaperParams D) (id : ℕ) (o : OrderIntent D)
        (c : Option (OrderBookSnapshot D)) {f : Fill D}
        → fill_from now p id o c ≡ filled f
        → (b : OrderBookSnapshot D) × (c ≡ some b)
          × (ltb p.max_book_age_s (now - b.occurred_at) ≡ false)
          × (fill_with p id o b (walk_book (taken_side o.side b) o.size) ≡ filled f)
    unfolding fill_from
    fill_from-filled now p id o none h = cc
    fill_from-filled now p id o (some b) h = let (e, h') = not_refused _ _ _ h in (b, refl, e, h')

    -- A fill is priced from a cached book no older than the limit, for the order's symbol and side,
    -- along the order's causal chain; its size is positive and at most what was ordered; its price is
    -- not negative and no better than the volume-weighted book price, rounded, and its fee is not
    -- negative. The slippage is from zero to 10000 basis points, the fee rate and the ordered size are
    -- not negative, and the cached book has no negative size and prices from zero to some top.
    pub simulate_fill-IsFaithful :
        (top now : D) (id : ℕ) (o : OrderIntent D) (k : Broker D) {f : Fill D}
        → of_ℕ 0 ≤ k.params.slippage_bps
        → k.params.slippage_bps ≤ of_ℕ 10000
        → of_ℕ 0 ≤ k.params.taker_fee_bps
        → ((b : OrderBookSnapshot D)
            → lookup o.symbol k.books ≡ some b
            → IsSide top (taken_side o.side b))
        → of_ℕ 0 ≤ o.size
        → simulate_fill now id o k ≡ filled f
        → IsFaithful now k o f
    unfolding simulate_fill
    simulate_fill-IsFaithful top now id o k {f} hs hm hf hb ho h =
        let (b, cached, fresh, h') = fill_from-filled now k.params id o _ h in
        let (w, walk, made) = fill_with-filled k.params id o b _ h' in
        rw made (fill_of-IsFaithful top now k id o b w hs hm hf (hb b cached) ho cached fresh walk)
