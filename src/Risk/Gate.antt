-- ===== src/Risk/Gate.antt =====
-- `evaluate` as a gate: what an order that passes it satisfies, and what a veto says.
use crypto_research_platform.Prelude.{
  ℕ, ◌≡◌, refl, sym, subst, ◌∙◌, Bool, true, false, ◌&&◌, ◌||◌, Option, none, some, List, [], ◌∷◌,
  ◌++◌, arith, if◌then◌else◌, leb as leb_ℕ,
}
use mathlib.Core.Option.{some-injective}
use crypto_research_platform.Decimal.{
  Decimal, IsExact, ◌+◌, ◌-◌, ◌*◌, ◌/◌, ◌≤◌, ◌<◌, of_ℕ, leb, ltb, abs, quantize_down, le_of_lt,
  lt_of_lt_of_le,
}
use crypto_research_platform.Schemas.{
  direction_of_action, TradeDecision, OrderIntent, VetoReason, PortfolioSnapshot,
}
use crypto_research_platform.Risk.Defs.{
  RiskLimits, RiskManager, known_equity, gross_of, held, count_open, is_none, resolve_stop,
  headroom, approved_size, reasons, reason_if, conclude, evaluate_at, evaluate_price, evaluate,
  is_hold, order_for, loss_limit_hit, opposed,
}
use crypto_research_platform.Risk.Sizing.{approved_size_bounds}
use crypto_research_platform.Risk.Stops.{IsLosingSide, resolve_stop-IsLosingSide}

reason_if-eq-nil :
    (b : Bool) (r : VetoReason) (rest : List VetoReason)
    → reason_if b r ++ rest ≡ []
    → (b ≡ false) × (rest ≡ [])
reason_if-eq-nil true r rest h = cc
reason_if-eq-nil false r rest h = (refl, h)

or_false : (a b : Bool) → (a || b) ≡ false → a ≡ false
or_false a b h = ground arith

-- A refusal is the first component with no order.
gate-some :
    {A B : Type 0} (c : Bool) (v : A) (r : A × Option B) {b : B}
    → (if c then (v, none) else r).1 ≡ some b
    → (c ≡ false) × (r.1 ≡ some b)
gate-some true v r h = cc
gate-some false v r h = (refl, h)

module _ {D : Type 0} ⦃d : Decimal D⦄ where
  -- Every limit that `evaluate` tests, as it stands when none is breached.
  pub record IsWithinLimits (l : RiskLimits D) (snap : Option (PortfolioSnapshot D))
      (dec : TradeDecision D) (equity size notional : D) : Type 0 where
    pub confident : ltb dec.weighted_confidence l.min_confidence ≡ false
    pub no_loss_limit : loss_limit_hit l snap ≡ false
    pub not_opposed : opposed (direction_of_action dec.action) (held dec.symbol snap) ≡ false
    pub room_for_position :
        (is_none (held dec.symbol snap) && leb_ℕ l.max_open_positions (count_open snap)) ≡ false
    pub leverage_left : of_ℕ 0 < headroom l equity (gross_of snap)
    pub big_enough : (leb size (of_ℕ 0) || ltb notional l.min_order_notional) ≡ false

  -- The list of reasons is empty exactly if no limit is breached.
  pub reasons-nil :
      (l : RiskLimits D) (snap : Option (PortfolioSnapshot D)) (dec : TradeDecision D)
      (equity size notional : D)
      → reasons l snap dec equity size notional ≡ []
      → IsWithinLimits l snap dec equity size notional
  unfolding reasons
  reasons-nil l snap dec equity size notional h =
      let (a, h1) = reason_if-eq-nil _ _ _ h in
      let (b, h2) = reason_if-eq-nil _ _ _ h1 in
      let (c, h3) = reason_if-eq-nil _ _ _ h2 in
      let (e, h4) = reason_if-eq-nil _ _ _ h3 in
      let (f, h5) = reason_if-eq-nil _ _ _ h4 in
      record {
        confident = a;
        no_loss_limit = b;
        not_opposed = c;
        room_for_position = e;
        leverage_left = f;
        big_enough = last _ h5;
      }
    where
      last : (b : Bool) → reason_if b VetoReason.size_below_minimum ≡ [] → b ≡ false
      last true e = cc
      last false e = refl

  -- What led to an order.
  abbrev Approves : RiskManager D → ℕ → TradeDecision D → D → OrderIntent D → Type 0
  Approves m id dec price o =
      let l = m.limits in
      let equity = known_equity m in
      let stop = resolve_stop l dec.suggested_stop price (direction_of_action dec.action) in
      let dist = abs (price - stop) in
      let size = approved_size l equity (gross_of m.portfolio) price dist in
      let notional = quantize_down 2 (size * price) in
      (of_ℕ 0 < price)
      × (of_ℕ 0 < dist)
      × (reasons l m.portfolio dec equity size notional ≡ [])
      × (o ≡ order_for m id dec size stop)

  conclude-some :
      (m : RiskManager D) (id : ℕ) (dec : TradeDecision D) (equity stop dist : D)
      (rs : List VetoReason) (size notional : D) {o : OrderIntent D}
      → (conclude m id dec equity stop dist rs size notional).1 ≡ some o
      → (rs ≡ []) × (o ≡ order_for m id dec size stop)
  unfolding conclude
  conclude-some m id dec equity stop dist [] size notional h = (refl, cc)
  conclude-some m id dec equity stop dist (r ∷ rs) size notional h = cc

  evaluate_at-some :
      (m : RiskManager D) (id : ℕ) (dec : TradeDecision D) (price : D) {o : OrderIntent D}
      → of_ℕ 0 < price
      → (evaluate_at m id dec (known_equity m) price).1 ≡ some o
      → Approves m id dec price o
  unfolding evaluate_at
  evaluate_at-some m id dec price hp h =
      let (dist, rest) = gate-some _ _ _ h in
      let (none_breached, made) = conclude-some m id dec _ _ _ _ _ _ rest in
      (hp, dist, none_breached, made)

  evaluate_price-some :
      (m : RiskManager D) (id : ℕ) (dec : TradeDecision D) (p : Option D) {o : OrderIntent D}
      → (evaluate_price m id dec (known_equity m) p).1 ≡ some o
      → (price : D) × (p ≡ some price) × Approves m id dec price o
  unfolding evaluate_price
  evaluate_price-some m id dec none h = cc
  evaluate_price-some m id dec (some price) h =
      let (pos, rest) = gate-some _ _ _ h in (price, refl, evaluate_at-some m id dec price pos rest)

  evaluate-some :
      (m : RiskManager D) (id : ℕ) (dec : TradeDecision D) {o : OrderIntent D}
      → (evaluate m id dec).1 ≡ some o
      → (is_hold dec.action ≡ false)
        × (of_ℕ 0 < known_equity m)
        × ((price : D) × (dec.reference_price ≡ some price) × Approves m id dec price o)
  unfolding evaluate
  evaluate-some m id dec h =
      let (acts, rest) = gate-some _ _ _ h in
      let (funded, rest') = gate-some _ _ _ rest in
      (acts, funded, evaluate_price-some m id dec dec.reference_price rest')

  -- The limits as the settings admit them.
  pub record IsLimits (l : RiskLimits D) : Type 0 where
    pub risk_nonneg : of_ℕ 0 ≤ l.risk_per_trade_pct
    pub cap_nonneg : of_ℕ 0 ≤ l.max_position_notional

  -- What an order is entitled to claim at the price it was sized at.
  pub record IsSafeOrder (m : RiskManager D) (dec : TradeDecision D) (price : D) (o : OrderIntent D)
      : Type 0 where
    pub priced : dec.reference_price ≡ some price
    pub size_pos : of_ℕ 0 < o.size
    pub in_cap : o.size * price ≤ m.limits.max_position_notional
    pub in_leverage :
        o.size * price + gross_of m.portfolio ≤ known_equity m * m.limits.max_portfolio_leverage
    pub stop : D
    pub stopped : o.stop_price ≡ some stop
    pub losing_side : IsLosingSide (direction_of_action dec.action) price stop
    pub in_budget :
        o.size * abs (price - stop) ≤ known_equity m * m.limits.risk_per_trade_pct / of_ℕ 100
    pub within :
        IsWithinLimits m.limits m.portfolio dec
          (known_equity m)
          o.size
          (quantize_down 2 (o.size * price))

  module _ (x : IsExact D) where
    hundred_pos : of_ℕ {D = D} 0 < of_ℕ 100
    hundred_pos = lt_of_lt_of_le x _ _ _ x.zero_lt_one (x.of_ℕ_mono 1 100 (omega arith))

    order_for-IsSafeOrder :
        (m : RiskManager D) (id : ℕ) (dec : TradeDecision D) (price : D) {o : OrderIntent D}
        → IsLimits m.limits
        → of_ℕ 0 < price * m.limits.default_stop_distance_pct / of_ℕ 100
        → of_ℕ 0 < known_equity m
        → dec.reference_price ≡ some price
        → Approves m id dec price o
        → IsSafeOrder m dec price o
    unfolding order_for headroom
    order_for-IsSafeOrder m id dec price lim far funded priced (hp, hd, ok, made) =
        let within = reasons-nil m.limits m.portfolio dec _ _ _ ok in
        let stop =
          resolve_stop m.limits dec.suggested_stop price (direction_of_action dec.action) in
        let (_, cap, room, budget) =
          approved_size_bounds x m.limits (known_equity m) (gross_of m.portfolio) price
            (abs (price - stop)) hp hd (le_of_lt x _ _ funded) lim.risk_nonneg lim.cap_nonneg
            within.leverage_left hundred_pos in
        rw made (record {
          priced = priced;
          size_pos = or_false _ _ within.big_enough;
          in_cap = cap;
          in_leverage = rw (x.sub_add) at (x.add_mono _ _ (gross_of m.portfolio) room);
          stop = stop;
          stopped = refl;
          losing_side = resolve_stop-IsLosingSide x m.limits dec.suggested_stop price _ far;
          in_budget = budget;
          within = within;
        })

    -- An order that passes the gate was sized at the decision's reference price; it is positive, its
    -- notional fits the position cap and, with what is already held, the leverage limit; it carries a
    -- stop on the losing side of the price, and being stopped out there costs at most the risk budget;
    -- and no limit was breached. The risk percentage and the position cap must not be negative, and the
    -- default stop distance at that price must be positive.
    pub evaluate-IsSafeOrder :
        (m : RiskManager D) (id : ℕ) (dec : TradeDecision D) (price : D) {o : OrderIntent D}
        → IsLimits m.limits
        → dec.reference_price ≡ some price
        → of_ℕ 0 < price * m.limits.default_stop_distance_pct / of_ℕ 100
        → (evaluate m id dec).1 ≡ some o
        → IsSafeOrder m dec price o
    evaluate-IsSafeOrder m id dec price {o} lim given far h =
        let (acts, funded, (price', priced, made)) = evaluate-some m id dec h in
        let same : price' ≡ price = some-injective _ _ (sym priced ∙ given) in
        order_for-IsSafeOrder m id dec price lim far funded given
          (subst (λ p. Approves m id dec p o) same made)
