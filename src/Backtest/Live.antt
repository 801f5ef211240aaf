-- ===== src/Backtest/Live.antt =====
-- On a bar that is one price, the exits of the replay are those of the live position monitor.
use crypto_research_platform.Prelude.{
  ◌≡◌, refl, ◌∙◌, inl, inr, Option, none, some, Bool-cases, if◌then◌else◌,
}
use crypto_research_platform.Decimal.{Decimal, ◌<◌, of_ℕ, leb}
use crypto_research_platform.Schemas.{Candle, Direction, is_long, ExitReason}
use crypto_research_platform.Monitor.{
  ProtectedPosition, observe, breach, trailing_stop, effective_stop, stop_hit, target_hit, by_trail,
  tighter, trail,
}
use crypto_research_platform.Backtest.Trade.{
  OpenTrade, observe_bar, trailing_level, stop_level, exit_on, first_exit, stop_exit, target_exit,
  tighter_of, trailed, trailing_from,
}

abbrev pub reason_of : {A B : Type 0} → Option (A × B) → Option A
reason_of none = none
reason_of (some (r, _)) = some r

module _ {D : Type 0} ⦃d : Decimal D⦄ where
  -- The same position, as the replay and as the monitor hold it.
  pub record Agrees (t : OpenTrade D) (p : ProtectedPosition D) : Type 0 where
    pub direction : t.direction ≡ p.direction
    pub stop_price : t.stop_price ≡ p.stop_price
    pub take_profit_price : t.take_profit_price ≡ p.take_profit_price
    pub trailing_stop_pct : t.trailing_stop_pct ≡ p.trailing_stop_pct
    pub extreme_price : some t.extreme_price ≡ p.extreme_price

  -- The whole bar was at one price.
  pub record IsAt (price : D) (c : Candle D) : Type 0 where
    pub at_high : c.high ≡ price
    pub at_low : c.low ≡ price

  levels_same :
      (dir : Direction) (stop pct : Option D) (e : D)
      → tighter_of dir stop (trailing_from dir e pct) ≡ tighter dir stop (trail dir pct (some e))
  levels_same dir none none e = refl
  levels_same dir (some a) none e = refl
  levels_same Direction.long none (some q) e = refl
  levels_same Direction.short none (some q) e = refl
  levels_same Direction.flat none (some q) e = refl
  levels_same Direction.long (some a) (some q) e = refl
  levels_same Direction.short (some a) (some q) e = refl
  levels_same Direction.flat (some a) (some q) e = refl

  trails_same :
      (dir : Direction) (pct fixed : Option D) (e : D)
      → trailed dir (trailing_from dir e pct) fixed ≡ by_trail dir (trail dir pct (some e)) fixed
  trails_same dir none fixed e = refl
  trails_same Direction.long (some q) none e = refl
  trails_same Direction.short (some q) none e = refl
  trails_same Direction.flat (some q) none e = refl
  trails_same Direction.long (some q) (some a) e = refl
  trails_same Direction.short (some q) (some a) e = refl
  trails_same Direction.flat (some q) (some a) e = refl

  targets_same :
      (price : D) (c : Candle D) (t : OpenTrade D) (target : Option D)
      → IsAt price c
      → reason_of (target_exit c t target)
        ≡ (if target_hit t.direction price target then some ExitReason.take_profit else none)
  targets_same price c t none a = refl
  targets_same price c t (some target) a =
      simp (a.at_high, a.at_low)
        (elim (Bool-cases (if is_long t.direction then leb target price else leb price target)) [
          | inl hit ↦ rw hit refl
          | inr missed ↦ rw missed refl
        ])

  exits_same :
      (price : D) (c : Candle D) (t : OpenTrade D) (stop target : Option D)
      → IsAt price c
      → reason_of (first_exit (stop_exit c t stop) (target_exit c t target)) ≡ (
          if stop_hit t.direction price stop
          then (if trailed t.direction (trailing_level t) t.stop_price
              then some ExitReason.trailing_stop
              else some ExitReason.stop_loss)
          else if target_hit t.direction price target
          then some ExitReason.take_profit
          else none)
  exits_same price c t none target a = targets_same price c t target a
  exits_same price c t (some stop) target a =
      simp (a.at_high, a.at_low)
        (elim (Bool-cases (if is_long t.direction then leb price stop else leb stop price)) [
          | inl hit ↦ elim (Bool-cases (trailed t.direction (trailing_level t) t.stop_price)) [
            | inl moved ↦ rw (hit, moved) refl
            | inr fixed ↦ rw (hit, fixed) refl
          ]
          | inr missed ↦ rw missed (targets_same price c t target a)
        ])

  exit_on-eq-breach :
      (price : D) (c : Candle D) (t : OpenTrade D) (p : ProtectedPosition D)
      → IsAt price c
      → Agrees t p
      → reason_of (exit_on c t) ≡ breach price p
  unfolding exit_on breach trailing_stop trailing_level stop_level effective_stop
  exit_on-eq-breach price c t p a g =
      exits_same price c t (stop_level t) t.take_profit_price a
      ∙ simp
          (
            levels_same t.direction t.stop_price t.trailing_stop_pct t.extreme_price,
            trails_same t.direction t.trailing_stop_pct t.stop_price t.extreme_price,
            ← g.direction,
            ← g.stop_price,
            ← g.take_profit_price,
            ← g.trailing_stop_pct,
            ← g.extreme_price,
          )
          refl

  observe-Agrees :
      (price : D) (c : Candle D) (t : OpenTrade D) (p : ProtectedPosition D)
      → of_ℕ 0 < price
      → IsAt price c
      → Agrees t p
      → Agrees (observe_bar c t) (observe price p)
  unfolding observe_bar observe
  observe-Agrees price c t p h a g = elim (Bool-cases (is_long t.direction)) [
    | inl up ↦
        rw (up, h)
          (record {
            direction = g.direction;
            stop_price = g.stop_price;
            take_profit_price = g.take_profit_price;
            trailing_stop_pct = g.trailing_stop_pct;
            extreme_price = simp (← g.direction, ← g.extreme_price, a.at_high, up) refl;
          })
    | inr down ↦
        rw (down, h)
          (record {
            direction = g.direction;
            stop_price = g.stop_price;
            take_profit_price = g.take_profit_price;
            trailing_stop_pct = g.trailing_stop_pct;
            extreme_price = simp (← g.direction, ← g.extreme_price, a.at_low, down) refl;
          })
  ]

  -- For a bar that was at one price, the replay and the live monitor decide alike: with the same
  -- position and levels, both keep the same best price, and the replay exits on the bar when the
  -- monitor does at that price, for the same reason. The price must be positive.
  pub exit_on-eq-live :
      (price : D) (c : Candle D) (t : OpenTrade D) (p : ProtectedPosition D)
      → of_ℕ 0 < price
      → IsAt price c
      → Agrees t p
      → Agrees (observe_bar c t) (observe price p)
        × (reason_of (exit_on c (observe_bar c t)) ≡ breach price (observe price p))
  exit_on-eq-live price c t p h a g =
      let g' = observe-Agrees price c t p h a g in
      (g', exit_on-eq-breach price c (observe_bar c t) (observe price p) a g')
