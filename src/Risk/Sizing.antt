-- ===== src/Risk/Sizing.antt =====
-- Bounds on the approved size.
use crypto_research_platform.Prelude.{◌≡◌, inl, inr, true, false, arith, Bool-cases}
use crypto_research_platform.Decimal.{
  Decimal, IsExact, ◌*◌, ◌/◌, ◌≤◌, ◌<◌, of_ℕ, ltb, le_refl, le_of_lt, zero_mul, mul_nonneg,
}
use crypto_research_platform.Risk.Defs.{
  RiskLimits, risk_size, capped_size, headroom, levered_size, approved_size,
}

module _ {D : Type 0} ⦃d : Decimal D⦄ (x : IsExact D) where
  open x use {
    le_trans, mul_mono, div-mul-le, le-div, div-le, quantize_down-le, quantize_down_nonneg,
  }

  le_of_not_lt : (a b : D) → ltb a b ≡ false → b ≤ a
  le_of_not_lt a b h = ground arith

  lt_of_ltb : (a b : D) → ltb a b ≡ true → a < b
  lt_of_ltb a b h = ground arith

  div_nonneg : (a b : D) → of_ℕ 0 < b → of_ℕ 0 ≤ a → of_ℕ 0 ≤ a / b
  div_nonneg a b hb ha = le-div _ _ _ hb (rw (zero_mul x b) ha)

  -- A size is cut to what an amount buys at the price: `amount / price` if it costs more.
  cut_bounds :
      (amount price size : D)
      → of_ℕ 0 < price
      → of_ℕ 0 ≤ amount
      → ltb amount (size * price) ≡ true
      → (amount / price ≤ size) × (amount / price * price ≤ amount) × (of_ℕ 0 ≤ amount / price)
  cut_bounds amount price size hp ha h = (
    div-le size amount price hp (le_of_lt x _ _ (lt_of_ltb _ _ h)),
    div-mul-le amount price hp,
    div_nonneg amount price hp ha,
  )

  pub capped_size_bounds :
      (l : RiskLimits D) (price size : D)
      → of_ℕ 0 < price
      → of_ℕ 0 ≤ l.max_position_notional
      → of_ℕ 0 ≤ size
      → (capped_size l price size ≤ size)
        × (capped_size l price size * price ≤ l.max_position_notional)
        × (of_ℕ 0 ≤ capped_size l price size)
  unfolding capped_size
  capped_size_bounds l price size hp hc hs =
      elim (Bool-cases (ltb l.max_position_notional (size * price))) [
        | inl over ↦ rw over (cut_bounds l.max_position_notional price size hp hc over)
        | inr fits ↦ rw fits (le_refl x size, le_of_not_lt _ _ fits, hs)
      ]

  pub levered_size_bounds :
      (room price size : D)
      → of_ℕ 0 < price
      → of_ℕ 0 < room
      → of_ℕ 0 ≤ size
      → (levered_size room price size ≤ size)
        × (levered_size room price size * price ≤ room)
        × (of_ℕ 0 ≤ levered_size room price size)
  unfolding levered_size
  levered_size_bounds room price size hp hr hs =
      rw hr (elim (Bool-cases (ltb room (size * price))) [
        | inl over ↦ rw over (cut_bounds room price size hp (le_of_lt x _ _ hr) over)
        | inr fits ↦ rw fits (le_refl x size, le_of_not_lt _ _ fits, hs)
      ])

  pub risk_size_bounds :
      (l : RiskLimits D) (equity dist : D)
      → of_ℕ 0 < dist
      → of_ℕ 0 ≤ equity
      → of_ℕ 0 ≤ l.risk_per_trade_pct
      → of_ℕ {D = D} 0 < of_ℕ 100
      → (risk_size l equity dist * dist ≤ equity * l.risk_per_trade_pct / of_ℕ 100)
        × (of_ℕ 0 ≤ risk_size l equity dist)
  unfolding risk_size
  risk_size_bounds l equity dist hd he hr hundred =
      (div-mul-le _ _ hd, div_nonneg _ _ hd (div_nonneg _ _ hundred (mul_nonneg x _ _ he hr)))

  -- The size that is approved fits the position cap and the leverage headroom, and loses at most the
  -- risk budget over the stop distance.
  pub approved_size_bounds :
      (l : RiskLimits D) (equity gross price dist : D)
      → of_ℕ 0 < price
      → of_ℕ 0 < dist
      → of_ℕ 0 ≤ equity
      → of_ℕ 0 ≤ l.risk_per_trade_pct
      → of_ℕ 0 ≤ l.max_position_notional
      → of_ℕ 0 < headroom l equity gross
      → of_ℕ {D = D} 0 < of_ℕ 100
      → let size = approved_size l equity gross price dist in
        (of_ℕ 0 ≤ size)
        × (size * price ≤ l.max_position_notional)
        × (size * price ≤ headroom l equity gross)
        × (size * dist ≤ equity * l.risk_per_trade_pct / of_ℕ 100)
  unfolding approved_size
  approved_size_bounds l equity gross price dist hp hd he hr hc hh hundred =
      let risk = risk_size l equity dist in
      let capped = capped_size l price risk in
      let s = levered_size (headroom l equity gross) price capped in
      let (in_budget, risk_nonneg) = risk_size_bounds l equity dist hd he hr hundred in
      let (c_le, c_cap, c_nonneg) = capped_size_bounds l price risk hp hc risk_nonneg in
      let (s_le, s_room, s_nonneg) =
        levered_size_bounds (headroom l equity gross) price capped hp hh c_nonneg in
      let q_le = quantize_down-le 8 s s_nonneg in
      let p0 = le_of_lt x _ _ hp in
      let d0 = le_of_lt x _ _ hd in
      let q_price = mul_mono _ _ price p0 q_le in
      (
        quantize_down_nonneg 8 s s_nonneg,
        le_trans _ _ _ q_price (le_trans _ _ _ (mul_mono _ _ price p0 s_le) c_cap),
        le_trans _ _ _ q_price s_room,
        le_trans _ _ _ (mul_mono _ _ dist d0 (le_trans _ _ _ q_le (le_trans _ _ _ s_le c_le)))
            in_budget,
      )
