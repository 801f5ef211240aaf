-- ===== src/Monitor/Breach.antt =====
-- `ProtectedPosition.breach`: which exit a price calls for, by the levels themselves.
use crypto_research_platform.Prelude.{
  ◌≡◌, inl, inr, true, false, Option, none, some, arith, Bool-cases, string_eq,
}
use crypto_research_platform.Prelude.Dict.{}
use crypto_research_platform.Decimal.{
  Decimal, IsExact, ◌≤◌, ◌<◌, max, min, lt_of_le_of_lt, lt_of_lt_of_le, le-max_left, le-max_right,
  min-le_left, min-le_right,
}
use crypto_research_platform.Schemas.{Direction, long, short, flat, ExitReason}
use crypto_research_platform.Monitor.Guard.{
  ProtectedPosition, tighter, effective_stop, stop_hit, target_hit, by_trail, breach, trailing_stop,
}
use crypto_research_platform.Monitor.Defs.{}

abbrev pub opposite : Direction → Direction
opposite long = short
opposite short = long
opposite flat = long

module _ {D : Type 0} ⦃d : Decimal D⦄ where
  -- A stop level is there, and the price is at it or beyond.
  abbrev pub Reached : Direction → D → Option D → Type 0
  Reached dir price none = ⊥
  Reached long price (some level) = price ≤ level
  Reached short price (some level) = level ≤ price
  Reached flat price (some level) = level ≤ price

  -- There is no such level, or the price is on its good side.
  abbrev pub Missed : Direction → D → Option D → Type 0
  Missed dir price none = Unit
  Missed long price (some level) = level < price
  Missed short price (some level) = price < level
  Missed flat price (some level) = price < level

  -- The trail is strictly nearer to the price than the fixed stop, where there is one.
  abbrev pub Nearer : Direction → Option D → Option D → Type 0
  Nearer dir none fixed = ⊥
  Nearer dir (some trail) none = Unit
  Nearer long (some trail) (some fixed) = fixed < trail
  Nearer short (some trail) (some fixed) = trail < fixed
  Nearer flat (some trail) (some fixed) = trail < fixed

  abbrev pub NotNearer : Direction → Option D → Option D → Type 0
  NotNearer dir none fixed = Unit
  NotNearer dir (some trail) none = ⊥
  NotNearer long (some trail) (some fixed) = trail ≤ fixed
  NotNearer short (some trail) (some fixed) = fixed ≤ trail
  NotNearer flat (some trail) (some fixed) = fixed ≤ trail

  -- What the three levels of a position are to the price, for each answer.
  abbrev pub Explains : D → ProtectedPosition D → Option ExitReason → Type 0
  Explains price p none =
      Missed p.direction price p.stop_price
      × Missed p.direction price (trailing_stop p)
      × Missed (opposite p.direction) price p.take_profit_price
  Explains price p (some ExitReason.stop_loss) =
      Reached p.direction price p.stop_price × NotNearer p.direction (trailing_stop p) p.stop_price
  Explains price p (some ExitReason.trailing_stop) =
      Reached p.direction price (trailing_stop p)
      × Nearer p.direction (trailing_stop p) p.stop_price
  Explains price p (some ExitReason.take_profit) =
      Missed p.direction price p.stop_price
      × Missed p.direction price (trailing_stop p)
      × Reached (opposite p.direction) price p.take_profit_price
  Explains price p (some _) = ⊥

  hit_by_trail :
      (dir : Direction) (price : D) (fixed trailing : Option D)
      → stop_hit dir price (tighter dir fixed trailing) ≡ true
      → by_trail dir trailing fixed ≡ true
      → Reached dir price trailing × Nearer dir trailing fixed
  hit_by_trail dir price fixed none h k = cc
  hit_by_trail long price none (some t) h k = (h, tt)
  hit_by_trail _ price none (some t) h k = (h, tt)
  hit_by_trail long price (some f) (some t) h k = ground arith
  hit_by_trail _ price (some f) (some t) h k = ground arith

  hit_by_stop :
      (dir : Direction) (price : D) (fixed trailing : Option D)
      → stop_hit dir price (tighter dir fixed trailing) ≡ true
      → by_trail dir trailing fixed ≡ false
      → Reached dir price fixed × NotNearer dir trailing fixed
  hit_by_stop long price none none h k = cc
  hit_by_stop _ price none none h k = cc
  hit_by_stop long price (some f) none h k = (h, tt)
  hit_by_stop _ price (some f) none h k = (h, tt)
  hit_by_stop dir price none (some t) h k = cc
  hit_by_stop long price (some f) (some t) h k = ground arith
  hit_by_stop _ price (some f) (some t) h k = ground arith

  target-Reached :
      (dir : Direction) (price : D) (target : Option D)
      → target_hit dir price target ≡ true
      → Reached (opposite dir) price target
  target-Reached dir price none h = cc
  target-Reached long price (some t) h = h
  target-Reached _ price (some t) h = h

  target-Missed :
      (dir : Direction) (price : D) (target : Option D)
      → target_hit dir price target ≡ false
      → Missed (opposite dir) price target
  target-Missed dir price none h = tt
  target-Missed long price (some t) h = h
  target-Missed _ price (some t) h = h

  module _ (x : IsExact D) where
    stops-Missed :
        (dir : Direction) (price : D) (fixed trailing : Option D)
        → stop_hit dir price (tighter dir fixed trailing) ≡ false
        → Missed dir price fixed × Missed dir price trailing
    stops-Missed dir price none none h = (tt, tt)
    stops-Missed long price (some f) none h = (h, tt)
    stops-Missed _ price (some f) none h = (h, tt)
    stops-Missed long price none (some t) h = (tt, h)
    stops-Missed _ price none (some t) h = (tt, h)
    stops-Missed long price (some f) (some t) h = (
      lt_of_le_of_lt x f (max f t) price (le-max_left x f t) h,
      lt_of_le_of_lt x t (max f t) price (le-max_right x f t) h,
    )
    stops-Missed _ price (some f) (some t) h = (
      lt_of_lt_of_le x price (min f t) f h (min-le_left x f t),
      lt_of_lt_of_le x price (min f t) t h (min-le_right x f t),
    )

    -- A breach is explained by the levels themselves: it is a stop loss exactly where the price
    -- reached the fixed stop and no trail is nearer, a trailing stop where it reached a trail nearer
    -- than the fixed stop, a take-profit where it reached the target and neither stop, and there is
    -- none where it reached none of the three.
    pub breach-Explains : (price : D) (p : ProtectedPosition D) → Explains price p (breach price p)
    unfolding breach effective_stop
    breach-Explains price p = elim (Bool-cases (stop_hit p.direction price (effective_stop p))) [
      | inl hit ↦ rw hit (elim (Bool-cases (by_trail p.direction (trailing_stop p) p.stop_price)) [
        | inl trailed ↦ rw trailed (hit_by_trail p.direction price p.stop_price _ hit trailed)
        | inr fixed ↦ rw fixed (hit_by_stop p.direction price p.stop_price _ hit fixed)
      ])
      | inr safe ↦
          let missed = stops-Missed p.direction price p.stop_price (trailing_stop p) safe in
          rw safe (elim (Bool-cases (target_hit p.direction price p.take_profit_price)) [
            | inl target ↦ rw target (missed.0, missed.1, target-Reached p.direction price _ target)
            | inr open_still ↦
                rw open_still (missed.0, missed.1, target-Missed p.direction price _ open_still)
          ])
    ]
