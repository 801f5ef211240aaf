-- ===== src/Monitor/Ratchet.antt =====
-- The trailing stop ratchets: observing a price never loosens the effective stop.
use crypto_research_platform.Prelude.{
  ◌≡◌, inl, inr, true, Option, none, some, arith, Bool-cases, if◌then◌else◌,
}
use crypto_research_platform.Decimal.{
  Decimal, IsExact, ◌+◌, ◌-◌, ◌/◌, ◌≤◌, of_ℕ, leb, max, min, le_refl, le-max_left, min-le_left,
}
use crypto_research_platform.Schemas.{Direction, is_long}
use crypto_research_platform.Monitor.Guard.{
  ProtectedPosition, watermark, observe, trail, trailing_stop, tighter, effective_stop,
}

module _ {D : Type 0} ⦃d : Decimal D⦄ where
  -- On the losing side: at least as high for a long, at least as low for the others.
  abbrev pub IsAsTight : Direction → D → D → Type 0
  IsAsTight dir new old = (if is_long dir then leb old new else leb new old) ≡ true

  -- A stop that is there stays, and is as tight.
  abbrev pub IsNoLooser : Direction → Option D → Option D → Type 0
  IsNoLooser dir new none = Unit
  IsNoLooser dir none (some old) = ⊥
  IsNoLooser dir (some new) (some old) = IsAsTight dir new old

  -- A trailing percentage that leaves a stop of the right sign.
  abbrev pub IsTrail : Option D → Type 0
  IsTrail none = Unit
  IsTrail (some pct) = (of_ℕ 0 ≤ of_ℕ 1 - pct / of_ℕ 100) × (of_ℕ 0 ≤ of_ℕ 1 + pct / of_ℕ 100)

  module _ (x : IsExact D) where
    open x use {le_trans, le_total, mul_mono}

    IsAsTight-refl : (dir : Direction) (a : D) → IsAsTight dir a a
    IsAsTight-refl Direction.long a = le_refl x a
    IsAsTight-refl Direction.short a = le_refl x a
    IsAsTight-refl Direction.flat a = le_refl x a

    IsNoLooser-refl : (dir : Direction) (s : Option D) → IsNoLooser dir s s
    IsNoLooser-refl dir none = tt
    IsNoLooser-refl dir (some a) = IsAsTight-refl dir a

    trail-IsNoLooser :
        (dir : Direction) (pct : Option D) (price : D) (e : Option D)
        → IsTrail pct
        → IsNoLooser dir (trail dir pct (some (watermark dir price e))) (trail dir pct e)
    trail-IsNoLooser dir none price e h = tt
    trail-IsNoLooser dir (some pct) price none h = tt
    trail-IsNoLooser Direction.long (some pct) price (some e) h =
        mul_mono _ _ _ h.0 (le-max_left x e price)
    trail-IsNoLooser Direction.short (some pct) price (some e) h =
        mul_mono _ _ _ h.1 (min-le_left x e price)
    trail-IsNoLooser Direction.flat (some pct) price (some e) h =
        mul_mono _ _ _ h.1 (min-le_left x e price)

    max_mono : (a b c : D) → b ≤ c → max a b ≤ max a c
    max_mono a b c h =
        ground (arith, le_trans a b c, le_trans b c a, le_total a b, le_total a c, le_refl x a)

    min_mono : (a b c : D) → b ≤ c → min a b ≤ min a c
    min_mono a b c h =
        ground (arith, le_trans a b c, le_trans b c a, le_total a b, le_total a c, le_refl x a)

    tighter-IsNoLooser :
        (dir : Direction) (fixed new old : Option D)
        → IsNoLooser dir new old
        → IsNoLooser dir (tighter dir fixed new) (tighter dir fixed old)
    tighter-IsNoLooser dir none new old h = h
    tighter-IsNoLooser dir (some f) none none h = IsAsTight-refl dir f
    tighter-IsNoLooser Direction.long (some f) (some n) none h = le-max_left x f n
    tighter-IsNoLooser Direction.short (some f) (some n) none h = min-le_left x f n
    tighter-IsNoLooser Direction.flat (some f) (some n) none h = min-le_left x f n
    tighter-IsNoLooser dir (some f) none (some o) h = absurd h
    tighter-IsNoLooser Direction.long (some f) (some n) (some o) h = max_mono f o n h
    tighter-IsNoLooser Direction.short (some f) (some n) (some o) h = min_mono f n o h
    tighter-IsNoLooser Direction.flat (some f) (some n) (some o) h = min_mono f n o h

    -- Observing a price never removes or loosens the effective stop, where the trailing percentage
    -- leaves a stop of the right sign: a long's only rises and a short's only falls.
    pub effective_stop-observe :
        (price : D) (p : ProtectedPosition D)
        → IsTrail p.trailing_stop_pct
        → IsNoLooser p.direction (effective_stop (observe price p)) (effective_stop p)
    unfolding observe effective_stop trailing_stop
    effective_stop-observe price p h = elim (Bool-cases (leb price (of_ℕ 0))) [
      | inl nothing ↦ rw nothing (IsNoLooser-refl p.direction _)
      | inr seen ↦ rw seen (
          tighter-IsNoLooser p.direction p.stop_price _ _
            (trail-IsNoLooser p.direction p.trailing_stop_pct price p.extreme_price h))
    ]

    -- A trail only reduces risk: the effective stop is as tight as the fixed stop that risk approved.
    pub effective_stop-fixed :
        (p : ProtectedPosition D) → IsNoLooser p.direction (effective_stop p) p.stop_price
    unfolding effective_stop
    effective_stop-fixed p = of_fixed p.direction p.stop_price (trailing_stop p)
      where
        of_fixed :
            (dir : Direction) (fixed t : Option D) → IsNoLooser dir (tighter dir fixed t) fixed
        of_fixed dir none t = tt
        of_fixed dir (some f) none = IsAsTight-refl dir f
        of_fixed Direction.long (some f) (some t) = le-max_left x f t
        of_fixed Direction.short (some f) (some t) = min-le_left x f t
        of_fixed Direction.flat (some f) (some t) = min-le_left x f t
