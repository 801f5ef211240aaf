-- ===== src/Analyst/Protection.antt =====
-- The protective levels lie on their sides of the price.
use crypto_research_platform.Prelude.{
  ◌≡◌, refl, inl, inr, Option, none, some, List, arith, Bool-cases, if◌then◌else◌,
}
use crypto_research_platform.Decimal.{
  Decimal, IsExact, ◌+◌, ◌*◌, ◌/◌, ◌≤◌, of_ℕ, leb, eqb, round, le_refl, le_of_lt, sub_le_self,
  mul_nonneg, of_ℕ_nonneg, of_ℕ_pos, div_nonneg, add_mono_both,
}
use crypto_research_platform.Schemas.{Direction, support, resistance, SupportResistanceLevel}
use crypto_research_platform.Analyst.Levels.{nearest_level}
use crypto_research_platform.Analyst.Exits.{
  buffer_of, long_levels, short_levels, quoted, protective_levels,
}

module _ {D : Type 0} ⦃d : Decimal D⦄ where
  -- Where it is given, it is not above the bound, or not below it.
  abbrev pub NotAbove : D → Option D → Type 0
  NotAbove b none = Unit
  NotAbove b (some a) = a ≤ b

  abbrev pub NotBelow : D → Option D → Type 0
  NotBelow b none = Unit
  NotBelow b (some a) = b ≤ a

  -- Both exits are on the sides that a position in this direction needs.
  abbrev pub IsProtecting : Direction → D → Option D × Option D → Type 0
  IsProtecting Direction.long price (stop, target) =
      NotAbove (round 8 price) stop × NotBelow (round 8 price) target
  IsProtecting Direction.short price (stop, target) =
      NotBelow (round 8 price) stop × NotAbove (round 8 price) target
  IsProtecting Direction.flat price (stop, target) = (stop ≡ none) × (target ≡ none)

  module _ (x : IsExact D) where
    open x use {add_zero, round_mono}

    le-add : (a b : D) → of_ℕ 0 ≤ b → a ≤ a + b
    le-add a b h = rw (add_zero a) at (add_mono_both x a a (of_ℕ 0) b (le_refl x a) h)

    share_nonneg : (price : D) → of_ℕ 0 ≤ price → of_ℕ 0 ≤ price * (of_ℕ 15 / of_ℕ 1000)
    share_nonneg price h =
        mul_nonneg x _ _ h (div_nonneg x _ _ (of_ℕ_pos x 1000 (omega arith)) (of_ℕ_nonneg x 15))

    buffer_of_nonneg :
        (price : D) (a : Option D)
        → of_ℕ 0 ≤ price
        → NotBelow (of_ℕ 0) a
        → of_ℕ 0 ≤ buffer_of price a
    buffer_of_nonneg price none h k = share_nonneg price h
    buffer_of_nonneg price (some a) h k = elim (Bool-cases (eqb a (of_ℕ 0))) [
      | inl absent ↦ rw absent (share_nonneg price h)
      | inr given ↦
          rw given
            (mul_nonneg x _ _ k (div_nonneg x _ _ (of_ℕ_pos x 10 (omega arith)) (of_ℕ_nonneg x 15)))
    ]

    twice_nonneg : (b : D) → of_ℕ 0 ≤ b → of_ℕ 0 ≤ of_ℕ 2 * b
    twice_nonneg b h = mul_nonneg x _ _ (of_ℕ_nonneg x 2) h

    -- A level on the wrong side gives way to one that is on the right side.
    below_or :
        (price level other : D) → other ≤ price → (if leb price level then other else level) ≤ price
    below_or price level other h = elim (Bool-cases (leb price level)) [
      | inl wrong ↦ rw wrong h
      | inr right ↦ rw right (le_of_lt x _ _ right)
    ]

    above_or :
        (price level other : D) → price ≤ other → price ≤ (if leb level price then other else level)
    above_or price level other h = elim (Bool-cases (leb level price)) [
      | inl wrong ↦ rw wrong h
      | inr right ↦ rw right (le_of_lt x _ _ right)
    ]

    quoted_long :
        (price stop target : D)
        → stop ≤ price
        → price ≤ target
        → IsProtecting Direction.long price (quoted (stop, target))
    quoted_long price stop target h k = elim (Bool-cases (leb target (of_ℕ 0))) [
      | inl no_target ↦ rw no_target (round_mono 8 _ _ h, tt)
      | inr with_target ↦ rw with_target (round_mono 8 _ _ h, round_mono 8 _ _ k)
    ]

    quoted_short :
        (price stop target : D)
        → price ≤ stop
        → target ≤ price
        → IsProtecting Direction.short price (quoted (stop, target))
    quoted_short price stop target h k = elim (Bool-cases (leb target (of_ℕ 0))) [
      | inl no_target ↦ rw no_target (round_mono 8 _ _ h, tt)
      | inr with_target ↦ rw with_target (round_mono 8 _ _ h, round_mono 8 _ _ k)
    ]

    long_levels-IsProtecting :
        (price buffer : D) (below above : Option (SupportResistanceLevel D))
        → of_ℕ 0 ≤ buffer
        → IsProtecting Direction.long price (quoted (long_levels price buffer below above))
    long_levels-IsProtecting price buffer below above h =
        quoted_long price _ _ (below_or price _ _ (sub_le_self x price buffer h))
          (above_or price _ _ (le-add price (of_ℕ 2 * buffer) (twice_nonneg buffer h)))

    short_levels-IsProtecting :
        (price buffer : D) (below above : Option (SupportResistanceLevel D))
        → of_ℕ 0 ≤ buffer
        → IsProtecting Direction.short price (quoted (short_levels price buffer below above))
    short_levels-IsProtecting price buffer below above h =
        quoted_short price _ _ (above_or price _ _ (le-add price buffer h))
          (below_or price _ _ (sub_le_self x price (of_ℕ 2 * buffer) (twice_nonneg buffer h)))

    -- The suggested stop of a long is not above the price and its target not below it, and for a short
    -- the other way round, both rounded as prices are; without a direction there are none. This holds
    -- for all levels found in the chart, when the average true range is not negative.
    pub protective_levels-IsProtecting :
        (direction : Direction) (price : D) (levels : List (SupportResistanceLevel D))
        (atr : Option D)
        → NotBelow (of_ℕ 0) atr
        → IsProtecting direction price (protective_levels direction price levels atr)
    unfolding protective_levels
    protective_levels-IsProtecting Direction.flat price levels atr h = (refl, refl)
    protective_levels-IsProtecting Direction.long price levels atr h =
        elim (Bool-cases (leb price (of_ℕ 0))) [
          | inl worthless ↦ rw worthless (tt, tt)
          | inr priced ↦ rw priced (
              long_levels-IsProtecting price (buffer_of price atr) (nearest_level levels support)
                (nearest_level levels resistance)
                (buffer_of_nonneg price atr (le_of_lt x _ _ priced) h))
        ]
    protective_levels-IsProtecting Direction.short price levels atr h =
        elim (Bool-cases (leb price (of_ℕ 0))) [
          | inl worthless ↦ rw worthless (tt, tt)
          | inr priced ↦ rw priced (
              short_levels-IsProtecting price (buffer_of price atr) (nearest_level levels support)
                (nearest_level levels resistance)
                (buffer_of_nonneg price atr (le_of_lt x _ _ priced) h))
        ]
