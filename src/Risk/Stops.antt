-- ===== src/Risk/Stops.antt =====
-- The stop that a size is computed from lies on the losing side of the entry.
use crypto_research_platform.Prelude.{
  ◌≡◌, inl, inr, Bool, true, false, ◌&&◌, Option, none, some, arith, Bool-cases,
}
use crypto_research_platform.Decimal.{
  Decimal, IsExact, ◌+◌, ◌-◌, ◌*◌, ◌/◌, ◌≤◌, ◌<◌, of_ℕ, leb, ltb, abs, zero_add, le_of_add_le_add,
}
use crypto_research_platform.Schemas.{Direction}
use crypto_research_platform.Risk.Defs.{RiskLimits, default_stop, correct_side, resolve_stop}

and_false : (b : Bool) → (b && false) ≡ false
and_false b = ground arith

module _ {D : Type 0} ⦃d : Decimal D⦄ where
  -- Where a stop must lie for a direction.
  abbrev pub IsLosingSide : Direction → D → D → Type 0
  IsLosingSide Direction.long price stop = stop < price
  IsLosingSide Direction.short price stop = price < stop
  IsLosingSide Direction.flat price stop = Unit

  module _ (x : IsExact D) where
    open x use {sub_add, add_comm, le_trans, add_mono}

    lt_add_pos : (a b : D) → of_ℕ 0 < b → a < a + b
    lt_add_pos a b h = ground (
      arith,
      λ (k : a + b ≤ a). le_of_add_le_add x b (of_ℕ 0) a (rw (zero_add x a) (rw (add_comm b a) k)),
    )

    sub_pos_lt : (a b : D) → of_ℕ 0 < b → a - b < a
    sub_pos_lt a b h = rw (sub_add) at (lt_add_pos (a - b) b h)

    correct_side-IsLosingSide :
        (dir : Direction) (suggested price : D)
        → correct_side suggested price dir ≡ true
        → IsLosingSide dir price suggested
    unfolding correct_side
    correct_side-IsLosingSide Direction.long suggested price h = ground arith
    correct_side-IsLosingSide Direction.short suggested price h = ground arith
    correct_side-IsLosingSide Direction.flat suggested price h = tt

    default_stop-IsLosingSide :
        (l : RiskLimits D) (dir : Direction) (price : D)
        → of_ℕ 0 < price * l.default_stop_distance_pct / of_ℕ 100
        → IsLosingSide dir price (default_stop l price dir)
    unfolding default_stop
    default_stop-IsLosingSide l Direction.long price h = sub_pos_lt price _ h
    default_stop-IsLosingSide l Direction.short price h = lt_add_pos price _ h
    default_stop-IsLosingSide l Direction.flat price h = tt

    -- Whatever stop the analyst suggests, if any, the stop that sizes a long lies strictly below the
    -- entry and that of a short strictly above it, where the default distance is positive.
    pub resolve_stop-IsLosingSide :
        (l : RiskLimits D) (suggested : Option D) (price : D) (dir : Direction)
        → of_ℕ 0 < price * l.default_stop_distance_pct / of_ℕ 100
        → IsLosingSide dir price (resolve_stop l suggested price dir)
    unfolding resolve_stop
    resolve_stop-IsLosingSide l none price dir h = default_stop-IsLosingSide l dir price h
    resolve_stop-IsLosingSide l (some s) price dir h =
        elim (Bool-cases (correct_side s price dir)) [
          | inl right ↦
              elim (Bool-cases (
                ltb (of_ℕ 0) s
                && (correct_side s price dir
                    && leb l.min_stop_distance_pct (abs (price - s) / price * of_ℕ 100)))) [
                      | inl used ↦ rw used (correct_side-IsLosingSide dir s price right)
                      | inr unused ↦ rw unused (default_stop-IsLosingSide l dir price h)
                    ]
          | inr wrong ↦
              rw (wrong, and_false (ltb (of_ℕ 0) s)) (default_stop-IsLosingSide l dir price h)
        ]
