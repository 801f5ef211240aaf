-- ===== src/Analyst/Sides.antt =====
-- The reported levels lie on their sides of the price, and are few.
use crypto_research_platform.Prelude.{
  ℕ, ◌≤ℕ◌, ◌≡◌, refl, ap, inl, inr, Bool, true, false, Option, none, some, List, [], ◌∷◌, ◌++◌, map,
  length, take, All, All-take, All-append, length-map, length-take, arith, Bool-cases, eqb as eqb_ℕ,
  ◌||◌,
}
use mathlib.Core.Option.{some-injective}
use mathlib.Core.List.{append-nil}
use crypto_research_platform.Decimal.{Decimal, IsExact, ◌≤◌, of_ℕ, leb, round, le_of_lt}
use crypto_research_platform.Schemas.{LevelKind, support, resistance, SupportResistanceLevel}
use crypto_research_platform.Analyst.Levels.{
  PriceLevel, insert_by, sort_by, filter_by, is_kind, report, closer_below, closer_above, is_below,
  is_above, sides, sides_of, clustered, find_pivots, detect_levels,
}

module _ {A : Type 0} (before : A → A → Bool) where
  All-insert_by :
      (P : A → Type 0) (a : A) (xs : List A) → P a → All P xs → All P (insert_by before a xs)
  unfolding insert_by
  All-insert_by P a [] p h = (p, tt)
  All-insert_by P a (b ∷ xs) p h = elim (Bool-cases (before a b)) [
    | inl here ↦ rw here (p, (h.0, h.1))
    | inr later ↦ rw later (h.0, All-insert_by P a xs p h.1)
  ]

  All-sort_by : (P : A → Type 0) (xs : List A) → All P xs → All P (sort_by before xs)
  unfolding sort_by
  All-sort_by P [] h = tt
  All-sort_by P (a ∷ xs) h = All-insert_by P a (sort_by before xs) h.0 (All-sort_by P xs h.1)

All-filter_by : {A : Type 0} (p : A → Bool) (xs : List A) → All (λ a. p a ≡ true) (filter_by p xs)
All-filter_by p [] = tt
All-filter_by p (a ∷ xs) = elim (Bool-cases (p a)) [
  | inl kept ↦ rw kept (kept, All-filter_by p xs)
  | inr dropped ↦ rw dropped (All-filter_by p xs)
]

module _ {A : Type 0} (p : A → Bool) where
  filter_by-append : (xs ys : List A) → filter_by p (xs ++ ys) ≡ filter_by p xs ++ filter_by p ys
  filter_by-append [] ys = refl
  filter_by-append (a ∷ xs) ys = elim (Bool-cases (p a)) [
    | inl kept ↦ rw kept (ap (λ (r : List A). a ∷ r) (filter_by-append xs ys))
    | inr dropped ↦ rw dropped (filter_by-append xs ys)
  ]

  length-filter_by-le : (xs : List A) → length (filter_by p xs) ≤ℕ length xs
  length-filter_by-le [] = omega arith
  length-filter_by-le (a ∷ xs) = ground (arith, length-filter_by-le xs)

module _ {D : Type 0} ⦃d : Decimal D⦄ where
  -- A reported level lies on its side of the price, both rounded as prices are.
  abbrev pub OnSide : D → SupportResistanceLevel D → Type 0
  OnSide price l = elim l.kind [
    | support ↦ l.price ≤ round 8 price
    | resistance ↦ round 8 price ≤ l.price
  ]

  map-report :
      (price : D) (kind : LevelKind) (P : PriceLevel D → Type 0) (ls : List (PriceLevel D))
      → ((l : PriceLevel D) → P l → OnSide price (report price kind l))
      → All P ls
      → All (OnSide price) (map (report price kind) ls)
  map-report price kind P [] f h = tt
  map-report price kind P (l ∷ ls) f h = (f l h.0, map-report price kind P ls f h.1)

  abbrev pub of_kind : LevelKind → List (SupportResistanceLevel D) → List (SupportResistanceLevel D)
  of_kind kind ls = filter_by (λ l. is_kind l.kind kind) ls

  -- At most so many levels a side.
  abbrev pub IsFew : ℕ → List (SupportResistanceLevel D) → Type 0
  IsFew n ls = (length (of_kind support ls) ≤ℕ n) × (length (of_kind resistance ls) ≤ℕ n)

  of_kind_other :
      (price : D) (kind other : LevelKind) (ls : List (PriceLevel D))
      → is_kind kind other ≡ false
      → of_kind other (map (report price kind) ls) ≡ []
  of_kind_other price kind other [] h = refl
  of_kind_other price kind other (l ∷ ls) h = rw (h, of_kind_other price kind other ls h) refl

  of_kind-le :
      (price : D) (kind other : LevelKind) (ls : List (PriceLevel D))
      → length (of_kind other (map (report price kind) ls)) ≤ℕ length ls
  of_kind-le price kind other ls = omega (
    arith,
    length-filter_by-le (λ l. is_kind l.kind other) (map (report price kind) ls),
    length-map (report price kind) ls,
  )

  sides-IsFew : (price : D) (n : ℕ) (levels : List (PriceLevel D)) → IsFew n (sides price n levels)
  unfolding sides
  sides-IsFew price n levels =
      let below = take n (sort_by (closer_below price) (filter_by (is_below price) levels)) in
      let above = take n (sort_by (closer_above price) (filter_by (is_above price) levels)) in
      (
        rw
            (
              filter_by-append (λ l. is_kind l.kind support) (map (report price support) below)
                  (map (report price resistance) above),
              of_kind_other price resistance support above refl,
              append-nil (of_kind support (map (report price support) below)),
            )
            (omega (
              arith,
              of_kind-le price support support below,
              length-take n (sort_by (closer_below price) (filter_by (is_below price) levels)),
            )),
        rw
            (
              filter_by-append (λ l. is_kind l.kind resistance) (map (report price support) below)
                  (map (report price resistance) above),
              of_kind_other price support resistance below refl,
            )
            (omega (
              arith,
              of_kind-le price resistance resistance above,
              length-take n (sort_by (closer_above price) (filter_by (is_above price) levels)),
            )),
      )

  module _ (x : IsExact D) where
    sides-OnSide :
        (price : D) (n : ℕ) (levels : List (PriceLevel D))
        → All (OnSide price) (sides price n levels)
    unfolding sides
    sides-OnSide price n levels =
        All-append (OnSide price) _ _
          (map-report price support (λ l. is_below price l ≡ true) _
            (λ l h. x.round_mono 8 _ _ (le_of_lt x _ _ (ground arith)))
            (All-take (λ l. is_below price l ≡ true) n _
              (All-sort_by (closer_below price) (λ l. is_below price l ≡ true) _
                (All-filter_by (is_below price) levels))))
          (map-report price resistance (λ l. is_above price l ≡ true) _
            (λ l h. x.round_mono 8 _ _ (le_of_lt x _ _ (ground arith)))
            (All-take (λ l. is_above price l ≡ true) n _
              (All-sort_by (closer_above price) (λ l. is_above price l ≡ true) _
                (All-filter_by (is_above price) levels))))

    sides_of-OnSide :
        (price : D) (n : ℕ) (o : Option (List (PriceLevel D)))
        {out : List (SupportResistanceLevel D)}
        → sides_of price n o ≡ some out
        → All (OnSide price) out × IsFew n out
    sides_of-OnSide price n none h = cc
    sides_of-OnSide price n (some levels) h =
        rw (← some-injective _ _ h) (sides-OnSide price n levels, sides-IsFew price n levels)

    -- The levels that are reported lie on their sides of the current price, both rounded to eight
    -- places: a support not above it, a resistance not below it; and there are at most `n` supports and at
    -- most `n` resistances.
    pub detect_levels-OnSide :
        (highs lows : List D) (price : D) (lookback : ℕ) (pct : D) (n : ℕ)
        {out : List (SupportResistanceLevel D)}
        → detect_levels highs lows price lookback pct n ≡ some out
        → All (OnSide price) out × IsFew n out
    unfolding detect_levels
    detect_levels-OnSide highs lows price lookback pct n h =
        elim (Bool-cases (leb price (of_ℕ 0) || eqb_ℕ (length highs) 0)) [
          | inl nothing ↦
              rw (← some-injective _ _ (rw (nothing) at h)) (tt, (omega arith, omega arith))
          | inr something ↦
              sides_of-OnSide price n
                (clustered (find_pivots highs lows lookback) pct (length highs))
                (rw (something) at h)
        ]
