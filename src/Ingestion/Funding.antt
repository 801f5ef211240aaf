-- ===== src/Ingestion/Funding.antt =====
-- services/data_ingestion/market_data/hyperliquid_funding.py: `fetch_range`. `ask` is the endpoint behind
-- the retries: the decoded answer for a start, or `none` for an exception.
use crypto_research_platform.Prelude.{
  ℕ, zero, suc, Bool, true, false, not, ◌&&◌, ◌||◌, Option, none, some, List, [], ◌∷◌, ◌++◌,
  eqb as eqb_ℕ, if◌then◌else◌,
}
use crypto_research_platform.Decimal.{Decimal, ◌+◌, of_ℕ, leb, eqb, max}
use crypto_research_platform.Schemas.{FundingRate}
use crypto_research_platform.Analyst.Levels.{sort_by}
use crypto_research_platform.Ingestion.Parsing.{
  Json, Parsed, parsed, malformed, crashed, parse_funding,
}

module _ {D : Type 0} ⦃d : Decimal D⦄ where
  abbrev pub funding_interval : D
  funding_interval = of_ℕ 3600

  abbrev pub seen : D → List (FundingRate D) → Bool
  seen time [] = false
  seen time (f ∷ fs) = if eqb f.occurred_at time then true else seen time fs

  -- The points that are collected, and how many are new.
  abbrev pub take_point : D → FundingRate D → List (FundingRate D) × ℕ → List (FundingRate D) × ℕ
  take_point finish f (collected, fresh) =
      if leb f.occurred_at finish && not (seen f.occurred_at collected)
      then (collected ++ (f ∷ []), suc fresh)
      else (collected, fresh)

  abbrev pub latest_of : FundingRate D → List (FundingRate D) → D
  latest_of f [] = f.occurred_at
  latest_of f (g ∷ gs) = max f.occurred_at (latest_of g gs)

  -- The next cursor, or `none` where the loop breaks.
  abbrev pub next_cursor : D → List (FundingRate D) × ℕ → Option D
  next_cursor cursor ([], fresh) = none
  next_cursor cursor (f ∷ fs, fresh) =
      let newest = latest_of f fs in
      if eqb_ℕ fresh 0 || leb newest cursor then none else some (newest + funding_interval)

module _ {V D : Type 0} ⦃d : Decimal D⦄ (j : Json V D) where
  abbrev pub with_point :
      D → Parsed (FundingRate D) → List (FundingRate D) × ℕ → Option (List (FundingRate D) × ℕ)
  with_point finish (parsed f) s = some (take_point finish f s)
  with_point finish malformed s = some s
  with_point finish crashed s = none

  abbrev pub then_points :
      Option (List (FundingRate D) × ℕ)
      → (List (FundingRate D) × ℕ → Option (List (FundingRate D) × ℕ))
      → Option (List (FundingRate D) × ℕ)
  then_points none f = none
  then_points (some s) f = f s

  abbrev pub take_entries :
      D → List V → List (FundingRate D) × ℕ → Option (List (FundingRate D) × ℕ)
  take_entries finish [] s = some s
  take_entries finish (v ∷ vs) s =
      then_points (if j.is_dict v then with_point finish (parse_funding j v) s else some s)
        (take_entries finish vs)

  abbrev pub go_on :
      (D → List (FundingRate D) → Option (List (FundingRate D)))
      → List (FundingRate D)
      → Option D
      → Option (List (FundingRate D))
  go_on loop collected none = some collected
  go_on loop collected (some cursor) = loop cursor collected

  abbrev pub after_page :
      (D → List (FundingRate D) → Option (List (FundingRate D)))
      → D
      → Option (List (FundingRate D) × ℕ)
      → Option (List (FundingRate D))
  after_page loop cursor none = none
  after_page loop cursor (some s) = go_on loop s.0 (next_cursor cursor s)

  -- An answer that is no list, or an empty one, ends the loop.
  abbrev pub after_answer :
      (D → List (FundingRate D) → Option (List (FundingRate D)))
      → D
      → D
      → List (FundingRate D)
      → Option (List V)
      → Option (List (FundingRate D))
  after_answer loop finish cursor collected none = some collected
  after_answer loop finish cursor collected (some []) = some collected
  after_answer loop finish cursor collected (some (v ∷ vs)) =
      after_page loop cursor (take_entries finish (v ∷ vs) (collected, 0))

  abbrev pub after_request :
      (D → List (FundingRate D) → Option (List (FundingRate D)))
      → D
      → D
      → List (FundingRate D)
      → Option V
      → Option (List (FundingRate D))
  after_request loop finish cursor collected none = none
  after_request loop finish cursor collected (some v) =
      after_answer loop finish cursor collected (j.items v)

  -- The loop of `fetch_range`, by the requests that are left; `none` is an exception.
  unfoldable pub funding_loop :
      (D → Option V) → D → ℕ → D → List (FundingRate D) → Option (List (FundingRate D))
  funding_loop ask finish zero cursor collected = some collected
  funding_loop ask finish (suc n) cursor collected =
      let rest = after_request (funding_loop ask finish n) finish cursor collected (ask cursor) in
      if leb finish cursor then some collected else rest

  abbrev pub by_occurrence : Option (List (FundingRate D)) → Option (List (FundingRate D))
  by_occurrence none = none
  by_occurrence (some fs) = some (sort_by (λ a b. leb a.occurred_at b.occurred_at) fs)

  unfoldable pub fetch_funding : (D → Option V) → D → D → ℕ → Option (List (FundingRate D))
  unfolding funding_loop
  fetch_funding ask start finish max_windows =
      by_occurrence (funding_loop ask finish max_windows start [])
