-- ===== src/Ingestion/History.antt =====
-- services/data_ingestion/market_data/hyperliquid_history.py: `fetch_window` and `fetch_range`. `ask` is
-- the endpoint behind the retries: the decoded answer for a window, or `none` for an exception.
use crypto_research_platform.Prelude.{
  ℕ, zero, suc, String, Bool, true, false, not, Option, none, some, List, [], ◌∷◌, string_eq,
  leb as leb_ℕ, if◌then◌else◌,
}
use crypto_research_platform.Prelude.Dict.{Dict, lookup}
use crypto_research_platform.Decimal.{Decimal, ◌+◌, ◌*◌, of_ℕ, leb, eqb, min, max}
use crypto_research_platform.Schemas.{Candle}
use crypto_research_platform.Analyst.Levels.{sort_by, filter_by}
use crypto_research_platform.Ingestion.Parsing.{
  Json, Parsed, parsed, malformed, crashed, parse_history_candle,
}

-- Seconds per supported candle interval.
abbrev pub interval_table : Dict String ℕ
interval_table =
    ("1m", 60)
    ∷ (("3m", 180)
        ∷ (("5m", 300)
            ∷ (("15m", 900)
                ∷ (("30m", 1800)
                    ∷ (("1h", 3600)
                        ∷ (("2h", 7200)
                            ∷ (("4h", 14400)
                                ∷ (("8h", 28800) ∷ (("12h", 43200) ∷ (("1d", 86400) ∷ []))))))))))

-- `none` is the `ValueError`
unfoldable pub interval_seconds : String → Option ℕ
interval_seconds interval = lookup interval interval_table

-- The variables of the loop of a range.
pub record RangeParams (D : Type 0) : Type 0 where
  pub step : D
  pub finish : D
  pub max_empty_windows : ℕ

module _ {V D : Type 0} ⦃d : Decimal D⦄ (j : Json V D) where
  abbrev pub kept : Parsed (Candle D) → Option (List (Candle D)) → Option (List (Candle D))
  kept (parsed c) none = none
  kept (parsed c) (some rest) = some (c ∷ rest)
  kept malformed rest = rest
  kept crashed rest = none

  -- The entries that are no dict or malformed are skipped.
  abbrev pub parse_all : List V → Option (List (Candle D))
  parse_all [] = some []
  parse_all (v ∷ vs) =
      let rest = parse_all vs in if j.is_dict v then kept (parse_history_candle j v) rest else rest

  abbrev pub oldest_first : Option (List (Candle D)) → Option (List (Candle D))
  oldest_first none = none
  oldest_first (some cs) = some (sort_by (λ a b. leb a.open_time b.open_time) cs)

  abbrev pub window_of : Option (List V) → Option (List (Candle D))
  window_of none = some []
  window_of (some vs) = oldest_first (parse_all vs)

  abbrev pub answered : Option V → Option (List (Candle D))
  answered none = none
  answered (some v) = window_of (j.items v)

  unfoldable pub fetch_window : (D → D → Option V) → D → D → Option (List (Candle D))
  unfolding parse_history_candle
  fetch_window ask start end = answered (ask start end)

module _ {D : Type 0} ⦃d : Decimal D⦄ where
  -- `time in collected`
  abbrev pub known : D → List (Candle D) → Bool
  known time [] = false
  known time (c ∷ cs) = if eqb c.open_time time then true else known time cs

  -- `collected[candle.open_time] = candle`
  abbrev pub collect : Candle D → List (Candle D) → List (Candle D)
  collect c [] = c ∷ []
  collect c (k ∷ ks) = if eqb k.open_time c.open_time then c ∷ ks else k ∷ collect c ks

  abbrev pub collect_all : List (Candle D) → List (Candle D) → List (Candle D)
  collect_all [] collected = collected
  collect_all (c ∷ cs) collected = collect_all cs (collect c collected)

  unfoldable pub with_fresh : List (Candle D) → List (Candle D) → List (Candle D)
  with_fresh batch collected =
      collect_all (filter_by (λ c. not (known c.open_time collected)) batch) collected

  abbrev pub newest_of : Candle D → List (Candle D) → D
  newest_of c [] = c.open_time
  newest_of c (k ∷ ks) = max c.open_time (newest_of k ks)

  -- Where the loop goes after a batch: `none` if it breaks, else the cursor and the empty windows.
  abbrev pub advance : RangeParams D → D → D → ℕ → List (Candle D) → Option (D × ℕ)
  advance p cursor window_end empty [] =
      if leb_ℕ p.max_empty_windows (suc empty) then none else some (window_end, suc empty)
  advance p cursor window_end empty (c ∷ cs) =
      if leb (newest_of c cs) cursor then none else some (newest_of c cs + p.step, 0)

  abbrev pub window_end : RangeParams D → D → D
  window_end p cursor = min (cursor + p.step * of_ℕ 4000) p.finish

  abbrev pub go_on :
      (D → ℕ → List (Candle D) → Option (List (Candle D)))
      → List (Candle D)
      → Option (D × ℕ)
      → Option (List (Candle D))
  go_on loop collected none = some collected
  go_on loop collected (some (cursor, empty)) = loop cursor empty collected

  abbrev pub after_batch :
      RangeParams D
      → (D → ℕ → List (Candle D) → Option (List (Candle D)))
      → D
      → ℕ
      → List (Candle D)
      → Option (List (Candle D))
      → Option (List (Candle D))
  after_batch p loop cursor empty collected none = none
  after_batch p loop cursor empty collected (some batch) =
      go_on loop (with_fresh batch collected) (advance p cursor (window_end p cursor) empty batch)

  -- The loop of `fetch_range`, by the windows that are left; `none` is an exception.
  unfoldable pub fetch_loop :
      (D → D → Option (List (Candle D)))
      → RangeParams D
      → ℕ
      → D
      → ℕ
      → List (Candle D)
      → Option (List (Candle D))
  fetch_loop fetch p zero cursor empty collected = some collected
  fetch_loop fetch p (suc n) cursor empty collected =
      let rest =
        after_batch p (fetch_loop fetch p n) cursor empty collected
          (fetch cursor (window_end p cursor)) in
      if leb p.finish cursor then some collected else rest

  abbrev pub by_time : Option (List (Candle D)) → Option (List (Candle D))
  by_time none = none
  by_time (some cs) = some (sort_by (λ a b. leb a.open_time b.open_time) cs)

  abbrev pub fetch_steps :
      (D → D → Option (List (Candle D))) → Option ℕ → D → D → ℕ → ℕ → Option (List (Candle D))
  fetch_steps fetch none start finish max_windows max_empty_windows = none
  fetch_steps fetch (some seconds) start finish max_windows max_empty_windows = by_time (
      fetch_loop fetch
        (record { step = of_ℕ seconds; finish = finish; max_empty_windows = max_empty_windows })
        max_windows start 0 [])

  unfoldable pub fetch_range :
      (D → D → Option (List (Candle D))) → String → D → D → ℕ → ℕ → Option (List (Candle D))
  unfolding fetch_loop interval_seconds
  fetch_range fetch interval start finish max_windows max_empty_windows =
      fetch_steps fetch (interval_seconds interval) start finish max_windows max_empty_windows
