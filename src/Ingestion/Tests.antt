-- ===== src/Ingestion/Tests.antt =====
-- A range of 200 seconds by steps of 60, from an endpoint that always answers.
use crypto_research_platform.Prelude.{◌≡◌, refl, true, Option, some, List, [], ◌∷◌}
use crypto_research_platform.Decimal.Int.{ℤ, pos, whole, whole-IsExact, ◌+ℤ◌, ◌*ℤ◌}
use crypto_research_platform.Schemas.{Candle}
use crypto_research_platform.Ingestion.History.{RangeParams, fetch_loop}
use crypto_research_platform.Ingestion.Progress.{fetch_loop_ends}

abbrev range : RangeParams ℤ
range = record { step = pos 60; finish = pos 200; max_empty_windows = 2 }

abbrev candle : ℤ → Candle ℤ
candle at = record {
  symbol = "BTC";
  interval = "1m";
  open_time = at;
  close_time = at;
  open_price = pos 10;
  high = pos 12;
  low = pos 9;
  close = pos 11;
  volume = pos 5;
  trade_count = 1;
  is_closed = true;
  correlation_id = 6;
}

abbrev endpoint : ℤ → ℤ → Option (List (Candle ℤ))
endpoint start finish = some (candle finish ∷ [])

fetch_loop_ends_example :
    fetch_loop endpoint range 9 (pos 0) 0 [] ≡ fetch_loop endpoint range 4 (pos 0) 0 []
unfolding ◌+ℤ◌ ◌*ℤ◌
fetch_loop_ends_example = fetch_loop_ends whole-IsExact range refl endpoint 4 5 (pos 0) 0 [] refl
