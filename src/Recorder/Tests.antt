-- ===== src/Recorder/Tests.antt =====
-- A recorder with two closed candles buffered, and a database that refuses candles.
use crypto_research_platform.Prelude.{arith, ◌+ℕ◌, ◌≡◌, true, false, [], ◌∷◌}
use crypto_research_platform.Decimal.Int.{ℤ, pos}
use crypto_research_platform.Schemas.{Candle}
use crypto_research_platform.Recorder.Defs.{Streams, Recorder, Sinks, write, flush, buffered}
use crypto_research_platform.Recorder.Flush.{IsSplit, flush-IsSplit, write-drops_newest}

abbrev candle : ℤ → Candle ℤ
candle at = record {
  symbol = "BTC";
  interval = "1m";
  open_time = at;
  close_time = at;
  open_price = pos 1;
  high = pos 2;
  low = pos 1;
  close = pos 2;
  volume = pos 5;
  trade_count = 1;
  is_closed = true;
  correlation_id = 1;
}

abbrev rows : Streams ℤ
rows = record {
  books = [];
  metrics = [];
  funding = [];
  candles = candle (pos 1) ∷ (candle (pos 2) ∷ []);
}

abbrev recorder : Recorder ℤ
recorder = record {
  params = record { orderbook_interval_s = pos 1; batch_size = 10; max_retry_buffer = 2 };
  buffers = rows;
  last_book_at = [];
  rows_written = 0;
  books_throttled = 0;
}

abbrev sinks : Sinks
sinks = record { books = true; metrics = true; funding = true; candles = false }

flush-IsSplit_example :
    IsSplit recorder.buffers (flush sinks recorder).1 (flush sinks recorder).0.buffers
    × ((flush sinks recorder).0.rows_written
        ≡ recorder.rows_written +ℕ buffered (flush sinks recorder).1)
flush-IsSplit_example = flush-IsSplit sinks recorder (record {
  books = omega arith;
  metrics = omega arith;
  funding = omega arith;
  candles = omega arith;
})

write-drops_newest_example :
    (write 1 false (candle (pos 1) ∷ []) (candle (pos 2) ∷ [])).buffer ≡ candle (pos 1) ∷ []
write-drops_newest_example = write-drops_newest (candle (pos 1)) [] (candle (pos 2) ∷ [])
