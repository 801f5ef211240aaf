-- ===== src/Recorder/Defs.antt =====
-- `class MarketRecorder`: `handle`, `_should_store_book` and `flush`. What a sink does with a batch is
-- an argument: `true` if it takes the rows, `false` if it raises. The repositories return the number
-- of rows that they were given.
use crypto_research_platform.Prelude.{
  ℕ, ◌+ℕ◌, suc, String, Bool, true, false, Option, none, some, List, [], ◌∷◌, ◌++◌, length, take,
  string_eq, leb as leb_ℕ, if◌then◌else◌,
}
use crypto_research_platform.Prelude.Dict.{Dict, lookup, insert}
use crypto_research_platform.Decimal.{Decimal, ◌-◌, of_ℕ, leb, ltb}
use crypto_research_platform.Schemas.{OrderBookSnapshot, PerpMetrics, FundingRate, Candle, Event}

pub record RecordingParams (D : Type 0) : Type 0 where
  pub orderbook_interval_s : D
  pub batch_size : ℕ
  pub max_retry_buffer : ℕ

-- One list for each stream: the buffers of the recorder, or the rows of a batch.
pub record Streams (D : Type 0) : Type 0 where
  pub books : List (OrderBookSnapshot D)
  pub metrics : List (PerpMetrics D)
  pub funding : List (FundingRate D)
  pub candles : List (Candle D)

pub record Recorder (D : Type 0) : Type 0 where
  pub params : RecordingParams D
  pub buffers : Streams D
  pub last_book_at : Dict String D
  pub rows_written : ℕ
  pub books_throttled : ℕ

-- What each of the four sinks does in one flush.
pub record Sinks : Type 0 where
  pub books : Bool
  pub metrics : Bool
  pub funding : Bool
  pub candles : Bool

-- One call of `write`: the buffer after it, the rows that were stored, and their number.
pub record Written (A : Type 0) : Type 0 where
  pub buffer : List A
  pub stored : List A
  pub count : ℕ

-- `buffer[:0] = rows; del buffer[cap:]` on failure.
unfoldable pub write : {A : Type 0} → ℕ → Bool → List A → List A → Written A
write cap accepts [] buffer = record { buffer = buffer; stored = []; count = 0 }
write cap accepts (r ∷ rows) buffer =
    if accepts
    then record { buffer = buffer; stored = r ∷ rows; count = length (r ∷ rows) }
    else record { buffer = take cap ((r ∷ rows) ++ buffer); stored = []; count = 0 }

module _ {D : Type 0} where
  abbrev pub no_rows : Streams D
  no_rows = record { books = []; metrics = []; funding = []; candles = [] }

  abbrev pub buffered : Streams D → ℕ
  buffered b = length b.books +ℕ length b.metrics +ℕ length b.funding +ℕ length b.candles

  -- The writes of a flush: `rows` was taken out of the buffers, `b` has what came since.
  unfoldable pub write_all : ℕ → Sinks → Streams D → Streams D → Streams D × Streams D × ℕ
  unfolding write
  write_all cap k rows b =
      let ws = write cap k.books rows.books b.books in
      let wm = write cap k.metrics rows.metrics b.metrics in
      let wf = write cap k.funding rows.funding b.funding in
      let wc = write cap k.candles rows.candles b.candles in
      (
        record { books = ws.buffer; metrics = wm.buffer; funding = wf.buffer; candles = wc.buffer },
        record { books = ws.stored; metrics = wm.stored; funding = wf.stored; candles = wc.stored },
        ws.count +ℕ wm.count +ℕ wf.count +ℕ wc.count,
      )

  -- `flush` with nothing arriving while it runs: the recorder, the rows stored, and their number.
  unfoldable pub flush : Sinks → Recorder D → Recorder D × Streams D × ℕ
  unfolding write_all
  flush k r =
      let (b, stored, n) = write_all r.params.max_retry_buffer k r.buffers no_rows in
      (record r { buffers = b; rows_written = r.rows_written +ℕ n }, stored, n)

module _ {D : Type 0} ⦃d : Decimal D⦄ where
  abbrev pub too_soon : D → D → Option D → Bool
  too_soon interval stamp none = false
  too_soon interval stamp (some previous) = ltb (stamp - previous) interval

  -- `_should_store_book`, with the state that it leaves.
  unfoldable pub should_store_book : OrderBookSnapshot D → Recorder D → Recorder D × Bool
  should_store_book s r =
      if leb r.params.orderbook_interval_s (of_ℕ 0)
      then (r, true)
      else if too_soon r.params.orderbook_interval_s s.occurred_at (lookup s.symbol r.last_book_at)
      then (r, false)
      else (record r { last_book_at = insert s.symbol s.occurred_at r.last_book_at }, true)

  abbrev pub store_book : OrderBookSnapshot D → Recorder D × Bool → Recorder D
  store_book s (r, true) = record r {
    buffers = record (r.buffers) { books = r.buffers.books ++ (s ∷ []) };
  }
  store_book s (r, false) = record r { books_throttled = suc r.books_throttled }

  unfoldable pub buffer_event : Event D → Recorder D → Recorder D
  unfolding should_store_book
  buffer_event (Event.book s) r = store_book s (should_store_book s r)
  buffer_event (Event.perp_metrics m) r = record r {
    buffers = record (r.buffers) { metrics = r.buffers.metrics ++ (m ∷ []) };
  }
  buffer_event (Event.funding p) r = record r {
    buffers = record (r.buffers) { funding = r.buffers.funding ++ (p ∷ []) };
  }
  buffer_event (Event.candle c) r =
      if c.is_closed
      then record r { buffers = record (r.buffers) { candles = r.buffers.candles ++ (c ∷ []) } }
      else r
  buffer_event _ r = r

  -- The recorder and the rows stored; it publishes nothing.
  unfoldable pub handle : Sinks → Event D → Recorder D → Recorder D × Streams D
  unfolding flush buffer_event
  handle k e r =
      let r' = buffer_event e r in
      let (r'', stored, n) = flush k r' in
      if leb_ℕ r'.params.batch_size (buffered r'.buffers) then (r'', stored) else (r', no_rows)
