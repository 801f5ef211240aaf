-- ===== src/Recorder/Flush.antt =====
-- A flush: what is stored and what is buffered are the rows there were.
use crypto_research_platform.Prelude.{
  ℕ, zero, suc, ◌∙◌, ◌+ℕ◌, ◌≤ℕ◌, ◌≡◌, refl, ap, Bool, true, false, List, [], ◌∷◌, ◌++◌, length,
  take, take_all, length-take, length-append, arith,
}
use mathlib.Core.List.{append-nil}
use crypto_research_platform.Recorder.Defs.{
  Streams, Recorder, Sinks, Written, write, write_all, flush, buffered,
}

module _ {A : Type 0} where
  -- What one write leaves of the rows that were taken out of a buffer.
  pub record IsConserved (rows : List A) (w : Written A) : Type 0 where
    pub kept : w.stored ++ w.buffer ≡ rows
    pub counted : w.count ≡ length w.stored

  write-IsConserved :
      (cap : ℕ) (accepts : Bool) (rows : List A)
      → length rows ≤ℕ cap
      → IsConserved rows (write cap accepts rows [])
  unfolding write
  write-IsConserved cap accepts [] h = record { kept = refl; counted = refl }
  write-IsConserved cap true (r ∷ rows) h = record { kept = append-nil _; counted = refl }
  write-IsConserved cap false (r ∷ rows) h =
      let same = take_all cap ((r ∷ rows) ++ []) (omega (arith, length-append (r ∷ rows) [])) in
      record { kept = same ∙ append-nil _; counted = refl }

  take_append : (n : ℕ) (xs ys : List A) → length xs ≡ n → take n (xs ++ ys) ≡ xs
  take_append zero [] ys h = refl
  take_append zero (x ∷ xs) ys h = absurd (omega arith)
  take_append (suc n) [] ys h = absurd (omega arith)
  take_append (suc n) (x ∷ xs) ys h = ap (λ (t : List A). x ∷ t) (take_append n xs ys (omega arith))

  -- Where a sink refuses a batch that fills the retry buffer, the batch is kept and every row that came
  -- since is gone.
  pub write-drops_newest :
      (r : A) (rows newer : List A)
      → (write (length (r ∷ rows)) false (r ∷ rows) newer).buffer ≡ r ∷ rows
  unfolding write
  write-drops_newest r rows newer = take_append (length (r ∷ rows)) (r ∷ rows) newer refl

write_bound :
    {A : Type 0} (cap : ℕ) (accepts : Bool) (rows : List A)
    → length (write cap accepts rows []).buffer ≤ℕ cap
unfolding write
write_bound cap accepts [] = omega arith
write_bound cap true (r ∷ rows) = omega arith
write_bound cap false (r ∷ rows) = omega (arith, length-take cap ((r ∷ rows) ++ []))

module _ {D : Type 0} where
  -- Every stream's buffer is within a bound.
  pub record IsBuffered (cap : ℕ) (b : Streams D) : Type 0 where
    pub books : length b.books ≤ℕ cap
    pub metrics : length b.metrics ≤ℕ cap
    pub funding : length b.funding ≤ℕ cap
    pub candles : length b.candles ≤ℕ cap

  -- The rows of each stream are those stored, then those still buffered.
  pub record IsSplit (rows stored b : Streams D) : Type 0 where
    pub books : stored.books ++ b.books ≡ rows.books
    pub metrics : stored.metrics ++ b.metrics ≡ rows.metrics
    pub funding : stored.funding ++ b.funding ≡ rows.funding
    pub candles : stored.candles ++ b.candles ≡ rows.candles

  -- A flush loses and doubles no row, whichever sinks refuse: in each stream the rows that were
  -- buffered are those stored, followed by those buffered still; and the count of rows written grows
  -- by the number stored. No buffer is over the retry bound before it.
  pub flush-IsSplit :
      (k : Sinks) (r : Recorder D)
      → IsBuffered r.params.max_retry_buffer r.buffers
      → IsSplit r.buffers (flush k r).1 (flush k r).0.buffers
        × ((flush k r).0.rows_written ≡ r.rows_written +ℕ buffered (flush k r).1)
  unfolding flush write_all
  flush-IsSplit k r h =
      let cap = r.params.max_retry_buffer in
      let wb = write-IsConserved cap k.books r.buffers.books h.books in
      let wm = write-IsConserved cap k.metrics r.buffers.metrics h.metrics in
      let wf = write-IsConserved cap k.funding r.buffers.funding h.funding in
      let wc = write-IsConserved cap k.candles r.buffers.candles h.candles in
      (
        record { books = wb.kept; metrics = wm.kept; funding = wf.kept; candles = wc.kept },
        omega (arith, wb.counted, wm.counted, wf.counted, wc.counted),
      )

  -- After a flush every buffer is within the retry bound, whatever was buffered and whichever sinks
  -- refuse.
  pub flush-IsBuffered :
      (k : Sinks) (r : Recorder D) → IsBuffered r.params.max_retry_buffer (flush k r).0.buffers
  unfolding flush write_all
  flush-IsBuffered k r =
      let cap = r.params.max_retry_buffer in
      record {
        books = write_bound cap k.books r.buffers.books;
        metrics = write_bound cap k.metrics r.buffers.metrics;
        funding = write_bound cap k.funding r.buffers.funding;
        candles = write_bound cap k.candles r.buffers.candles;
      }
