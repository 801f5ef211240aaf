-- ===== src/Ingestion/Progress.antt =====
-- The loops of a range make progress: with enough windows they end by themselves.
use crypto_research_platform.Prelude.{
  ℕ, zero, suc, from_zero, from_suc, ◌+ℕ◌, ◌≡◌, refl, sym, ap, ◌∙◌, inl, inr, Option, none, some,
  List, [], ◌∷◌, arith, Bool-cases, leb as leb_ℕ,
}
use mathlib.Core.Option.{some-injective}
use crypto_research_platform.Decimal.{
  Decimal, IsExact, ◌+◌, ◌*◌, ◌≤◌, of_ℕ, leb, ltb, le_refl, le_of_lt, zero_mul, add_mul, mul_nonneg,
  mul_mono_right, add_mono_both, of_ℕ_nonneg,
}
use crypto_research_platform.Schemas.{Candle}
use crypto_research_platform.Ingestion.History.{
  RangeParams, with_fresh, newest_of, advance, window_end, go_on, after_batch, fetch_loop,
}

module _ {D : Type 0} ⦃d : Decimal D⦄ where
  go_same :
      (loop loop' : D → ℕ → List (Candle D) → Option (List (Candle D)))
      (collected : List (Candle D)) (o : Option (D × ℕ))
      → ((next : D) (empty : ℕ)
          → o ≡ some (next, empty)
          → loop next empty collected ≡ loop' next empty collected)
      → go_on loop collected o ≡ go_on loop' collected o
  go_same loop loop' collected none h = refl
  go_same loop loop' collected (some (next, empty)) h = h next empty refl

  batches_same :
      (p : RangeParams D) (loop loop' : D → ℕ → List (Candle D) → Option (List (Candle D)))
      (cursor : D) (empty : ℕ) (collected : List (Candle D)) (found : Option (List (Candle D)))
      → ((batch : List (Candle D)) (next : D) (empty' : ℕ)
          → advance p cursor (window_end p cursor) empty batch ≡ some (next, empty')
          → loop next empty' (with_fresh batch collected)
            ≡ loop' next empty' (with_fresh batch collected))
      → after_batch p loop cursor empty collected found
        ≡ after_batch p loop' cursor empty collected found
  batches_same p loop loop' cursor empty collected none h = refl
  batches_same p loop loop' cursor empty collected (some batch) h =
      go_same loop loop' (with_fresh batch collected)
        (advance p cursor (window_end p cursor) empty batch) (h batch)

module _ {D : Type 0} ⦃d : Decimal D⦄ (x : IsExact D) where
  open x use {
    add_comm, add_zero, add_assoc, mul_one, mul_comm, le_trans, add_mono, of_ℕ_suc, of_ℕ_mono,
  }

  suc_steps :
      (n : ℕ) (cursor step : D) → cursor + of_ℕ (suc n) * step ≡ cursor + step + of_ℕ n * step
  suc_steps n cursor step =
      ap (λ (t : D). cursor + t)
        (ap (λ (t : D). t * step) (of_ℕ_suc n)
          ∙ add_mul x (of_ℕ n) (of_ℕ 1) step
          ∙ ap (λ (t : D). of_ℕ n * step + t) (mul_comm (of_ℕ 1) step ∙ mul_one step)
          ∙ add_comm (of_ℕ n * step) step)
      ∙ sym (add_assoc cursor step (of_ℕ n * step))

  -- One step less is left after a step forward.
  one_step :
      (n : ℕ) (cursor next step finish : D)
      → cursor + step ≤ next
      → finish ≤ cursor + of_ℕ (suc n) * step
      → finish ≤ next + of_ℕ n * step
  one_step n cursor next step finish h k =
      le_trans _ _ _ (rw (suc_steps n cursor step) at k)
        (add_mono (cursor + step) next (of_ℕ n * step) h)

  no_steps : (cursor step finish : D) → finish ≤ cursor + of_ℕ 0 * step → finish ≤ cursor
  no_steps cursor step finish h = rw (zero_mul x step, add_zero cursor) at h

  module _ (p : RangeParams D) (step_nonneg : of_ℕ 0 ≤ p.step) where
    window_end_far :
        (n : ℕ) (cursor : D)
        → p.finish ≤ cursor + of_ℕ (suc n) * p.step
        → p.finish ≤ window_end p cursor + of_ℕ n * p.step
    window_end_far n cursor h = elim (Bool-cases (ltb p.finish (cursor + p.step * of_ℕ 4000))) [
      | inl last ↦ rw last (
          rw (add_zero p.finish) at (
            add_mono_both x p.finish p.finish (of_ℕ 0) (of_ℕ n * p.step) (le_refl x _)
              (mul_nonneg x _ _ (of_ℕ_nonneg x n) step_nonneg)))
      | inr whole ↦ rw whole (
          one_step n cursor (cursor + p.step * of_ℕ 4000) p.step p.finish
            (add_mono_both x cursor cursor p.step (p.step * of_ℕ 4000) (le_refl x _) (
              rw (mul_one p.step) at (
                mul_mono_right x (of_ℕ 1) (of_ℕ 4000) p.step step_nonneg
                  (of_ℕ_mono 1 4000 (omega arith)))))
            h)
    ]

    advance_far :
        (n : ℕ) (cursor : D) (empty : ℕ) (batch : List (Candle D)) {next : D} {empty' : ℕ}
        → advance p cursor (window_end p cursor) empty batch ≡ some (next, empty')
        → p.finish ≤ cursor + of_ℕ (suc n) * p.step
        → p.finish ≤ next + of_ℕ n * p.step
    advance_far n cursor empty [] e h = elim (Bool-cases (leb_ℕ p.max_empty_windows (suc empty))) [
      | inl given_up ↦ let e' = rw (given_up) at e in cc
      | inr patient ↦
          rw (← ap (λ t. t.0) (some-injective _ _ (rw (patient) at e))) (window_end_far n cursor h)
    ]
    advance_far n cursor empty (c ∷ cs) e h = elim (Bool-cases (leb (newest_of c cs) cursor)) [
      | inl stale ↦ let e' = rw (stale) at e in cc
      | inr newer ↦ rw (← ap (λ t. t.0) (some-injective _ _ (rw (newer) at e))) (
          one_step n cursor (newest_of c cs + p.step) p.step p.finish
            (add_mono cursor (newest_of c cs) p.step (le_of_lt x _ _ newer)) h)
    ]

    done_at :
        (fetch : D → D → Option (List (Candle D))) (k : ℕ) (cursor : D) (empty : ℕ)
        (collected : List (Candle D))
        → p.finish ≤ cursor
        → fetch_loop fetch p k cursor empty collected ≡ some collected
    unfolding fetch_loop
    done_at fetch zero cursor empty collected h = refl
    done_at fetch (suc k) cursor empty collected h = rw h refl

    -- With enough windows the loop ends by itself, at the end of the range or where the history ends,
    -- and never because the windows ran out: when the range is covered by that many steps, more
    -- windows give the same candles, or the same exception, however the endpoint answers.
    pub fetch_loop_ends :
        (fetch : D → D → Option (List (Candle D))) (n k : ℕ) (cursor : D) (empty : ℕ)
        (collected : List (Candle D))
        → p.finish ≤ cursor + of_ℕ n * p.step
        → fetch_loop fetch p (n +ℕ k) cursor empty collected
          ≡ fetch_loop fetch p n cursor empty collected
    unfolding fetch_loop
    fetch_loop_ends fetch zero k cursor empty collected h =
        let h' = no_steps cursor p.step p.finish h in
        rw (from_zero k) (done_at fetch k cursor empty collected h')
    fetch_loop_ends fetch (suc n) k cursor empty collected h =
        rw (from_suc n k) (elim (Bool-cases (leb p.finish cursor)) [
          | inl ended ↦ rw ended refl
          | inr more ↦ rw more (
              batches_same p (fetch_loop fetch p (n +ℕ k)) (fetch_loop fetch p n) cursor empty
                collected (fetch cursor (window_end p cursor))
                (λ batch next empty' e.
                  fetch_loop_ends fetch n k next empty' (with_fresh batch collected)
                    (advance_far n cursor empty batch e h)))
        ])
