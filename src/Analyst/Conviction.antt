-- ===== src/Analyst/Conviction.antt =====
-- The confidence of a signal is a probability.
use crypto_research_platform.Prelude.{
  from_zero, from_suc, ℕ, zero, suc, ◌+ℕ◌, String, ◌≡◌, refl, sym, ap, ◌∙◌, inl, inr, Option, none,
  some, List, [], ◌∷◌, arith, Bool-cases,
}
use mathlib.Core.Option.{some-injective}
use crypto_research_platform.Decimal.{
  Decimal, IsExact, ◌+◌, ◌*◌, ◌/◌, ◌≤◌, ◌<◌, of_ℕ, leb, ltb, min, abs, round, le_refl, le_of_lt,
  le-max_left, min-le_left, max-le, le-min, zero_add, add_right_comm, add_mul, add_nonneg,
  mul_nonneg, mul_mono_right, sub_nonneg, add_mono_both, of_ℕ_nonneg, of_ℕ_pos, div_nonneg,
  IsWithin,
}
use crypto_research_platform.Schemas.{
  Direction, same_direction, TimeframeAnalysis, AgentSignal, from_score,
}
use crypto_research_platform.Runtime.Context.{AgentContext}
use crypto_research_platform.Analyst.Levels.{filter_by}
use crypto_research_platform.Analyst.Scores.{AnalystParams, percent}
use crypto_research_platform.Analyst.Timeframe.{◌>>=◌}
use crypto_research_platform.Analyst.Confluence.{
  agreement, total_weight, confluence_of, confluence, confidence, is_scored,
}
use crypto_research_platform.Analyst.Agent.{
  heaviest_from, analyses_of, confidence_of, emitted, signal_of, with_anchor, analyze,
}

-- What follows a computation that succeeds.
pub after_bind :
    {A B : Type 0} (C : Type 0) (o : Option A) (f : A → Option B) {b : B}
    → (o >>= f) ≡ some b
    → ((a : A) → o ≡ some a → f a ≡ some b → C)
    → C
after_bind C none f h k = cc
after_bind C (some a) f h k = k a refl h

module _ {D : Type 0} ⦃d : Decimal D⦄ where
  abbrev pub IsUnit : D → Type 0
  IsUnit a = IsWithin (of_ℕ 0) (of_ℕ 1) a

module _ {D : Type 0} where
  -- A property of the signal, when there is one.
  abbrev pub OfSignal : (AgentSignal D → Type 0) → Option (Option (AgentSignal D)) → Type 0
  OfSignal P none = Unit
  OfSignal P (some none) = Unit
  OfSignal P (some (some s)) = P s

  of_signal :
      (P : AgentSignal D → Type 0) (o : Option (Option (AgentSignal D)))
      → ((s : AgentSignal D) → o ≡ some (some s) → P s)
      → OfSignal P o
  of_signal P none h = tt
  of_signal P (some none) h = tt
  of_signal P (some (some s)) h = h s refl

module _ {D : Type 0} ⦃d : Decimal D⦄ (x : IsExact D) where
  open x use {
    add_comm, add_zero, add_assoc, mul_one, mul_comm, le_trans, of_ℕ_suc, of_ℕ_mono, le-div, div-le,
    div-mul-le, round_mono, round-of_ℕ,
  }

  of_ℕ_add : (m n : ℕ) → of_ℕ {D = D} (m +ℕ n) ≡ of_ℕ m + of_ℕ n
  of_ℕ_add zero n = ap (λ (k : ℕ). of_ℕ {D = D} k) (from_zero n) ∙ sym (zero_add x (of_ℕ n))
  of_ℕ_add (suc m) n =
      ap (λ (k : ℕ). of_ℕ {D = D} k) (from_suc m n)
      ∙ of_ℕ_suc (m +ℕ n)
      ∙ ap (λ (t : D). t + of_ℕ 1) (of_ℕ_add m n)
      ∙ add_right_comm x _ _ _
      ∙ ap (λ (t : D). t + of_ℕ n) (sym (of_ℕ_suc m))

  -- Sixty and forty hundredths are no more than one.
  hundredths : percent 60 + percent 40 ≤ of_ℕ {D = D} 1
  hundredths =
      le_trans _ _ _
        (le-div _ _ _ (of_ℕ_pos x 100 (omega arith)) (
          rw (← add_mul x (percent {D = D} 60) (percent 40) (of_ℕ 100)) at (
            rw (← of_ℕ_add 60 40) at (
              add_mono_both x _ _ _ _
                (div-mul-le (of_ℕ 60) (of_ℕ 100) (of_ℕ_pos x 100 (omega arith)))
                (div-mul-le (of_ℕ 40) (of_ℕ 100) (of_ℕ_pos x 100 (omega arith)))))))
        (div-le _ _ _ (of_ℕ_pos x 100 (omega arith))
          (rw (mul_comm (of_ℕ 1) (of_ℕ {D = D} 100), mul_one (of_ℕ {D = D} 100)) (le_refl x _)))

  abs_nonneg : (a : D) → of_ℕ 0 ≤ abs a
  abs_nonneg a = elim (Bool-cases (ltb a (of_ℕ 0))) [
    | inl neg ↦ rw neg (sub_nonneg x (of_ℕ 0) a (le_of_lt x _ _ (ground arith)))
    | inr pos ↦ rw pos (ground arith)
  ]

  conviction-IsUnit : (a full : D) → of_ℕ 0 < full → IsUnit (min (of_ℕ 1) (abs a / full))
  conviction-IsUnit a full h = (
    le-min {D = D} _ _ _ (of_ℕ_nonneg x 1) (div_nonneg x _ _ h (abs_nonneg a)),
    min-le_left x _ _,
  )

  mul-IsUnit : (a b : D) → IsUnit a → IsUnit b → IsUnit (a * b)
  mul-IsUnit a b ha hb = (
    mul_nonneg x _ _ ha.0 hb.0,
    le_trans _ _ _ (mul_mono_right x b (of_ℕ 1) a ha.0 hb.1) (rw (mul_one a) ha.1),
  )

  round-IsUnit : (n : ℕ) (a : D) → IsUnit a → IsUnit (round n a)
  round-IsUnit n a h =
      (rw (round-of_ℕ n 0) at (round_mono n _ _ h.0), rw (round-of_ℕ n 1) at (round_mono n _ _ h.1))

  percent_nonneg : (n : ℕ) → of_ℕ 0 ≤ percent {D = D} n
  percent_nonneg n = div_nonneg x _ _ (of_ℕ_pos x 100 (omega arith)) (of_ℕ_nonneg x n)

  blend-IsUnit : (a : D) → IsUnit a → IsUnit (percent 60 + percent 40 * a)
  blend-IsUnit a h = (
    add_nonneg x _ _ (percent_nonneg 60) (mul_nonneg x _ _ (percent_nonneg 40) h.0),
    le_trans _ _ _
        (add_mono_both x _ _ _ _ (le_refl x _) (
          rw (mul_one (percent {D = D} 40)) at
            (mul_mono_right x a (of_ℕ 1) (percent 40) (percent_nonneg 40) h.1)))
        hundredths,
  )

  confidence-IsUnit :
      (p : AnalystParams D) (score agreement : D)
      → of_ℕ 0 < p.full_conviction_score
      → IsUnit agreement
      → IsUnit (confidence p score agreement)
  unfolding confidence
  confidence-IsUnit p score agreement full h = round-IsUnit 4 _ (
      mul-IsUnit _ _ (conviction-IsUnit score p.full_conviction_score full)
        (blend-IsUnit agreement h))

  confluence_of-IsUnit :
      (p : AnalystParams D) (scored : List (TimeframeAnalysis D))
      → IsUnit ((confluence_of p scored).1)
  unfolding confluence_of
  confluence_of-IsUnit p scored = elim (Bool-cases (leb (total_weight p scored) (of_ℕ 0))) [
    | inl none_left ↦ rw none_left (le_refl x _, of_ℕ_nonneg x 1)
    | inr some_left ↦
        rw some_left (le-max_left x _ _, max-le {D = D} _ _ _ (of_ℕ_nonneg x 1) (min-le_left x _ _))
  ]

  confidence_of-IsUnit :
      (p : AnalystParams D) (score agreement : D)
      → of_ℕ 0 < p.full_conviction_score
      → of_ℕ 0 ≤ p.min_abs_score
      → IsUnit agreement
      → IsUnit (confidence_of p score agreement)
  confidence_of-IsUnit p score agreement full least h =
      let raw = confidence-IsUnit p score agreement full h in
      elim (Bool-cases (same_direction (from_score score p.min_abs_score) Direction.flat)) [
        | inl flat ↦
            rw flat (le-min {D = D} _ _ _ raw.0 least, le_trans _ _ _ (min-le_left x _ _) raw.1)
        | inr sided ↦ rw sided raw
      ]

  with_anchor-IsUnit :
      (p : AnalystParams D) (name version : String) (fresh_id : ℕ) (now : D) (c : AgentContext D)
      (analyses scored : List (TimeframeAnalysis D)) {s : AgentSignal D}
      → of_ℕ 0 < p.full_conviction_score
      → of_ℕ 0 ≤ p.min_abs_score
      → with_anchor p name version fresh_id now c analyses scored ≡ some (some s)
      → IsUnit s.confidence
  unfolding signal_of confluence
  with_anchor-IsUnit p name version fresh_id now c analyses [] {s} full least h = cc
  with_anchor-IsUnit p name version fresh_id now c analyses (a ∷ xs) {s} full least h =
      let view = confluence p analyses in
      after_bind _ (signal_of p name version fresh_id now c view (heaviest_from p a xs)) _ h
        (λ s' e f.
          after_bind _ _
            (λ levels.
              some (emitted p name version fresh_id now c view (heaviest_from p a xs) levels))
            e
            (λ levels e' f'. rw (← some-injective _ _ (some-injective _ _ f)) (
              simp (← some-injective _ _ f') (
                confidence_of-IsUnit p view.0 view.1 full least
                  (confluence_of-IsUnit p (filter_by (is_scored p) analyses))))))

  after_analyses :
      (pstdev : List D → D) (p : AnalystParams D) (name version : String) (fresh_id : ℕ) (now : D)
      (c : AgentContext D) (s : AgentSignal D)
      → of_ℕ 0 < p.full_conviction_score
      → of_ℕ 0 ≤ p.min_abs_score
      → analyze pstdev p name version fresh_id now c ≡ some (some s)
      → IsUnit s.confidence
  unfolding analyze
  after_analyses pstdev p name version fresh_id now c s full least h =
      after_bind _ (analyses_of pstdev p c.candles) _ h (λ analyses e f.
        with_anchor-IsUnit p name version fresh_id now c analyses (filter_by (is_scored p) analyses)
          full least f)

  -- Whatever the indicators say, the confidence of a signal that the analyst publishes lies between
  -- 0 and 1, when the score of full conviction is positive and the least score is not negative.
  pub analyze-IsUnit :
      (pstdev : List D → D) (p : AnalystParams D) (name version : String) (fresh_id : ℕ) (now : D)
      (c : AgentContext D)
      → of_ℕ 0 < p.full_conviction_score
      → of_ℕ 0 ≤ p.min_abs_score
      → OfSignal (λ s. IsUnit s.confidence) (analyze pstdev p name version fresh_id now c)
  analyze-IsUnit pstdev p name version fresh_id now c full least =
      of_signal (λ (s : AgentSignal D). IsUnit s.confidence)
        (analyze pstdev p name version fresh_id now c)
        (λ s e. after_analyses pstdev p name version fresh_id now c s full least e)
