-- ===== src/Research/Figures.antt =====
-- services/research/study.py: the figures of a `StudyResult`, over its independent observations.
use crypto_research_platform.Prelude.{
  zero, suc, Bool, Option, List, [], ◌∷◌, map, length, if◌then◌else◌,
}
use crypto_research_platform.Decimal.{Decimal, ◌-◌, ◌*◌, ◌/◌, of_ℕ, ltb, sum}
use crypto_research_platform.Backtest.Calibration.{hits}
use crypto_research_platform.Research.Statistics.{
  Math, TestResult, binomial_test, one_sample_t_test,
}
use crypto_research_platform.Research.Study.{Observation, StudyResult}

module _ {D : Type 0} where
  abbrev pub independents : List (Observation D) → List (Observation D)
  independents [] = []
  independents (o ∷ os) = if o.independent then o ∷ independents os else independents os

module _ {D : Type 0} ⦃d : Decimal D⦄ where
  abbrev pub gross_win : Observation D → Bool
  gross_win o = ltb (of_ℕ 0) o.gross_return

  abbrev pub net_win : Observation D → Bool
  net_win o = ltb (of_ℕ 0) o.net_return

  abbrev pub share_in : (Observation D → Bool) → List (Observation D) → D
  share_in test [] = of_ℕ 0
  share_in test (o ∷ os) = of_ℕ (hits test (o ∷ os)) / of_ℕ (length (o ∷ os))

  unfoldable pub firing_rate : StudyResult D → D
  firing_rate r = elim r.bars_scanned [
    | zero ↦ of_ℕ 0
    | suc n ↦ of_ℕ (length r.observations) / of_ℕ (suc n)
  ]

  unfoldable pub study_gross_hit_rate : StudyResult D → D
  study_gross_hit_rate r = share_in gross_win (independents r.observations)

  unfoldable pub study_net_hit_rate : StudyResult D → D
  study_net_hit_rate r = share_in net_win (independents r.observations)

  abbrev pub missed_by : Observation D → D
  missed_by o = o.probability - (if gross_win o then of_ℕ 1 else of_ℕ 0)

  abbrev pub brier_of : List (Observation D) → D
  brier_of [] = of_ℕ 0
  brier_of (o ∷ os) = sum (map (λ q. missed_by q * missed_by q) (o ∷ os)) / of_ℕ (length (o ∷ os))

  unfoldable pub brier : StudyResult D → D
  brier r = brier_of (independents r.observations)

  abbrev pub skill_of : List (Observation D) → D
  skill_of [] = of_ℕ 0
  skill_of (o ∷ os) = of_ℕ 1 - brier_of (o ∷ os) / (of_ℕ 1 / of_ℕ 4)

  unfoldable pub brier_skill_score : StudyResult D → D
  brier_skill_score r = skill_of (independents r.observations)

  abbrev pub gross_returns : StudyResult D → List D
  gross_returns r = map (λ o. o.gross_return) (independents r.observations)

  abbrev pub net_returns : StudyResult D → List D
  net_returns r = map (λ o. o.net_return) (independents r.observations)

  abbrev pub mean_bps : List D → D
  mean_bps [] = of_ℕ 0
  mean_bps (v ∷ vs) = sum (v ∷ vs) / of_ℕ (length (v ∷ vs)) * of_ℕ 10000

  unfoldable pub mean_gross_bps : StudyResult D → D
  mean_gross_bps r = mean_bps (gross_returns r)

  unfoldable pub mean_net_bps : StudyResult D → D
  mean_net_bps r = mean_bps (net_returns r)

  unfoldable pub total_gross_pct : StudyResult D → D
  total_gross_pct r = sum (gross_returns r) * of_ℕ 100

  unfoldable pub total_net_pct : StudyResult D → D
  total_net_pct r = sum (net_returns r) * of_ℕ 100

  unfoldable pub hit_rate_test : Math D → StudyResult D → Option (TestResult D)
  hit_rate_test m r =
      let sample = independents r.observations in
      binomial_test m (hits gross_win sample) (length sample) (of_ℕ 1 / of_ℕ 2)

  unfoldable pub net_return_test : Math D → StudyResult D → Option (TestResult D)
  net_return_test m r = one_sample_t_test m (net_returns r) (of_ℕ 0)

  unfoldable pub gross_return_test : Math D → StudyResult D → Option (TestResult D)
  gross_return_test m r = one_sample_t_test m (gross_returns r) (of_ℕ 0)
