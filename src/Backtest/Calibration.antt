-- ===== src/Backtest/Calibration.antt =====
-- services/backtest/calibration.py. `floor` is `int` of a float that is not negative.
use Prim.Native.Nat.{◌-◌ as sub_ℕ, min as min_ℕ}
use crypto_research_platform.Prelude.{
  ℕ, zero, suc, ◌+ℕ◌, Bool, not, Option, none, some, List, [], ◌∷◌, ◌++◌, map, length, replicate,
  eqb as eqb_ℕ, ltb as ltb_ℕ, if◌then◌else◌,
}
use crypto_research_platform.Decimal.{Decimal, ◌+◌, ◌-◌, ◌*◌, ◌/◌, of_ℕ, abs, round, sum}
use crypto_research_platform.Engine.Trust.{brier_score}

pub record CalibrationBin (D : Type 0) : Type 0 where
  pub lower : D
  pub upper : D
  pub count : ℕ
  pub mean_confidence : D
  pub hit_rate : D

pub record CalibrationReport (D : Type 0) : Type 0 where
  pub bins : List (CalibrationBin D)
  pub sample_count : ℕ
  pub brier : D
  pub ece : D
  pub mean_confidence : D
  pub hit_rate : D

-- `buckets[index].append(a)`
abbrev pub append_at : {A : Type 0} → ℕ → A → List (List A) → List (List A)
append_at index a [] = []
append_at zero a (b ∷ bs) = (b ++ (a ∷ [])) ∷ bs
append_at (suc n) a (b ∷ bs) = b ∷ append_at n a bs

abbrev pub hits : {A : Type 0} → (A → Bool) → List A → ℕ
hits test [] = 0
hits test (a ∷ xs) = if test a then suc (hits test xs) else hits test xs

abbrev pub sizes : {A : Type 0} → List (List A) → ℕ
sizes [] = 0
sizes (b ∷ bs) = length b +ℕ sizes bs

module _ {D : Type 0} ⦃d : Decimal D⦄ where
  unfoldable pub gap : CalibrationBin D → D
  gap b = b.hit_rate - b.mean_confidence

  unfoldable pub overconfidence : CalibrationReport D → D
  overconfidence r = r.mean_confidence - r.hit_rate

  abbrev pub zipped : List D → List Bool → List (D × Bool)
  zipped (c ∷ cs) (o ∷ os) = (c, o) ∷ zipped cs os
  zipped _ _ = []

  abbrev pub bucketed :
      (D → ℕ) → D → ℕ → List (D × Bool) → List (List (D × Bool)) → List (List (D × Bool))
  bucketed floor width bin_count [] buckets = buckets
  bucketed floor width bin_count ((c, o) ∷ xs) buckets =
      bucketed floor width bin_count xs
        (append_at (min_ℕ (floor (c / width)) (sub_ℕ bin_count 1)) (c, o) buckets)

  abbrev pub mean_of : List (D × Bool) → D
  mean_of bucket = sum (map (λ x. x.0) bucket) / of_ℕ (length bucket)

  abbrev pub hit_share : List (D × Bool) → D
  hit_share bucket = of_ℕ (hits (λ x. x.1) bucket) / of_ℕ (length bucket)

  abbrev pub bin_of : D → ℕ → List (D × Bool) → CalibrationBin D
  bin_of width index bucket = record {
    lower = of_ℕ index * width;
    upper = of_ℕ (index +ℕ 1) * width;
    count = length bucket;
    mean_confidence = round 4 (mean_of bucket);
    hit_rate = round 4 (hit_share bucket);
  }

  -- The bins of the buckets that are not empty.
  abbrev pub bins_from : D → ℕ → List (List (D × Bool)) → List (CalibrationBin D)
  bins_from width index [] = []
  bins_from width index ([] ∷ bs) = bins_from width (suc index) bs
  bins_from width index ((x ∷ xs) ∷ bs) =
      bin_of width index (x ∷ xs) ∷ bins_from width (suc index) bs

  abbrev pub calibration_error : ℕ → List (List (D × Bool)) → D
  calibration_error total [] = of_ℕ 0
  calibration_error total ([] ∷ bs) = calibration_error total bs
  calibration_error total ((x ∷ xs) ∷ bs) =
      of_ℕ (length (x ∷ xs)) / of_ℕ total * abs (hit_share (x ∷ xs) - mean_of (x ∷ xs))
      + calibration_error total bs

  -- The sum of the Brier scores; `none` is the exception of `brier_score`.
  abbrev pub score_plus : Option D → Option D → Option D
  score_plus (some a) (some b) = some (a + b)
  score_plus _ _ = none

  abbrev pub brier_total : List (D × Bool) → Option D
  brier_total [] = some (of_ℕ 0)
  brier_total ((c, o) ∷ xs) = score_plus (brier_score c o) (brier_total xs)

  abbrev pub empty_report : CalibrationReport D
  empty_report = record {
    bins = [];
    sample_count = 0;
    brier = of_ℕ 0;
    ece = of_ℕ 0;
    mean_confidence = of_ℕ 0;
    hit_rate = of_ℕ 0;
  }

  abbrev pub report_of :
      D → List (D × Bool) → List (List (D × Bool)) → Option D → Option (CalibrationReport D)
  report_of width samples buckets none = none
  report_of width samples buckets (some brier) = some (record {
    bins = bins_from width 0 buckets;
    sample_count = length samples;
    brier = round 6 (brier / of_ℕ (length samples));
    ece = round 6 (calibration_error (length samples) buckets);
    mean_confidence = round 4 (mean_of samples);
    hit_rate = round 4 (hit_share samples);
  })

  -- `analyze_calibration`: `none` is its `ValueError`, or that of `brier_score`.
  unfoldable pub analyze_calibration :
      (D → ℕ) → List D → List Bool → ℕ → Option (CalibrationReport D)
  analyze_calibration floor confidences outcomes bin_count =
      let samples = zipped confidences outcomes in
      let width = of_ℕ 1 / of_ℕ bin_count in
      if not (eqb_ℕ (length confidences) (length outcomes))
      then none
      else if ltb_ℕ bin_count 1
      then none
      else if eqb_ℕ (length confidences) 0
      then some empty_report
      else report_of width samples (bucketed floor width bin_count samples (replicate bin_count []))
          (brier_total samples)

  abbrev pub counts : List (CalibrationBin D) → ℕ
  counts [] = 0
  counts (b ∷ bs) = b.count +ℕ counts bs
