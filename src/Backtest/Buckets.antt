-- ===== src/Backtest/Buckets.antt =====
-- The calibration report counts every sample in one bin.
use Prim.Native.Nat.{◌-◌ as sub_ℕ, min as min_ℕ}
use crypto_research_platform.Prelude.{
  ℕ, zero, suc, ◌+ℕ◌, ◌<ℕ◌, ◌≡◌, refl, ◌∙◌, inl, inr, Bool, Option, none, some, List, [], ◌∷◌,
  length, replicate, length-append, length-replicate, eqb as eqb_ℕ, ltb as ltb_ℕ, arith, Bool-cases,
}
use mathlib.Core.Option.{some-injective}
use crypto_research_platform.Decimal.{Decimal, ◌/◌, of_ℕ}
use crypto_research_platform.Backtest.Calibration.{
  CalibrationReport, append_at, zipped, bucketed, bins_from, counts, sizes, brier_total, report_of,
  analyze_calibration,
}

sizes-append_at :
    {A : Type 0} (index : ℕ) (a : A) (bs : List (List A))
    → index <ℕ length bs
    → sizes (append_at index a bs) ≡ suc (sizes bs)
sizes-append_at index a [] h = absurd (omega arith)
sizes-append_at zero a (b ∷ bs) h = omega (arith, length-append b (a ∷ []))
sizes-append_at (suc n) a (b ∷ bs) h = omega (arith, sizes-append_at n a bs)

length-append_at :
    {A : Type 0} (index : ℕ) (a : A) (bs : List (List A))
    → length (append_at index a bs) ≡ length bs
length-append_at index a [] = refl
length-append_at zero a (b ∷ bs) = refl
length-append_at (suc n) a (b ∷ bs) = omega (arith, length-append_at n a bs)

sizes-replicate : (A : Type 0) (n : ℕ) → sizes {A = A} (replicate n []) ≡ 0
sizes-replicate A zero = refl
sizes-replicate A (suc n) = omega (arith, sizes-replicate A n)

module _ {D : Type 0} ⦃d : Decimal D⦄ where
  sizes-bucketed :
      (floor : D → ℕ) (width : D) (n : ℕ) (xs : List (D × Bool)) (buckets : List (List (D × Bool)))
      → 0 <ℕ n
      → length buckets ≡ n
      → sizes (bucketed floor width n xs buckets) ≡ length xs +ℕ sizes buckets
  sizes-bucketed floor width n [] buckets h k = omega arith
  sizes-bucketed floor width n ((c, o) ∷ xs) buckets h k =
      let index = min_ℕ (floor (c / width)) (sub_ℕ n 1) in
      omega (
        arith,
        sizes-bucketed floor width n xs (append_at index (c, o) buckets),
        sizes-append_at index (c, o) buckets,
        length-append_at index (c, o) buckets,
      )

  counts-bins_from :
      (width : D) (index : ℕ) (buckets : List (List (D × Bool)))
      → counts (bins_from width index buckets) ≡ sizes buckets
  counts-bins_from width index [] = refl
  counts-bins_from width index ([] ∷ bs) = omega (arith, counts-bins_from width (suc index) bs)
  counts-bins_from width index ((x ∷ xs) ∷ bs) =
      omega (arith, counts-bins_from width (suc index) bs)

  length-zipped :
      (cs : List D) (os : List Bool) → length cs ≡ length os → length (zipped cs os) ≡ length cs
  length-zipped [] os h = refl
  length-zipped (c ∷ cs) [] h = absurd (omega arith)
  length-zipped (c ∷ cs) (o ∷ os) h = omega (arith, length-zipped cs os)

  report_of-counts :
      (width : D) (samples : List (D × Bool)) (buckets : List (List (D × Bool))) (brier : Option D)
      {r : CalibrationReport D}
      → sizes buckets ≡ length samples
      → report_of width samples buckets brier ≡ some r
      → (counts r.bins ≡ length samples) × (r.sample_count ≡ length samples)
  report_of-counts width samples buckets none s h = cc
  report_of-counts width samples buckets (some b) s h =
      rw (← some-injective _ _ h) (counts-bins_from width 0 buckets ∙ s, refl)

  -- A calibration report accounts for every forecast in exactly one bin: the counts of its bins add
  -- up to the number of samples, which is the number of forecasts, for every number of bins.
  pub analyze_calibration-counts :
      (floor : D → ℕ) (cs : List D) (os : List Bool) (n : ℕ) {r : CalibrationReport D}
      → analyze_calibration floor cs os n ≡ some r
      → (counts r.bins ≡ length cs) × (r.sample_count ≡ length cs)
  unfolding analyze_calibration
  analyze_calibration-counts floor cs os n h = elim (Bool-cases (eqb_ℕ (length cs) (length os))) [
    | inr uneven ↦ let e = rw (uneven) at h in cc
    | inl even ↦ elim (Bool-cases (ltb_ℕ n 1)) [
      | inl no_bins ↦ let e = rw (even, no_bins) at h in cc
      | inr some_bins ↦ elim (Bool-cases (eqb_ℕ (length cs) 0)) [
        | inl nothing ↦
            rw (← some-injective _ _ (rw (even, some_bins, nothing) at h))
              (ground arith, ground arith)
        | inr something ↦
            let samples = zipped cs os in
            let width = of_ℕ 1 / of_ℕ n in
            let e : length cs ≡ length os = ground arith in
            let l = length-zipped cs os e in
            let out =
              report_of-counts width samples (bucketed floor width n samples (replicate n []))
                (brier_total samples)
                (omega (
                  arith,
                  sizes-bucketed floor width n samples (replicate n []) (ground arith)
                      (length-replicate n []),
                  sizes-replicate (D × Bool) n,
                ))
                (rw (even, some_bins, something) at h) in
            (out.0 ∙ l, out.1 ∙ l)
      ]
    ]
  ]
