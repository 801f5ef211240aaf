-- ===== src/Analyst/Bands.antt =====
-- services/agents/market_analyst/indicators.py: `bollinger`. `pstdev` of the statistics module is a
-- parameter.
use Prim.Native.Nat.{◌-◌ as sub_ℕ, min as min_ℕ}
use crypto_research_platform.Prelude.{
  ℕ, Option, none, some, List, [], ◌∷◌, ◌++◌, map, length, take, drop, replicate, eqb as eqb_ℕ,
  if◌then◌else◌,
}
use crypto_research_platform.Decimal.{Decimal, ◌+◌, ◌-◌, ◌*◌, ◌/◌, of_ℕ, leb, ltb, eqb}
use crypto_research_platform.Analyst.Indicators.{Series, sma_series}

pub record BollingerResult (D : Type 0) : Type 0 where
  pub upper : Series D
  pub middle : Series D
  pub lower : Series D
  pub percent_b : Series D
  pub bandwidth : Series D

-- The readings of one bar.
pub record Band (D : Type 0) : Type 0 where
  pub top : D
  pub bottom : D
  pub percent_b : D
  pub bandwidth : D

module _ {D : Type 0} ⦃d : Decimal D⦄ where
  unfoldable pub band : D → D → D → D → Band D
  band num_std value centre deviation =
      let top = centre + num_std * deviation in
      let bottom = centre - num_std * deviation in
      let span = top - bottom in
      record {
        top = top;
        bottom = bottom;
        percent_b = if ltb (of_ℕ 0) span then (value - bottom) / span else of_ℕ 1 / of_ℕ 2;
        bandwidth = if eqb centre (of_ℕ 0) then of_ℕ 0 else span / centre;
      }

  abbrev pub band_at : (List D → D) → D → D → List D → Option D → Option (Band D)
  band_at pstdev num_std value window none = none
  band_at pstdev num_std value window (some centre) =
      some (band num_std value centre (pstdev window))

  -- Bar after bar from the first whole window: the middle band, the value, and the values from the
  -- first of its window on.
  unfoldable pub bands_from :
      (List D → D) → ℕ → D → Series D → List D → List D → List (Option (Band D))
  bands_from pstdev period num_std [] vs windows = []
  bands_from pstdev period num_std (c ∷ cs) [] windows = []
  bands_from pstdev period num_std (c ∷ cs) (v ∷ vs) windows =
      band_at pstdev num_std v (take period windows) c
      ∷ bands_from pstdev period num_std cs vs (drop 1 windows)

  abbrev pub reading : {A : Type 0} → (Band D → A) → Option (Band D) → Option A
  reading f none = none
  reading f (some b) = some (f b)

  unfoldable pub bollinger_series : (List D → D) → List D → ℕ → D → BollingerResult D
  unfolding bands_from
  bollinger_series pstdev values period num_std =
      let warm = sub_ℕ period 1 in
      let middle = sma_series values period in
      let bs = bands_from pstdev period num_std (drop warm middle) (drop warm values) values in
      let before = replicate (min_ℕ warm (length values)) none in
      record {
        upper = before ++ map (reading λ b. b.top) bs;
        middle = middle;
        lower = before ++ map (reading λ b. b.bottom) bs;
        percent_b = before ++ map (reading λ b. b.percent_b) bs;
        bandwidth = before ++ map (reading λ b. b.bandwidth) bs;
      }

  -- `none` is `IndicatorError`.
  unfoldable pub bollinger : (List D → D) → List D → ℕ → D → Option (BollingerResult D)
  bollinger pstdev values period num_std =
      if eqb_ℕ period 0
      then none
      else if leb num_std (of_ℕ 0)
      then none
      else some (bollinger_series pstdev values period num_std)
