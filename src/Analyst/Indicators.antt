-- ===== src/Analyst/Indicators.antt =====
-- services/agents/market_analyst/indicators.py. A series is aligned to its input, with `none` during the
-- warm-up; the outer `Option` is `IndicatorError`. The windows that the source indexes are lists here:
-- `drop period values` runs beside `values`, one bar leaving for each that enters. `pstdev` of the
-- statistics module is a parameter.
use Prim.Native.Nat.{◌-◌ as sub_ℕ}
use crypto_research_platform.Prelude.{
  ℕ, suc, Bool, false, ◌&&◌, Option, none, some, List, [], ◌∷◌, ◌++◌, map, length, take, drop,
  replicate, zip_with, ltb as ltb_ℕ, leb as leb_ℕ, eqb as eqb_ℕ, if◌then◌else◌,
}
use crypto_research_platform.Decimal.{
  Decimal, ◌+◌, ◌-◌, ◌*◌, ◌/◌, of_ℕ, leb, ltb, eqb, min, max, abs, sum, fmean,
}

abbrev pub Series : Type 0 → Type 0
Series D = List (Option D)

-- `_validate`
abbrev pub validated : {A : Type 0} → ℕ → A → Option A
validated period a = if eqb_ℕ period 0 then none else some a

-- `values[-n:]`, which for zero is all of them
abbrev pub last_of : {A : Type 0} → ℕ → List A → List A
last_of n xs = if eqb_ℕ n 0 then xs else drop (sub_ℕ (length xs) n) xs

pub record MacdResult (D : Type 0) : Type 0 where
  pub macd : Series D
  pub signal : Series D
  pub histogram : Series D

module _ {D : Type 0} ⦃d : Decimal D⦄ where
  unfoldable pub sma_roll : ℕ → D → List D → List D → List D
  sma_roll period window_sum [] leaving = []
  sma_roll period window_sum (v ∷ vs) [] = []
  sma_roll period window_sum (v ∷ vs) (u ∷ us) =
      let s = window_sum + (v - u) in s / of_ℕ period ∷ sma_roll period s vs us

  unfoldable pub sma_series : List D → ℕ → Series D
  sma_series values period =
      let s = sum (take period values) in
      if ltb_ℕ (length values) period
      then replicate (length values) none
      else replicate (sub_ℕ period 1) none
        ++ map some (s / of_ℕ period ∷ sma_roll period s (drop period values) values)

  unfoldable pub sma : List D → ℕ → Option (Series D)
  sma values period = validated period (sma_series values period)

  unfoldable pub ema_run : D → D → List D → List D
  ema_run multiplier current [] = []
  ema_run multiplier current (v ∷ vs) =
      let next = (v - current) * multiplier + current in next ∷ ema_run multiplier next vs

  unfoldable pub ema_series : List D → ℕ → Series D
  ema_series values period =
      let current = fmean (take period values) in
      if ltb_ℕ (length values) period
      then replicate (length values) none
      else replicate (sub_ℕ period 1) none
        ++ map some
            (current ∷ ema_run (of_ℕ 2 / (of_ℕ period + of_ℕ 1)) current (drop period values))

  unfoldable pub ema : List D → ℕ → Option (Series D)
  ema values period = validated period (ema_series values period)

  abbrev pub changes_from : D → List D → List D
  changes_from a [] = []
  changes_from a (b ∷ vs) = (b - a) ∷ changes_from b vs

  -- `values[i] - values[i - 1]`, bar by bar
  abbrev pub changes : List D → List D
  changes [] = []
  changes (a ∷ vs) = changes_from a vs

  abbrev pub gain : D → D
  gain change = max change (of_ℕ 0)

  abbrev pub loss : D → D
  loss change = max (of_ℕ 0 - change) (of_ℕ 0)

  -- `_rsi_from_averages`
  unfoldable pub rsi_from_averages : D → D → D
  rsi_from_averages avg_gain avg_loss =
      if eqb avg_loss (of_ℕ 0)
      then (if ltb (of_ℕ 0) avg_gain then of_ℕ 100 else of_ℕ 50)
      else of_ℕ 100 - of_ℕ 100 / (of_ℕ 1 + avg_gain / avg_loss)

  -- Wilder's smoothing
  abbrev pub smoothed : ℕ → D → D → D
  smoothed period average value = (average * of_ℕ (sub_ℕ period 1) + value) / of_ℕ period

  unfoldable pub rsi_run : ℕ → D → D → List D → List D
  rsi_run period g l [] = []
  rsi_run period g l (c ∷ cs) =
      let g' = smoothed period g (gain c) in
      let l' = smoothed period l (loss c) in rsi_from_averages g' l' ∷ rsi_run period g' l' cs

  unfoldable pub rsi_series : List D → ℕ → Series D
  rsi_series values period =
      let first = take period (changes values) in
      let g = sum (map gain first) / of_ℕ period in
      let l = sum (map loss first) / of_ℕ period in
      if leb_ℕ (length values) period
      then replicate (length values) none
      else replicate period none
        ++ map some (rsi_from_averages g l ∷ rsi_run period g l (drop period (changes values)))

  unfoldable pub rsi : List D → ℕ → Option (Series D)
  rsi values period = validated period (rsi_series values period)

  abbrev pub minus : Option D → Option D → Option D
  minus (some a) (some b) = some (a - b)
  minus _ _ = none

  -- The values of a series that are defined.
  unfoldable pub defined : Series D → List D
  defined [] = []
  defined (none ∷ s) = defined s
  defined (some v ∷ s) = v ∷ defined s

  -- Values put back at the bars where a line is defined.
  unfoldable pub scatter : Series D → Series D → Series D
  scatter [] vs = []
  scatter (none ∷ line) vs = none ∷ scatter line vs
  scatter (some a ∷ line) [] = none ∷ scatter line []
  scatter (some a ∷ line) (v ∷ vs) = v ∷ scatter line vs

  abbrev pub macd_result : Series D → Series D → MacdResult D
  macd_result line signal = record {
    macd = line;
    signal = signal;
    histogram = zip_with minus line signal;
  }

  abbrev pub with_signal : Series D → Option (Series D) → Option (MacdResult D)
  with_signal line none = none
  with_signal line (some values) = some (macd_result line (scatter line values))

  unfoldable pub macd_from : ℕ → Series D → Option (MacdResult D)
  macd_from signal_period line =
      if leb_ℕ signal_period (length (defined line))
      then with_signal line (ema (defined line) signal_period)
      else some (macd_result line (replicate (length line) none))

  abbrev pub macd_of : ℕ → Option (Series D) → Option (Series D) → Option (MacdResult D)
  macd_of signal_period (some fast) (some slow) = macd_from signal_period (zip_with minus fast slow)
  macd_of signal_period _ _ = none

  unfoldable pub macd : List D → ℕ → ℕ → ℕ → Option (MacdResult D)
  unfolding macd_from
  macd values fast slow signal_period =
      if leb_ℕ slow fast then none else macd_of signal_period (ema values fast) (ema values slow)

  -- The series of highs, lows and closes must be of one length.
  abbrev pub greatest : D → D → D → D
  greatest a b c = max (max a b) c

  unfoldable pub ranges_from : D → List D → List D → List D → List D
  ranges_from previous (h ∷ hs) (l ∷ ls) (c ∷ cs) =
      greatest (h - l) (abs (h - previous)) (abs (l - previous)) ∷ ranges_from c hs ls cs
  ranges_from previous _ _ _ = []

  unfoldable pub ranges : List D → List D → List D → List D
  unfolding ranges_from
  ranges (h ∷ hs) (l ∷ ls) (c ∷ cs) = (h - l) ∷ ranges_from c hs ls cs
  ranges _ _ _ = []

  unfoldable pub true_range : List D → List D → List D → Option (List D)
  unfolding ranges
  true_range hs ls cs =
      if eqb_ℕ (length hs) (length ls) && eqb_ℕ (length ls) (length cs)
      then some (ranges hs ls cs)
      else none

  unfoldable pub atr_run : ℕ → D → List D → List D
  atr_run period current [] = []
  atr_run period current (r ∷ rs) =
      let next = smoothed period current r in next ∷ atr_run period next rs

  unfoldable pub atr_series : ℕ → List D → Series D
  atr_series period rs =
      let current = fmean (take period rs) in
      if ltb_ℕ (length rs) period
      then replicate (length rs) none
      else replicate (sub_ℕ period 1) none
        ++ map some (current ∷ atr_run period current (drop period rs))

  abbrev pub atr_of : ℕ → Option (List D) → Option (Series D)
  atr_of period none = none
  atr_of period (some rs) = validated period (atr_series period rs)

  unfoldable pub atr : List D → List D → List D → ℕ → Option (Series D)
  atr hs ls cs period = atr_of period (true_range hs ls cs)

  unfoldable pub obv_from : D → D → List D → List D → List D
  obv_from previous obv (c ∷ cs) (v ∷ vs) =
      let next = if ltb previous c then obv + v else if ltb c previous then obv - v else obv in
      next ∷ obv_from c next cs vs
  obv_from previous obv _ _ = []

  unfoldable pub obv_of : List D → List D → List D
  unfolding obv_from
  obv_of (c ∷ cs) (v ∷ vs) = of_ℕ 0 ∷ obv_from c (of_ℕ 0) cs vs
  obv_of _ _ = []

  unfoldable pub on_balance_volume : List D → List D → Option (List D)
  unfolding obv_of
  on_balance_volume closes volumes =
      if eqb_ℕ (length closes) (length volumes) then some (obv_of closes volumes) else none

  abbrev pub co_deviation : D → D → ℕ → List D → D
  co_deviation mean_x mean_y i [] = of_ℕ 0
  co_deviation mean_x mean_y i (v ∷ vs) =
      (of_ℕ i - mean_x) * (v - mean_y) + co_deviation mean_x mean_y (suc i) vs

  abbrev pub deviation : D → ℕ → List D → D
  deviation mean_x i [] = of_ℕ 0
  deviation mean_x i (v ∷ vs) = (of_ℕ i - mean_x) * (of_ℕ i - mean_x) + deviation mean_x (suc i) vs

  unfoldable pub linear_slope : List D → D
  linear_slope values =
      let n = length values in
      let mean_x = of_ℕ (sub_ℕ n 1) / of_ℕ 2 in
      let denominator = deviation mean_x 0 values in
      if ltb_ℕ n 2
      then of_ℕ 0
      else if eqb denominator (of_ℕ 0)
      then of_ℕ 0
      else co_deviation mean_x (fmean values) 0 values / denominator

  unfoldable pub normalized_slope : List D → ℕ → D
  unfolding linear_slope
  normalized_slope values period =
      let window = last_of period values in
      let scale = fmean (map abs window) in
      if ltb_ℕ (length window) 2
      then of_ℕ 0
      else if eqb scale (of_ℕ 0)
      then of_ℕ 0
      else linear_slope window / scale

  abbrev pub or_earlier : Option D → Option D → Option D
  or_earlier v none = v
  or_earlier v (some w) = some w

  unfoldable pub last_defined : Series D → Option D
  last_defined [] = none
  last_defined (v ∷ s) = or_earlier v (last_defined s)

  abbrev pub last_two : Series D → Option (Option D × Option D)
  last_two [] = none
  last_two (a ∷ []) = none
  last_two (a ∷ (b ∷ [])) = some (a, b)
  last_two (a ∷ (b ∷ (c ∷ s))) = last_two (b ∷ (c ∷ s))

  abbrev pub crossed : Option (Option D × Option D) → Option (Option D × Option D) → Bool
  crossed (some (some prev_fast, some curr_fast)) (some (some prev_slow, some curr_slow)) =
      leb prev_fast prev_slow && ltb curr_slow curr_fast
  crossed _ _ = false

  unfoldable pub crossed_above : Series D → Series D → Bool
  crossed_above fast slow = crossed (last_two fast) (last_two slow)

  unfoldable pub crossed_below : Series D → Series D → Bool
  unfolding crossed_above
  crossed_below fast slow = crossed_above slow fast

  unfoldable pub clamp : D → D → D → D
  clamp value lower upper = max lower (min upper value)

  abbrev pub minus_one : D
  minus_one = of_ℕ 0 - of_ℕ 1

  -- `clamp(value)`, with the bounds that it has by default
  abbrev pub clamped : D → D
  clamped value = clamp value minus_one (of_ℕ 1)
