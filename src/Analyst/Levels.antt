-- ===== src/Analyst/Levels.antt =====
-- services/agents/market_analyst/levels.py. The outer `Option` is the `ValueError` of a function.
use Prim.Native.Nat.{◌-◌ as sub_ℕ, ◌*◌ as mul_ℕ, max as max_ℕ}
use crypto_research_platform.Prelude.{
  ℕ, suc, Bool, true, false, not, ◌&&◌, ◌||◌, Option, none, some, List, [], ◌∷◌, ◌++◌, map, length,
  take, drop, leb as leb_ℕ, eqb as eqb_ℕ, if◌then◌else◌,
}
use crypto_research_platform.Decimal.{
  Decimal, ◌+◌, ◌-◌, ◌*◌, ◌/◌, of_ℕ, leb, ltb, abs, round, fmean,
}
use crypto_research_platform.Schemas.{LevelKind, support, resistance, SupportResistanceLevel}

pub data PivotKind : Type 0 where
  high low : PivotKind

pub record Pivot (D : Type 0) : Type 0 where
  pub index : ℕ
  pub price : D
  pub kind : PivotKind

pub record PriceLevel (D : Type 0) : Type 0 where
  pub price : D
  pub touches : ℕ
  pub last_index : ℕ
  pub strength : D

-- `sorted(xs, key=...)`, stable: `before a b` where the key of `a` is at most that of `b`.
unfoldable pub insert_by : {A : Type 0} → (A → A → Bool) → A → List A → List A
insert_by before a [] = a ∷ []
insert_by before a (b ∷ bs) =
    let later = insert_by before a bs in if before a b then a ∷ (b ∷ bs) else b ∷ later

unfoldable pub sort_by : {A : Type 0} → (A → A → Bool) → List A → List A
unfolding insert_by
sort_by before [] = []
sort_by before (a ∷ xs) = insert_by before a (sort_by before xs)

abbrev pub filter_by : {A : Type 0} → (A → Bool) → List A → List A
filter_by p [] = []
filter_by p (a ∷ xs) = let kept = filter_by p xs in if p a then a ∷ kept else kept

abbrev pub all_of : {A : Type 0} → (A → Bool) → List A → Bool
all_of p [] = true
all_of p (a ∷ xs) = p a && all_of p xs

abbrev pub any_of : {A : Type 0} → (A → Bool) → List A → Bool
any_of p [] = false
any_of p (a ∷ xs) = p a || any_of p xs

abbrev pub greatest_of : {A : Type 0} → (A → ℕ) → List A → ℕ
greatest_of f [] = 0
greatest_of f (a ∷ xs) = max_ℕ (f a) (greatest_of f xs)

abbrev pub is_kind : LevelKind → LevelKind → Bool
is_kind support support = true
is_kind resistance resistance = true
is_kind _ _ = false

module _ {D : Type 0} ⦃d : Decimal D⦄ where
  -- A swing: no bar of the window goes beyond the bar in the middle, and some bar stays behind it.
  abbrev pub is_swing : (D → D → Bool) → D → List D → Bool
  is_swing reaches v window =
      all_of (λ w. reaches v w) window && any_of (λ w. not (reaches w v)) window

  abbrev pub pivot_if : Bool → ℕ → D → PivotKind → List (Pivot D)
  pivot_if true i v k = record { index = i; price = v; kind = k } ∷ []
  pivot_if false i v k = []

  abbrev pub at_least : D → D → Bool
  at_least a b = leb b a

  abbrev pub middle_pivots : ℕ → List D → List D → List D → List D → List (Pivot D)
  middle_pivots i window_h window_l (h ∷ _) (l ∷ _) =
      pivot_if (is_swing at_least h window_h) i h high ++ pivot_if (is_swing leb l window_l) i l low
  middle_pivots i window_h window_l _ _ = []

  -- The pivots of bar `i`: both lists begin with its window of `2 * lookback + 1` bars.
  unfoldable pub pivots_at : ℕ → ℕ → List D → List D → List (Pivot D)
  pivots_at lookback i hs ls =
      let width = suc (mul_ℕ 2 lookback) in
      middle_pivots i (take width hs) (take width ls) (drop lookback hs) (drop lookback ls)

  -- Bar after bar, while a whole window is left.
  unfoldable pub pivots_from : ℕ → ℕ → List D → List D → List (Pivot D)
  unfolding pivots_at
  pivots_from lookback i [] ls = []
  pivots_from lookback i (h ∷ hs) ls =
      let rest = pivots_from lookback (suc i) hs (drop 1 ls) in
      if leb_ℕ (suc (mul_ℕ 2 lookback)) (length (h ∷ hs))
      then pivots_at lookback i (h ∷ hs) ls ++ rest
      else []

  unfoldable pub find_pivots : List D → List D → ℕ → Option (List (Pivot D))
  unfolding pivots_from
  find_pivots highs lows lookback =
      if not (eqb_ℕ (length highs) (length lows))
      then none
      else if eqb_ℕ lookback 0
      then none
      else some (pivots_from lookback lookback highs lows)

  abbrev pub pivot_price : Pivot D → D
  pivot_price p = p.price

  abbrev pub centre : List (Pivot D) → D
  centre cluster = fmean (map pivot_price cluster)

  abbrev pub joins : D → List (Pivot D) → Pivot D → Bool
  joins cluster_pct current p =
      let c = centre current in ltb (of_ℕ 0) c && leb (abs (p.price - c) / c * of_ℕ 100) cluster_pct

  -- The loop over the sorted pivots, with the cluster that is open.
  unfoldable pub clusters_from : D → List (Pivot D) → List (Pivot D) → List (List (Pivot D))
  clusters_from cluster_pct current [] = current ∷ []
  clusters_from cluster_pct current (p ∷ ps) =
      let joined = clusters_from cluster_pct (current ++ (p ∷ [])) ps in
      let fresh = clusters_from cluster_pct (p ∷ []) ps in
      if joins cluster_pct current p then joined else current ∷ fresh

  unfoldable pub clusters : D → List (Pivot D) → List (List (Pivot D))
  unfolding clusters_from
  clusters cluster_pct [] = []
  clusters cluster_pct (p ∷ ps) = clusters_from cluster_pct (p ∷ []) ps

  abbrev pub pivot_index : Pivot D → ℕ
  pivot_index p = p.index

  unfoldable pub level_of : ℕ → ℕ → List (Pivot D) → PriceLevel D
  level_of max_touches denominator cluster =
      let last_index = greatest_of pivot_index cluster in
      let touch_score = of_ℕ (length cluster) / of_ℕ max_touches in
      let recency_score = of_ℕ last_index / of_ℕ denominator in
      record {
        price = centre cluster;
        touches = length cluster;
        last_index = last_index;
        strength = round 4 (of_ℕ 65 / of_ℕ 100 * touch_score + of_ℕ 35 / of_ℕ 100 * recency_score);
      }

  abbrev pub cheaper : Pivot D → Pivot D → Bool
  cheaper a b = leb a.price b.price

  abbrev pub stronger : PriceLevel D → PriceLevel D → Bool
  stronger a b = leb b.strength a.strength

  unfoldable pub levels_of : ℕ → List (List (Pivot D)) → List (PriceLevel D)
  levels_of total_bars cs =
      sort_by stronger (map (level_of (greatest_of length cs) (max_ℕ (sub_ℕ total_bars 1) 1)) cs)

  unfoldable pub cluster_pivots : List (Pivot D) → D → ℕ → Option (List (PriceLevel D))
  unfolding levels_of clusters
  cluster_pivots pivots cluster_pct total_bars =
      if leb cluster_pct (of_ℕ 0)
      then none
      else some (levels_of total_bars (clusters cluster_pct (sort_by cheaper pivots)))

  abbrev pub report : D → LevelKind → PriceLevel D → SupportResistanceLevel D
  report current_price kind l = record {
    price = round 8 l.price;
    kind = kind;
    touches = l.touches;
    strength = l.strength;
    distance_pct = round 4 ((l.price - current_price) / current_price * of_ℕ 100);
  }

  abbrev pub closer_below : D → PriceLevel D → PriceLevel D → Bool
  closer_below current_price a b = leb (current_price - a.price) (current_price - b.price)

  abbrev pub closer_above : D → PriceLevel D → PriceLevel D → Bool
  closer_above current_price a b = leb (a.price - current_price) (b.price - current_price)

  abbrev pub is_below : D → PriceLevel D → Bool
  is_below current_price l = ltb l.price current_price

  abbrev pub is_above : D → PriceLevel D → Bool
  is_above current_price l = ltb current_price l.price

  unfoldable pub sides : D → ℕ → List (PriceLevel D) → List (SupportResistanceLevel D)
  sides current_price max_per_side levels =
      map (report current_price support) (
        take max_per_side
          (sort_by (closer_below current_price) (filter_by (is_below current_price) levels)))
      ++ map (report current_price resistance) (
          take max_per_side
            (sort_by (closer_above current_price) (filter_by (is_above current_price) levels)))

  abbrev pub sides_of :
      D → ℕ → Option (List (PriceLevel D)) → Option (List (SupportResistanceLevel D))
  sides_of current_price max_per_side none = none
  sides_of current_price max_per_side (some levels) = some (sides current_price max_per_side levels)

  abbrev pub clustered : Option (List (Pivot D)) → D → ℕ → Option (List (PriceLevel D))
  clustered none cluster_pct total_bars = none
  clustered (some pivots) cluster_pct total_bars = cluster_pivots pivots cluster_pct total_bars

  unfoldable pub detect_levels :
      List D → List D → D → ℕ → D → ℕ → Option (List (SupportResistanceLevel D))
  unfolding sides
  detect_levels highs lows current_price lookback cluster_pct max_per_side =
      if leb current_price (of_ℕ 0) || eqb_ℕ (length highs) 0
      then some []
      else sides_of current_price max_per_side
          (clustered (find_pivots highs lows lookback) cluster_pct (length highs))

  -- `min(candidates, key=...)`: the first of the nearest.
  abbrev pub nearest_from :
      SupportResistanceLevel D → List (SupportResistanceLevel D) → SupportResistanceLevel D
  nearest_from best [] = best
  nearest_from best (l ∷ ls) =
      nearest_from (if ltb (abs l.distance_pct) (abs best.distance_pct) then l else best) ls

  abbrev pub nearest_of : List (SupportResistanceLevel D) → Option (SupportResistanceLevel D)
  nearest_of [] = none
  nearest_of (l ∷ ls) = some (nearest_from l ls)

  unfoldable pub nearest_level :
      List (SupportResistanceLevel D) → LevelKind → Option (SupportResistanceLevel D)
  nearest_level levels kind = nearest_of (filter_by (λ l. is_kind l.kind kind) levels)
