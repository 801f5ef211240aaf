-- ===== src/Engine/Trust.antt =====
-- services/decision_engine/trust.py: `brier_score` and `class TrustRegistry`.
use crypto_research_platform.Prelude.{
  ℕ, String, Bool, Option, none, some, List, [], ◌∷◌, ◌++◌, length, drop, string_eq, ltb as ltb_ℕ,
  if◌then◌else◌,
}
use Prim.Native.Nat.{◌-◌ as sub_ℕ}
use crypto_research_platform.Prelude.Dict.{Dict, lookup, insert}
use crypto_research_platform.Decimal.{Decimal, ◌+◌, ◌-◌, ◌*◌, ◌/◌, of_ℕ, leb, min, max}

pub record TrustRegistry (D : Type 0) : Type 0 where
  pub default_weight : D
  pub min_samples : ℕ
  pub min_weight : D
  pub max_weight : D
  pub window : ℕ
  pub agents : Dict String (List D)

-- `deque.append` on a deque with a bound: the oldest scores leave on the left.
unfoldable pub append_bounded : {A : Type 0} → ℕ → A → List A → List A
append_bounded bound a xs = let ys = xs ++ (a ∷ []) in drop (sub_ℕ (length ys) bound) ys

module _ {D : Type 0} ⦃d : Decimal D⦄ where
  abbrev pub hit : Bool → D
  hit b = if b then of_ℕ 1 else of_ℕ 0

  -- `none` is the `ValueError`
  unfoldable pub brier_score : D → Bool → Option D
  brier_score forecast outcome =
      if leb (of_ℕ 0) forecast
      then (if leb forecast (of_ℕ 1)
          then some ((forecast - hit outcome) * (forecast - hit outcome))
          else none)
      else none

  abbrev pub total : List D → D
  total [] = of_ℕ 0
  total (x ∷ xs) = x + total xs

  abbrev pub mean_brier : List D → Option D
  mean_brier [] = none
  mean_brier (x ∷ xs) = some (total (x ∷ xs) / of_ℕ (length (x ∷ xs)))

  abbrev pub scores : Option (List D) → List D
  scores none = []
  scores (some w) = w

  abbrev pub record_score : String → Option D → TrustRegistry D → Option (TrustRegistry D × D)
  record_score agent none r = none
  record_score agent (some s) r = some (
    record r {
      agents = insert agent (append_bounded r.window s (scores (lookup agent r.agents))) r.agents;
    },
    s,
  )

  -- `none` is the `ValueError` of `brier_score`
  unfoldable pub record_outcome : String → D → Bool → TrustRegistry D → Option (TrustRegistry D × D)
  record_outcome agent confidence was_correct r =
      record_score agent (brier_score confidence was_correct) r

  abbrev pub baseline : D
  baseline = of_ℕ 1 / of_ℕ 4

  unfoldable pub adapted : TrustRegistry D → D → D
  adapted r mean =
      let weight = r.default_weight * (of_ℕ 1 + (baseline - mean) / baseline) in
      max r.min_weight (min r.max_weight weight)

  abbrev pub weight_of : TrustRegistry D → Option D → D
  weight_of r none = r.default_weight
  weight_of r (some mean) = adapted r mean

  abbrev pub weight_from : TrustRegistry D → Option (List D) → D
  weight_from r none = r.default_weight
  weight_from r (some w) =
      if ltb_ℕ (length w) r.min_samples then r.default_weight else weight_of r (mean_brier w)

  unfoldable pub weight_for : String → TrustRegistry D → D
  weight_for agent r = weight_from r (lookup agent r.agents)
