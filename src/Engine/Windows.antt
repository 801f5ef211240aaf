-- ===== src/Engine/Windows.antt =====
-- trust.py: `weight_for`, and the windows of scores.
use crypto_research_platform.Prelude.{
  ℕ, ◌≤ℕ◌, String, inl, inr, Option, none, some, List, [], ◌∷◌, ◌++◌, length, string_eq, Bool-cases,
  length-drop_excess, ltb as ltb_ℕ,
}
use crypto_research_platform.Prelude.Dict.{lookup}
use crypto_research_platform.Decimal.{
  Decimal, IsExact, ◌≤◌, le-max_left, min-le_left, IsWithin, max-le,
}
use crypto_research_platform.Engine.Trust.{
  TrustRegistry, append_bounded, adapted, weight_of, weight_from, weight_for, mean_brier,
}

pub append_bounded_bound :
    {A : Type 0} (bound : ℕ) (a : A) (xs : List A) → length (append_bounded bound a xs) ≤ℕ bound
unfolding append_bounded
append_bounded_bound bound a xs = length-drop_excess bound (xs ++ (a ∷ []))

module _ {D : Type 0} ⦃d : Decimal D⦄ where
  module _ (x : IsExact D) where
    adapted-IsWithin :
        (r : TrustRegistry D) (mean : D)
        → r.min_weight ≤ r.max_weight
        → IsWithin r.min_weight r.max_weight (adapted r mean)
    unfolding adapted
    adapted-IsWithin r mean h = (le-max_left x _ _, max-le {D = D} _ _ _ h (min-le_left x _ _))

    weight_of-IsWithin :
        (r : TrustRegistry D) (mean : Option D)
        → r.min_weight ≤ r.max_weight
        → IsWithin r.min_weight r.max_weight r.default_weight
        → IsWithin r.min_weight r.max_weight (weight_of r mean)
    weight_of-IsWithin r none h k = k
    weight_of-IsWithin r (some mean) h k = adapted-IsWithin r mean h

    weight_from-IsWithin :
        (r : TrustRegistry D) (w : Option (List D))
        → r.min_weight ≤ r.max_weight
        → IsWithin r.min_weight r.max_weight r.default_weight
        → IsWithin r.min_weight r.max_weight (weight_from r w)
    weight_from-IsWithin r none h k = k
    weight_from-IsWithin r (some w) h k = elim (Bool-cases (ltb_ℕ (length w) r.min_samples)) [
      | inl few ↦ rw few k
      | inr enough ↦ rw enough (weight_of-IsWithin r (mean_brier w) h k)
    ]

    -- However an agent did, its weight lies between the least and the greatest weight, where these are
    -- in order and the default weight lies between them.
    pub weight_for-IsWithin :
        (agent : String) (r : TrustRegistry D)
        → r.min_weight ≤ r.max_weight
        → IsWithin r.min_weight r.max_weight r.default_weight
        → IsWithin r.min_weight r.max_weight (weight_for agent r)
    unfolding weight_for
    weight_for-IsWithin agent r h k = weight_from-IsWithin r (lookup agent r.agents) h k
