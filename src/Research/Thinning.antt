-- ===== src/Research/Thinning.antt =====
-- The subsample that `_mark_independent` takes: its windows do not overlap, and nothing could be added.
use crypto_research_platform.Prelude.{
  ℕ, ◌+ℕ◌, ◌≤ℕ◌, ◌<ℕ◌, ◌≡◌, refl, ◌⊎◌, inl, inr, true, false, List, [], ◌∷◌, All, arith, Bool-cases,
  leb as leb_ℕ, leb→le,
}
use crypto_research_platform.Research.Study.{Observation, mark_from, mark_independent}

module _ {D : Type 0} where
  -- Not marked yet, as `run` appends them.
  abbrev pub IsFresh : List (Observation D) → Type 0
  IsFresh os = All (λ o. o.independent ≡ false) os

  abbrev pub IsPast : ℕ → List (Observation D) → Type 0
  IsPast bound os = All (λ o. o.independent ≡ true → bound ≤ℕ o.index) os

  -- The forward windows of two marked observations share no bar.
  abbrev pub IsSpaced : ℕ → List (Observation D) → Type 0
  IsSpaced horizon [] = Unit
  IsSpaced horizon (o ∷ os) =
      (o.independent ≡ true → IsPast (o.index +ℕ horizon) os) × IsSpaced horizon os

  -- Some marked observation of the list has a window that reaches past the index.
  abbrev pub Overlaps : ℕ → ℕ → List (Observation D) → Type 0
  Overlaps horizon index [] = ⊥
  Overlaps horizon index (e ∷ es) =
      ((e.independent ≡ true) × (index <ℕ e.index +ℕ horizon)) ⊎ Overlaps horizon index es

  -- Each observation is marked, or overlaps a marked one before it.
  abbrev pub IsMaximal : ℕ → List (Observation D) → List (Observation D) → Type 0
  IsMaximal horizon earlier [] = Unit
  IsMaximal horizon earlier (o ∷ os) =
      ((o.independent ≡ true) ⊎ Overlaps horizon o.index earlier)
      × IsMaximal horizon (o ∷ earlier) os

  mark_from-IsPast :
      (horizon next bound : ℕ) (os : List (Observation D))
      → bound ≤ℕ next
      → IsFresh os
      → IsPast bound (mark_from horizon next os)
  unfolding mark_from
  mark_from-IsPast horizon next bound [] b h = tt
  mark_from-IsPast horizon next bound (o ∷ os) b (fresh, h) =
      elim (Bool-cases (leb_ℕ next o.index)) [
        | inl taken ↦ rw taken (
          (λ _. omega (arith, leb→le next o.index taken)),
          mark_from-IsPast horizon (o.index +ℕ horizon) bound os
              (omega (arith, leb→le next o.index taken)) h,
        )
        | inr dropped ↦ rw dropped ((λ m. ground arith), mark_from-IsPast horizon next bound os b h)
      ]

  mark_from-IsSpaced :
      (horizon next : ℕ) (os : List (Observation D))
      → IsFresh os
      → IsSpaced horizon (mark_from horizon next os)
  unfolding mark_from
  mark_from-IsSpaced horizon next [] h = tt
  mark_from-IsSpaced horizon next (o ∷ os) (fresh, h) = elim (Bool-cases (leb_ℕ next o.index)) [
    | inl taken ↦ rw taken (
      (λ _. mark_from-IsPast horizon (o.index +ℕ horizon) (o.index +ℕ horizon) os (omega arith) h),
      mark_from-IsSpaced horizon (o.index +ℕ horizon) os h,
    )
    | inr dropped ↦ rw dropped ((λ m. ground arith), mark_from-IsSpaced horizon next os h)
  ]

  mark_from-IsMaximal :
      (horizon next : ℕ) (earlier os : List (Observation D))
      → ((index : ℕ) → index <ℕ next → Overlaps horizon index earlier)
      → IsMaximal horizon earlier (mark_from horizon next os)
  unfolding mark_from
  mark_from-IsMaximal horizon next earlier [] o = tt
  mark_from-IsMaximal horizon next earlier (o ∷ os) reach = elim (Bool-cases (leb_ℕ next o.index)) [
    | inl taken ↦ rw taken (
      inl refl,
      mark_from-IsMaximal horizon (o.index +ℕ horizon) (record o { independent = true } ∷ earlier)
          os (λ index below. inl (refl, below)),
    )
    | inr dropped ↦ rw dropped (
      inr (reach o.index (ground arith)),
      mark_from-IsMaximal horizon next (o ∷ earlier) os (λ index below. inr (reach index below)),
    )
  ]

  -- Of observations that are not marked yet, `_mark_independent` marks some whose forward windows
  -- do not overlap one another, and each that it leaves unmarked overlaps a marked one before it.
  pub mark_independent-IsMaximal :
      (horizon : ℕ) (os : List (Observation D))
      → IsFresh os
      → IsSpaced horizon (mark_independent horizon os)
        × IsMaximal horizon [] (mark_independent horizon os)
  unfolding mark_independent
  mark_independent-IsMaximal horizon os h = (
    mark_from-IsSpaced horizon 0 os h,
    mark_from-IsMaximal horizon 0 [] os (λ index below. omega arith),
  )
