-- ===== src/Analyst/Clusters.antt =====
-- Clustering puts every pivot in exactly one level.
use Prim.Native.Nat.{◌-◌ as sub_ℕ, max as max_ℕ}
use crypto_research_platform.Prelude.{
  ℕ, ◌<ℕ◌, ◌≡◌, refl, sym, ap, ◌∙◌, subst, inl, inr, Bool, some, List, [], ◌∷◌, ◌++◌, map, length,
  All, length-append, arith, Bool-cases,
}
use mathlib.Core.Option.{some-injective}
use mathlib.Core.List.{append_assoc, Perm}
use mathlib.Core.List.Perm
use crypto_research_platform.Decimal.{Decimal, of_ℕ, leb, fmean}
use crypto_research_platform.Analyst.Levels.{
  Pivot, PriceLevel, insert_by, sort_by, joins, clusters_from, clusters, level_of, levels_of,
  stronger, cheaper, cluster_pivots, greatest_of, pivot_price, pivot_index,
}

module _ {A : Type 0} (before : A → A → Bool) where
  insert_by-perm : (a : A) (xs : List A) → Perm (insert_by before a xs) (a ∷ xs)
  unfolding insert_by
  insert_by-perm a [] = Perm.refl (a ∷ [])
  insert_by-perm a (b ∷ xs) = elim (Bool-cases (before a b)) [
    | inl here ↦ rw here (Perm.refl (a ∷ (b ∷ xs)))
    | inr later ↦ rw later (Perm.trans (Perm.cons b (insert_by-perm a xs)) (Perm.swap a b xs))
  ]

  sort_by-perm : (xs : List A) → Perm (sort_by before xs) xs
  unfolding sort_by
  sort_by-perm [] = Perm.refl []
  sort_by-perm (a ∷ xs) =
      Perm.trans (insert_by-perm a (sort_by before xs)) (Perm.cons a (sort_by-perm xs))

abbrev pub join : {A : Type 0} → List (List A) → List A
join [] = []
join (c ∷ cs) = c ++ join cs

abbrev pub IsFilled : {A : Type 0} → List A → Type 0
IsFilled c = 0 <ℕ length c

module _ {D : Type 0} ⦃d : Decimal D⦄ where
  -- The clusters are consecutive runs, none empty.
  clusters_from-join :
      (pct : D) (current ps : List (Pivot D)) → join (clusters_from pct current ps) ≡ current ++ ps
  unfolding clusters_from
  clusters_from-join pct current [] = refl
  clusters_from-join pct current (p ∷ ps) = elim (Bool-cases (joins pct current p)) [
    | inl near ↦
        rw near (clusters_from-join pct (current ++ (p ∷ [])) ps ∙ append_assoc current (p ∷ []) ps)
    | inr far ↦
        rw far (ap (λ (r : List (Pivot D)). current ++ r) (clusters_from-join pct (p ∷ []) ps))
  ]

  clusters_from-IsFilled :
      (pct : D) (current ps : List (Pivot D))
      → IsFilled current
      → All IsFilled (clusters_from pct current ps)
  unfolding clusters_from
  clusters_from-IsFilled pct current [] h = (h, tt)
  clusters_from-IsFilled pct current (p ∷ ps) h = elim (Bool-cases (joins pct current p)) [
    | inl near ↦ rw near (
        clusters_from-IsFilled pct (current ++ (p ∷ [])) ps
          (omega (arith, length-append current (p ∷ []))))
    | inr far ↦ rw far (h, clusters_from-IsFilled pct (p ∷ []) ps (omega arith))
  ]

  clusters-join : (pct : D) (ps : List (Pivot D)) → join (clusters pct ps) ≡ ps
  unfolding clusters
  clusters-join pct [] = refl
  clusters-join pct (p ∷ ps) = clusters_from-join pct (p ∷ []) ps

  clusters-IsFilled : (pct : D) (ps : List (Pivot D)) → All IsFilled (clusters pct ps)
  unfolding clusters
  clusters-IsFilled pct [] = tt
  clusters-IsFilled pct (p ∷ ps) = clusters_from-IsFilled pct (p ∷ []) ps (omega arith)

  -- What a level says of its pivots: their mean price, their number and the last of their bars.
  abbrev pub figures : PriceLevel D → D × ℕ × ℕ
  figures l = (l.price, l.touches, l.last_index)

  abbrev pub figures_of : List (Pivot D) → D × ℕ × ℕ
  figures_of c = (fmean (map pivot_price c), length c, greatest_of pivot_index c)

  figures-level_of :
      (m n : ℕ) (cs : List (List (Pivot D)))
      → map figures (map (level_of m n) cs) ≡ map figures_of cs
  unfolding level_of
  figures-level_of m n [] = refl
  figures-level_of m n (c ∷ cs) = ap (λ r. figures_of c ∷ r) (figures-level_of m n cs)

  -- The levels are those of groups of the pivots: no group is empty, together they hold every pivot
  -- exactly once, and each level has the figures of its own group.
  abbrev pub IsGrouped : List (Pivot D) → List (PriceLevel D) → Type 0
  IsGrouped pivots levels =
      (groups : List (List (Pivot D))) × Perm (join groups) pivots
      × All IsFilled groups
      × Perm (map figures levels) (map figures_of groups)

  -- Every pivot is in exactly one level: where clustering does not raise, the pivots fall into groups,
  -- none of them empty and each pivot in exactly one, and the levels are one for each group, with the
  -- mean price, the number and the last bar of its pivots.
  pub cluster_pivots-IsGrouped :
      (pivots : List (Pivot D)) (pct : D) (total_bars : ℕ) {levels : List (PriceLevel D)}
      → cluster_pivots pivots pct total_bars ≡ some levels
      → IsGrouped pivots levels
  unfolding cluster_pivots levels_of
  cluster_pivots-IsGrouped pivots pct total_bars h = elim (Bool-cases (leb pct (of_ℕ 0))) [
    | inl bad ↦ cc
    | inr good ↦
        let sorted = sort_by cheaper pivots in
        let cs = clusters pct sorted in
        let most = greatest_of length cs in
        let bars = max_ℕ (sub_ℕ total_bars 1) 1 in
        rw (← some-injective _ _ (rw (good) at h)) (
          cs,
          subst (λ (ps : List (Pivot D)). Perm ps pivots) (sym (clusters-join pct sorted))
              (sort_by-perm cheaper pivots),
          clusters-IsFilled pct sorted,
          subst
              (λ (fs : List (D × ℕ × ℕ)).
                Perm (map figures (sort_by stronger (map (level_of most bars) cs))) fs)
              (figures-level_of most bars cs)
              (Perm.map figures (sort_by-perm stronger (map (level_of most bars) cs))),
        )
  ]
