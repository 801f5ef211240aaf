-- ===== src/Research/Corrections.antt =====
-- What a Bonferroni correction rejects, the Benjamini-Hochberg procedure rejects too.
use Prim.Native.Nat.{◌-◌ as sub_ℕ}
use crypto_research_platform.Prelude.{
  ℕ, suc, ◌≤ℕ◌, ◌<ℕ◌, ◌≡◌, refl, sym, ◌⊎◌, inl, inr, Bool, true, false, not, some, List, [], ◌∷◌,
  map, length, take, arith, Bool-cases, eqb as eqb_ℕ, eqb_iff,
}
use mathlib.Core.Option.{some-injective}
use crypto_research_platform.Decimal.{
  Decimal, IsExact, ◌*◌, ◌/◌, ◌≤◌, ◌<◌, of_ℕ, leb, ltb, le_of_lt, of_ℕ_pos, mul_mono_right,
}
use crypto_research_platform.Analyst.Levels.{insert_by, sort_by}
use crypto_research_platform.Research.Statistics.{
  numbered, largest_hit, listed, ordered, discoveries, benjamini_hochberg, bonferroni,
}

abbrev pub In : {A : Type 0} → A → List A → Type 0
In a [] = ⊥
In a (b ∷ xs) = (a ≡ b) ⊎ In a xs

module _ {A : Type 0} (before : A → A → Bool) where
  In-insert_by : (a b : A) (xs : List A) → (a ≡ b) ⊎ In a xs → In a (insert_by before b xs)
  unfolding insert_by
  In-insert_by a b [] h = h
  In-insert_by a b (c ∷ xs) h = elim (Bool-cases (before b c)) [
    | inl here ↦ rw here h
    | inr later ↦ rw later (elim h [
      | inl e ↦ inr (In-insert_by a b xs (inl e))
      | inr (inl e) ↦ inl e
      | inr (inr e) ↦ inr (In-insert_by a b xs (inr e))
    ])
  ]

  In-sort_by : (a : A) (xs : List A) → In a xs → In a (sort_by before xs)
  unfolding sort_by
  In-sort_by a [] h = h
  In-sort_by a (b ∷ xs) (inl e) = In-insert_by a b (sort_by before xs) (inl e)
  In-sort_by a (b ∷ xs) (inr h) = In-insert_by a b (sort_by before xs) (inr (In-sort_by a xs h))

le_cases : (a b : ℕ) → (a ≤ℕ b) ⊎ (b <ℕ a)
le_cases a b = omega arith

-- Wherever the first list is true, the second is.
abbrev pub Implied : List Bool → List Bool → Type 0
Implied [] ys = Unit
Implied (b ∷ bs) [] = ⊥
Implied (b ∷ bs) (c ∷ cs) = (b ≡ true → c ≡ true) × Implied bs cs

not-true : (b : Bool) → not b ≡ true → b ≡ false
not-true b h = ground arith

sub_one : (n : ℕ) → sub_ℕ (suc n) 1 ≡ n
sub_one n = omega arith

eqb_refl : (n : ℕ) → eqb_ℕ n n ≡ true
eqb_refl n = (eqb_iff n n).1 refl

module _ {D : Type 0} ⦃d : Decimal D⦄ where
  listed_head :
      (f : ℕ × D) (es : List (ℕ × D)) (rank last : ℕ)
      → rank ≤ℕ last
      → listed f.0 (take (sub_ℕ (suc last) rank) (f ∷ es)) ≡ true
  listed_head f es rank last h =
      let e : sub_ℕ (suc last) rank ≡ suc (sub_ℕ last rank) = omega arith in
      rw (e, eqb_refl f.0) refl

  listed_longer :
      (i : ℕ) (f : ℕ × D) (es : List (ℕ × D)) → listed i es ≡ true → listed i (f ∷ es) ≡ true
  listed_longer i f es h = elim (Bool-cases (eqb_ℕ f.0 i)) [
    | inl same ↦ rw same refl
    | inr other ↦ rw other h
  ]

  listed_tail :
      (i : ℕ) (f : ℕ × D) (es : List (ℕ × D)) (rank last : ℕ)
      → listed i (take (sub_ℕ (suc last) (suc rank)) es) ≡ true
      → listed i (take (sub_ℕ (suc last) rank) (f ∷ es)) ≡ true
  listed_tail i f es rank last h = elim (le_cases rank last) [
    | inl within ↦
        let e : sub_ℕ (suc last) rank ≡ suc (sub_ℕ (suc last) (suc rank)) = omega arith in
        rw e (listed_longer i f (take (sub_ℕ (suc last) (suc rank)) es) h)
    | inr past ↦
        let e : sub_ℕ (suc last) (suc rank) ≡ 0 = omega arith in
        let wrong : listed i (take 0 es) ≡ true = rw e at h in ground arith
  ]

module _ {D : Type 0} ⦃d : Decimal D⦄ where
  largest_hit_mono :
      (alpha : D) (n rank hit : ℕ) (es : List (ℕ × D))
      → hit ≤ℕ rank
      → hit ≤ℕ largest_hit alpha n rank hit es
  unfolding largest_hit
  largest_hit_mono alpha n rank hit [] h = omega arith
  largest_hit_mono alpha n rank hit (e ∷ es) h =
      elim (Bool-cases (leb e.1 (alpha * of_ℕ rank / of_ℕ n))) [
        | inl small ↦ rw small (omega (arith, largest_hit_mono alpha n (suc rank) rank es))
        | inr large ↦ rw large (omega (arith, largest_hit_mono alpha n (suc rank) hit es))
      ]

  module _ (x : IsExact D) (alpha : D) (n : ℕ) (positive : 0 <ℕ n)
      (alpha_pos : of_ℕ 0 < alpha) where
    open x use {mul_one, le_trans, of_ℕ_mono, div-mul-le, le-div}

    -- The threshold of every rank is at least that of Bonferroni.
    threshold_le : (rank : ℕ) → 1 ≤ℕ rank → alpha / of_ℕ n ≤ alpha * of_ℕ rank / of_ℕ n
    threshold_le rank h = le-div _ _ _ (of_ℕ_pos x n positive) (
        le_trans _ _ _ (div-mul-le alpha (of_ℕ n) (of_ℕ_pos x n positive)) (
          rw (mul_one alpha) at (
            mul_mono_right x (of_ℕ 1) (of_ℕ rank) alpha (le_of_lt x _ _ alpha_pos)
              (of_ℕ_mono 1 rank h))))

    hit_listed :
        (e : ℕ × D) (rank hit : ℕ) (es : List (ℕ × D))
        → 1 ≤ℕ rank
        → hit ≤ℕ rank
        → In e es
        → e.1 ≤ alpha / of_ℕ n
        → listed e.0 (take (sub_ℕ (suc (largest_hit alpha n rank hit es)) rank) es) ≡ true
    unfolding largest_hit
    hit_listed e rank hit [] r k i h = elim i [ ]
    hit_listed e rank hit (f ∷ es) r k (inl i) h =
        let small : leb f.1 (alpha * of_ℕ rank / of_ℕ n) ≡ true =
          rw i at
            (le_trans e.1 (alpha / of_ℕ n) (alpha * of_ℕ rank / of_ℕ n) h (threshold_le rank r)) in
        rw small (
          rw (sym i) (
            listed_head e es rank (largest_hit alpha n (suc rank) rank es)
              (largest_hit_mono alpha n (suc rank) rank es (omega arith))))
    hit_listed e rank hit (f ∷ es) r k (inr i) h =
        elim (Bool-cases (leb f.1 (alpha * of_ℕ rank / of_ℕ n))) [
          | inl small ↦ rw small (
              listed_tail e.0 f es rank (largest_hit alpha n (suc rank) rank es)
                (hit_listed e (suc rank) rank es (omega arith) (omega arith) i h))
          | inr large ↦ rw large (
              listed_tail e.0 f es rank (largest_hit alpha n (suc rank) hit es)
                (hit_listed e (suc rank) hit es (omega arith) (omega arith) i h))
        ]

  Implied-map :
      (rejects : D → Bool) (finds : ℕ × D → Bool) (k : ℕ) (ps : List D)
      → ((e : ℕ × D) → In e (numbered k ps) → rejects e.1 ≡ true → finds e ≡ true)
      → Implied (map rejects ps) (map finds (numbered k ps))
  Implied-map rejects finds k [] h = tt
  Implied-map rejects finds k (p ∷ ps) h =
      (h (k, p) (inl refl), Implied-map rejects finds (suc k) ps (λ e i. h e (inr i)))

  discovered :
      (x : IsExact D) (alpha : D) (ps : List D)
      → of_ℕ 0 < alpha
      → Implied (bonferroni ps alpha) (map (λ e. listed e.0 (discoveries alpha ps)) (numbered 0 ps))
  unfolding bonferroni
  discovered x alpha [] pos = tt
  discovered x alpha (p ∷ ps) pos =
      Implied-map (λ q. leb q (alpha / of_ℕ (length (p ∷ ps))))
        (λ e. listed e.0 (discoveries alpha (p ∷ ps))) 0 (p ∷ ps)
        (λ e i h. rw (sub_one (largest_hit alpha (length (p ∷ ps)) 1 0 (ordered (p ∷ ps)))) at (
          hit_listed x alpha (length (p ∷ ps)) (omega arith) pos e 1 0 (ordered (p ∷ ps))
            (omega arith) (omega arith) (In-sort_by (λ a b. leb a.1 b.1) e (numbered 0 (p ∷ ps)) i)
            h))

  -- In exact arithmetic, when the Benjamini-Hochberg procedure does not raise, it marks every
  -- p-value that the Bonferroni correction marks at the same alpha.
  pub benjamini_hochberg-Implied :
      (x : IsExact D) (ps : List D) (alpha : D) (flags : List Bool)
      → benjamini_hochberg ps alpha ≡ some flags
      → Implied (bonferroni ps alpha) flags
  unfolding benjamini_hochberg
  benjamini_hochberg-Implied x ps alpha flags h = elim (Bool-cases (ltb (of_ℕ 0) alpha)) [
    | inl pos ↦ elim (Bool-cases (leb alpha (of_ℕ 1))) [
      | inl small ↦
          rw (sym (some-injective _ _ (rw (pos, small) at h)))
            (discovered x alpha ps (not-true (leb alpha (of_ℕ 0)) pos))
      | inr large ↦ let e = rw (pos, large) at h in cc
    ]
    | inr zero_or_less ↦ let e = rw zero_or_less at h in cc
  ]
