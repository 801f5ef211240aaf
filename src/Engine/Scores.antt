-- ===== src/Engine/Scores.antt =====
-- trust.py: `record_outcome` and `brier_score`.
use crypto_research_platform.Prelude.{
  ℕ, String, ◌≡◌, ◌⊎◌, sym, ap, ◌∙◌, subst, inl, inr, Bool, true, false, Option, none, some, List,
  [], ◌∷◌, ◌++◌, All, All-drop, All-append, string_eq, Bool-cases, Option-cases,
}
use crypto_research_platform.Prelude.Dict.{lookup, AllValues, insert-AllValues, lookup-AllValues}
use crypto_research_platform.Decimal.{
  Decimal, IsExact, ◌+◌, ◌-◌, ◌*◌, of_ℕ, leb, IsWithin, sub_zero, sub_self, sub_nonneg, sub_le_self,
  add_mul, zero_mul, mul_zero, mul_nonneg, mul_mono_right, sub_add_sub, add_cancel,
}
use crypto_research_platform.Engine.Trust.{
  TrustRegistry, append_bounded, hit, brier_score, record_outcome, scores,
}

module _ {D : Type 0} ⦃d : Decimal D⦄ where
  abbrev pub IsUnit : D → Type 0
  IsUnit s = IsWithin (of_ℕ 0) (of_ℕ 1) s

  -- Every score in every window lies between 0 and 1.
  abbrev pub IsScored : TrustRegistry D → Type 0
  IsScored r = AllValues (λ w. All IsUnit w) r.agents

  -- What recording an outcome comes to: it raises exactly for a forecast that is no probability.
  abbrev pub Records : D → Option (TrustRegistry D × D) → Type 0
  Records forecast none = (leb (of_ℕ 0) forecast ≡ false) ⊎ (leb forecast (of_ℕ 1) ≡ false)
  Records forecast (some (r, score)) = IsUnit forecast × IsUnit score × IsScored r

  append_bounded-IsUnit :
      (n : ℕ) (s : D) (w : List D) → IsUnit s → All IsUnit w → All IsUnit (append_bounded n s w)
  unfolding append_bounded
  append_bounded-IsUnit n s w h k =
      All-drop IsUnit _ (w ++ (s ∷ [])) (All-append IsUnit w (s ∷ []) k (h, tt))

  scores-IsUnit :
      (agent : String) (r : TrustRegistry D)
      → IsScored r
      → All IsUnit (scores (lookup agent r.agents))
  scores-IsUnit agent r h = elim (Option-cases (lookup agent r.agents)) [
    | inl new ↦ rw new tt
    | inr (w, found) ↦ rw found (lookup-AllValues (λ v. All IsUnit v) agent r.agents h found)
  ]

  module _ (x : IsExact D) where
    square-IsUnit : (a : D) → IsUnit a → IsUnit (a * a)
    square-IsUnit a h = (
      mul_nonneg x a a h.0 h.0,
      x.le_trans (a * a) (a * of_ℕ 1) (of_ℕ 1) (mul_mono_right x a (of_ℕ 1) a h.0 h.1)
          (rw (x.mul_one a) h.1),
    )

    -- (a - b)² and (b - a)².
    neg_square : (a b : D) → (a - b) * (a - b) ≡ (b - a) * (b - a)
    neg_square a b =
        let e : (a - b) + (b - a) ≡ of_ℕ 0 = sub_add_sub x a b a ∙ sub_self x a in
        let p = a - b in
        let q = b - a in
        let l : p * p + p * q ≡ of_ℕ 0 = sym (x.mul_add p p q) ∙ ap (λ t. p * t) e ∙ mul_zero x p in
        let r : q * q + p * q ≡ of_ℕ 0 =
          x.add_comm (q * q) (p * q) ∙ sym (add_mul x p q q) ∙ ap (λ t. t * q) e ∙ zero_mul x q in
        add_cancel x (p * p) (q * q) (p * q) (l ∙ sym r)

    brier-IsUnit :
        (forecast : D) (outcome : Bool)
        → IsUnit forecast
        → IsUnit ((forecast - hit outcome) * (forecast - hit outcome))
    brier-IsUnit forecast false h = rw (sub_zero x forecast) (square-IsUnit forecast h)
    brier-IsUnit forecast true h = subst IsUnit (neg_square (of_ℕ 1) forecast) (
        square-IsUnit (of_ℕ 1 - forecast)
          (sub_nonneg x (of_ℕ 1) forecast h.1, sub_le_self x (of_ℕ 1) forecast h.0))

    -- A registry of Brier scores stays one: if every recorded score lies between 0 and 1, recording an
    -- outcome raises exactly when the forecast does not lie between 0 and 1, and otherwise its score and
    -- every score in the windows after it lie there.
    pub record_outcome-Records :
        (agent : String) (forecast : D) (outcome : Bool) (r : TrustRegistry D)
        → IsScored r
        → Records forecast (record_outcome agent forecast outcome r)
    unfolding record_outcome brier_score
    record_outcome-Records agent forecast outcome r h = elim (Bool-cases (leb (of_ℕ 0) forecast)) [
      | inr below ↦ rw below (inl below)
      | inl low ↦ elim (Bool-cases (leb forecast (of_ℕ 1))) [
        | inr above ↦ rw (low, above) (inr above)
        | inl high ↦
            let s = brier-IsUnit forecast outcome (low, high) in
            rw (low, high)
              (
                (low, high),
                s,
                insert-AllValues (λ w. All IsUnit w) agent _ r.agents
                    (append_bounded-IsUnit r.window _ _ s (scores-IsUnit agent r h)) h,
              )
      ]
    ]
