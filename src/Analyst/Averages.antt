-- ===== src/Analyst/Averages.antt =====
-- The moving averages: the rolling sum is the mean of each window, and a mean stays among its values.
use Prim.Native.Nat.{◌-◌ as sub_ℕ, min as min_ℕ}
use crypto_research_platform.Prelude.{
  ℕ, suc, ◌≤ℕ◌, ◌<ℕ◌, ◌≡◌, refl, sym, ap, ◌∙◌, inl, inr, true, Option, none, some, List, [], ◌∷◌,
  ◌++◌, map, length, take, drop, replicate, All, All-take, All-drop, All-append, All-replicate,
  drop-cons, drop-nil, length-take, arith, ltb as ltb_ℕ, ltb→lt, Bool-cases, if◌then◌else◌,
}
use mathlib.Core.List.{append-nil}
use crypto_research_platform.Decimal.{
  Decimal, IsExact, ◌+◌, ◌-◌, ◌*◌, ◌/◌, ◌≤◌, of_ℕ, sum, IsWithin, add_sub_assoc,
  interpolate-IsWithin, fmean-IsWithin, of_ℕ_pos, of_ℕ_nonneg, div_nonneg,
}
use crypto_research_platform.Analyst.Indicators.{sma_roll, sma_series, ema_run, ema_series}

module _ {D : Type 0} ⦃d : Decimal D⦄ where
  -- The mean of every window of `period` values, oldest first.
  abbrev pub means : ℕ → List D → List D
  means period [] = []
  means period (v ∷ vs) =
      let rest = means period vs in
      if ltb_ℕ (length (v ∷ vs)) period then [] else sum (take period (v ∷ vs)) / of_ℕ period ∷ rest

  means_short : (period : ℕ) (vs : List D) → length vs <ℕ period → means period vs ≡ []
  means_short period [] h = refl
  means_short period (v ∷ vs) h = ground arith

  -- A property of every value that a series has.
  abbrev pub OfReading : (D → Type 0) → Option D → Type 0
  OfReading P none = Unit
  OfReading P (some v) = P v

  pub All-map-some : (P : D → Type 0) (vs : List D) → All P vs → All (OfReading P) (map some vs)
  All-map-some P [] h = tt
  All-map-some P (v ∷ vs) h = (h.0, All-map-some P vs h.1)

  module _ (x : IsExact D) where
    open x use {add_assoc, add_comm, add_zero, add_sub, mul_one, mul_add, le-div, div-le}

    sum-snoc : (vs : List D) (v : D) → sum (vs ++ (v ∷ [])) ≡ sum vs + v
    sum-snoc [] v = add_comm _ _
    sum-snoc (u ∷ vs) v = ap (λ (t : D). u + t) (sum-snoc vs v) ∙ sym (add_assoc u (sum vs) v)

    -- One bar leaves the window and one enters.
    rolled : (u s v : D) → u + s + (v - u) ≡ s + v
    rolled u s v =
        add_sub_assoc x _ v u
        ∙ ap (λ (t : D). t - u) (add_assoc u s v ∙ add_comm u (s + v))
        ∙ add_sub (s + v) u

    sma_roll-eq-means :
        (q : ℕ) (u : D) (us : List D)
        → sma_roll (suc q) (u + sum (take q us)) (drop q us) (u ∷ us) ≡ means (suc q) us
    unfolding sma_roll
    sma_roll-eq-means q u [] = let nothing : List D = [] in rw (drop-nil q nothing (omega arith))
    sma_roll-eq-means q u (w ∷ us) = elim (Bool-cases (ltb_ℕ (length (w ∷ us)) (suc q))) [
      | inl short ↦
          rw (drop-nil q (w ∷ us) (ground arith))
            (sym (means_short (suc q) (w ∷ us) (ltb→lt _ _ short)))
      | inr long ↦
          let (v, d, t) = drop-cons q (w ∷ us) (ground arith) in
          let s : u + sum (take q (w ∷ us)) + (v - u) ≡ w + sum (take q us) =
            rolled u _ v ∙ sym (sum-snoc (take q (w ∷ us)) v) ∙ ap sum (sym t) in
          rw (d, long, s)
            (ap (λ (r : List D). (w + sum (take q us)) / of_ℕ (suc q) ∷ r)
              (sma_roll-eq-means q w us))
    ]

    -- The rolling sum computes the mean of each window: after `period - 1` bars of warm-up, or the
    -- whole series where it is shorter, the moving average at a bar is the mean of the `period` values
    -- that end there. The period is at least one.
    pub sma_series-eq-means :
        (q : ℕ) (values : List D)
        → sma_series values (suc q)
          ≡ replicate (min_ℕ q (length values)) none ++ map some (means (suc q) values)
    unfolding sma_series
    sma_series-eq-means q [] = let e : min_ℕ q 0 ≡ 0 = omega arith in rw (short q, e) refl
      where
        short : (q : ℕ) → ltb_ℕ 0 (suc q) ≡ true
        short q = ground arith
    sma_series-eq-means q (u ∷ us) = elim (Bool-cases (ltb_ℕ (length (u ∷ us)) (suc q))) [
      | inl few ↦
          let e : min_ℕ q (length (u ∷ us)) ≡ length (u ∷ us) = ground arith in
          rw (few, e) (sym (append-nil _))
      | inr enough ↦
          let e : min_ℕ q (length (u ∷ us)) ≡ q = ground arith in
          let p : sub_ℕ (suc q) 1 ≡ q = omega arith in
          rw (enough, e, p, sma_roll-eq-means q u us) refl
    ]

    ema_run-IsWithin :
        (lo hi m c : D) (vs : List D)
        → of_ℕ 0 ≤ m
        → m ≤ of_ℕ 1
        → IsWithin lo hi c
        → All (IsWithin lo hi) vs
        → All (IsWithin lo hi) (ema_run m c vs)
    unfolding ema_run
    ema_run-IsWithin lo hi m c [] h0 h1 hc hv = tt
    ema_run-IsWithin lo hi m c (v ∷ vs) h0 h1 hc hv =
        let next = interpolate-IsWithin x lo hi c v m h0 h1 hc hv.0 in
        (next, ema_run-IsWithin lo hi m ((v - c) * m + c) vs h0 h1 next hv.1)

    -- The multiplier 2 / (period + 1).
    multiplier_bounds :
        (q : ℕ)
        → (of_ℕ {D = D} 0 ≤ of_ℕ 2 / (of_ℕ (suc q) + of_ℕ 1))
          × (of_ℕ 2 / (of_ℕ (suc q) + of_ℕ 1) ≤ of_ℕ {D = D} 1)
    multiplier_bounds q = rw (← x.of_ℕ_suc (suc q)) (
      div_nonneg x _ _ (of_ℕ_pos x _ (omega arith)) (of_ℕ_nonneg x 2),
      div-le _ _ _ (of_ℕ_pos x _ (omega arith)) (
          rw (x.mul_comm (of_ℕ 1) (of_ℕ (suc (suc q))), mul_one (of_ℕ (suc (suc q))))
            (x.of_ℕ_mono 2 (suc (suc q)) (omega arith))),
    )

    -- An exponential moving average never leaves the range of the values that it averages, at any bar
    -- where it is defined. The period is at least one.
    pub ema_series-IsWithin :
        (lo hi : D) (q : ℕ) (values : List D)
        → All (IsWithin lo hi) values
        → All (OfReading (IsWithin lo hi)) (ema_series values (suc q))
    unfolding ema_series
    ema_series-IsWithin lo hi q values h =
        let (m0, m1) = multiplier_bounds q in
        elim (Bool-cases (ltb_ℕ (length values) (suc q))) [
          | inl few ↦ rw few (All-replicate (OfReading (IsWithin lo hi)) (length values) none tt)
          | inr enough ↦
              let first =
                fmean-IsWithin x lo hi (take (suc q) values) (window q values (ground arith))
                  (All-take (IsWithin lo hi) (suc q) values h) in
              rw enough (
                All-append (OfReading (IsWithin lo hi)) (replicate (sub_ℕ (suc q) 1) none) _
                  (All-replicate (OfReading (IsWithin lo hi)) (sub_ℕ (suc q) 1) none tt)
                  (
                    first,
                    All-map-some (IsWithin lo hi) _ (
                        ema_run-IsWithin lo hi _ _ _ m0 m1 first
                          (All-drop (IsWithin lo hi) (suc q) values h)),
                  ))
        ]
      where
        window : (q : ℕ) (vs : List D) → suc q ≤ℕ length vs → 0 <ℕ length (take (suc q) vs)
        window q vs h = omega (arith, length-take (suc q) vs)
