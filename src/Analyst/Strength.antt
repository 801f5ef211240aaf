-- ===== src/Analyst/Strength.antt =====
-- The relative strength index lies in its range.
use Prim.Native.Nat.{◌-◌ as sub_ℕ}
use crypto_research_platform.Prelude.{
  ℕ, suc, ◌≡◌, refl, inl, inr, true, false, none, List, [], ◌∷◌, map, length, take, drop, replicate,
  All, All-append, All-replicate, arith, leb as leb_ℕ, Bool-cases,
}
use crypto_research_platform.Decimal.{
  Decimal, IsExact, ◌+◌, ◌-◌, ◌/◌, ◌≤◌, ◌<◌, of_ℕ, ltb, eqb, sum, IsWithin, div_nonneg, of_ℕ_pos,
  of_ℕ_nonneg, sum_nonneg, add_nonneg, mul_nonneg, sub_nonneg, sub_le_self, le-max_right,
  lt_of_lt_of_le, le_refl, mul_mono_right, add_mono_both,
}
use crypto_research_platform.Analyst.Indicators.{
  gain, loss, changes, rsi_from_averages, smoothed, rsi_run, rsi_series,
}
use crypto_research_platform.Analyst.Averages.{OfReading, All-map-some}

module _ {D : Type 0} ⦃d : Decimal D⦄ (x : IsExact D) where
  open x use {add_comm, mul_comm, mul_one, div-le, le_antisymm, le_trans}

  gain_nonneg : (c : D) → of_ℕ 0 ≤ gain c
  gain_nonneg c = le-max_right x c (of_ℕ 0)

  loss_nonneg : (c : D) → of_ℕ 0 ≤ loss c
  loss_nonneg c = le-max_right x (of_ℕ 0 - c) (of_ℕ 0)

  map_nonneg :
      (f : D → D) → ((c : D) → of_ℕ 0 ≤ f c) → (cs : List D) → All (λ v. of_ℕ 0 ≤ v) (map f cs)
  map_nonneg f h [] = tt
  map_nonneg f h (c ∷ cs) = (h c, map_nonneg f h cs)

  pub smoothed_nonneg :
      (q : ℕ) (average value : D)
      → of_ℕ 0 ≤ average
      → of_ℕ 0 ≤ value
      → of_ℕ 0 ≤ smoothed (suc q) average value
  smoothed_nonneg q average value ha hv =
      div_nonneg x _ _ (of_ℕ_pos x (suc q) (omega arith))
        (add_nonneg x _ _ (mul_nonneg x _ _ ha (of_ℕ_nonneg x (sub_ℕ (suc q) 1))) hv)

  fits : (a b : ℕ) → leb_ℕ a b ≡ true → of_ℕ {D = D} a ≤ of_ℕ b
  fits a b h = x.of_ℕ_mono a b (ground arith)

  loss_pos : (l : D) → of_ℕ 0 ≤ l → eqb l (of_ℕ 0) ≡ false → of_ℕ 0 < l
  loss_pos l h k = ground arith

  rsi_from_averages-IsWithin :
      (g l : D) → of_ℕ 0 ≤ g → of_ℕ 0 ≤ l → IsWithin (of_ℕ 0) (of_ℕ 100) (rsi_from_averages g l)
  unfolding rsi_from_averages
  rsi_from_averages-IsWithin g l hg hl = elim (Bool-cases (eqb l (of_ℕ 0))) [
    | inl flat ↦ rw flat (elim (Bool-cases (ltb (of_ℕ 0) g)) [
      | inl up ↦ rw up (of_ℕ_nonneg x 100, le_refl x _)
      | inr still ↦ rw still (of_ℕ_nonneg x 50, fits 50 100 refl)
    ])
    | inr falls ↦
        let rs = div_nonneg x g l (loss_pos l hl falls) hg in
        let one_le : of_ℕ 1 ≤ of_ℕ 1 + g / l =
          rw (x.add_zero (of_ℕ 1)) at
            (add_mono_both x (of_ℕ 1) (of_ℕ 1) (of_ℕ 0) (g / l) (le_refl x _) rs) in
        let pos = lt_of_lt_of_le x _ _ _ x.zero_lt_one one_le in
        let part = div_nonneg x (of_ℕ 100) _ pos (of_ℕ_nonneg x 100) in
        let whole = div-le (of_ℕ 100) (of_ℕ 100) _ pos (
          rw (mul_one (of_ℕ 100)) at
            (mul_mono_right x _ _ (of_ℕ 100) (of_ℕ_nonneg x 100) one_le)) in
        rw falls (sub_nonneg x _ _ whole, sub_le_self x _ _ part)
  ]

  rsi_run-IsWithin :
      (q : ℕ) (g l : D) (cs : List D)
      → of_ℕ 0 ≤ g
      → of_ℕ 0 ≤ l
      → All (IsWithin (of_ℕ 0) (of_ℕ 100)) (rsi_run (suc q) g l cs)
  unfolding rsi_run
  rsi_run-IsWithin q g l [] hg hl = tt
  rsi_run-IsWithin q g l (c ∷ cs) hg hl =
      let g' = smoothed_nonneg q g (gain c) hg (gain_nonneg c) in
      let l' = smoothed_nonneg q l (loss c) hl (loss_nonneg c) in
      (
        rsi_from_averages-IsWithin _ _ g' l',
        rsi_run-IsWithin q (smoothed (suc q) g (gain c)) (smoothed (suc q) l (loss c)) cs g' l',
      )

  average_nonneg : (q : ℕ) (vs : List D) → All (λ v. of_ℕ 0 ≤ v) vs → of_ℕ 0 ≤ sum vs / of_ℕ (suc q)
  average_nonneg q vs h = div_nonneg x _ _ (of_ℕ_pos x (suc q) (omega arith)) (sum_nonneg x vs h)

  -- The relative strength index is from 0 to 100 at every bar where it is defined, whatever the closes,
  -- a window with no loss included. The period is at least one.
  pub rsi_series-IsWithin :
      (q : ℕ) (values : List D)
      → All (OfReading (IsWithin (of_ℕ 0) (of_ℕ 100))) (rsi_series values (suc q))
  unfolding rsi_series
  rsi_series-IsWithin q values =
      let P = OfReading (IsWithin (of_ℕ 0) (of_ℕ {D = D} 100)) in
      let first = take (suc q) (changes values) in
      let g = average_nonneg q (map gain first) (map_nonneg gain gain_nonneg first) in
      let l = average_nonneg q (map loss first) (map_nonneg loss loss_nonneg first) in
      elim (Bool-cases (leb_ℕ (length values) (suc q))) [
        | inl few ↦ rw few (All-replicate P (length values) none tt)
        | inr enough ↦ rw enough (
            All-append P (replicate (suc q) none) _ (All-replicate P (suc q) none tt) (
              rsi_from_averages-IsWithin _ _ g l,
              All-map-some (IsWithin (of_ℕ 0) (of_ℕ 100)) _
                  (rsi_run-IsWithin q _ _ (drop (suc q) (changes values)) g l),
            ))
      ]
