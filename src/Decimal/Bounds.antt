-- ===== src/Decimal/Bounds.antt =====
-- Ranges: which operations stay within one.
use Prim.Native.Nat.{ℕ}
use Prim.Native.Nat.{◌<◌ as lt_ℕ}
use mathlib.Core.List.{List, [], ◌∷◌}
use crypto_research_platform.Prelude.{◌≡◌, sym, ap, ◌∙◌, arith, length, All}
use crypto_research_platform.Decimal.Defs.{
  Decimal, IsExact, ◌+◌, ◌-◌, ◌*◌, ◌/◌, ◌≤◌, ◌<◌, of_ℕ, max, min,
}
use crypto_research_platform.Decimal.Sums.{sum, fmean}
use crypto_research_platform.Decimal.Laws.{
  le_refl, lt_of_lt_of_le, zero_add, sub_self, zero_mul, mul_zero, add_mul, sub_nonneg, sub_add_sub,
  sub_mono, mul_mono_right, le_of_add_le_add,
}

module _ {D : Type 0} ⦃d : Decimal D⦄ where
  abbrev pub IsWithin : D → D → D → Type 0
  IsWithin lo hi a = (lo ≤ a) × (a ≤ hi)

  pub max-le : (a b c : D) → a ≤ c → b ≤ c → max a b ≤ c
  max-le a b c h k = ground arith

  pub le-min : (a b c : D) → c ≤ a → c ≤ b → c ≤ min a b
  le-min a b c h k = ground arith

  module _ (x : IsExact D) where
    open x use {
      add_comm, add_zero, add_assoc, sub_add, mul_one, mul_add, le_trans, add_mono, mul_mono,
      of_ℕ_suc, le-div, div-le,
    }

    pub add_mono_both : (a b c e : D) → a ≤ b → c ≤ e → a + c ≤ b + e
    add_mono_both a b c e h k =
        le_trans _ _ _ (add_mono a b c h) (rw (add_comm b c, add_comm b e) (add_mono c e b k))

    pub of_ℕ_nonneg : (n : ℕ) → of_ℕ {D = D} 0 ≤ of_ℕ n
    of_ℕ_nonneg n = x.of_ℕ_mono 0 n (omega arith)

    pub of_ℕ_pos : (n : ℕ) → lt_ℕ 0 n → of_ℕ {D = D} 0 < of_ℕ n
    of_ℕ_pos n h = lt_of_lt_of_le x _ _ _ x.zero_lt_one (x.of_ℕ_mono 1 n (omega arith))

    pub div_nonneg : (a b : D) → of_ℕ 0 < b → of_ℕ 0 ≤ a → of_ℕ 0 ≤ a / b
    div_nonneg a b hb ha = le-div _ _ _ hb (rw (zero_mul x b) ha)

    -- Part of the way from one value in a range to another stays in it.
    pub interpolate-IsWithin :
        (lo hi c v m : D)
        → of_ℕ 0 ≤ m
        → m ≤ of_ℕ 1
        → IsWithin lo hi c
        → IsWithin lo hi v
        → IsWithin lo hi ((v - c) * m + c)
    interpolate-IsWithin lo hi c v m hm hm1 hc hv = (
      le_trans _ _ _ (lower (sub_nonneg x c lo hc.0))
          (add_mono _ _ c (mul_mono _ _ m hm (sub_mono x lo v c hv.0))),
      rw (mul_one (hi - c), sub_add hi c) at
          (add_mono _ _ c (
            le_trans _ _ _ (mul_mono _ _ m hm (sub_mono x v hi c hv.1))
              (mul_mono_right x m (of_ℕ 1) (hi - c) (sub_nonneg x hi c hc.1) hm1))),
    )
      where
        back : (lo - c) * m + c + (c - lo) * m ≡ c
        back =
            add_assoc _ _ _
            ∙ ap (λ (t : D). (lo - c) * m + t) (add_comm c _)
            ∙ sym (add_assoc _ _ c)
            ∙ ap (λ (t : D). t + c)
                (sym (add_mul x _ _ m)
                  ∙ ap (λ (t : D). t * m) (sub_add_sub x lo c lo ∙ sub_self x lo)
                  ∙ zero_mul x m)
            ∙ zero_add x c

        lower : of_ℕ 0 ≤ c - lo → lo ≤ (lo - c) * m + c
        lower h = le_of_add_le_add x _ _ ((c - lo) * m) (
            rw (back) (
              rw (mul_one (c - lo), add_comm lo (c - lo), sub_add c lo) at
                (rw (add_comm ((c - lo) * m) lo, add_comm ((c - lo) * of_ℕ 1) lo) at
                  (add_mono _ _ lo (mul_mono_right x m (of_ℕ 1) (c - lo) h hm1)))))

    sum_bounds :
        (lo hi : D) (xs : List D)
        → All (IsWithin lo hi) xs
        → (lo * of_ℕ (length xs) ≤ sum xs) × (sum xs ≤ hi * of_ℕ (length xs))
    sum_bounds lo hi [] h = (rw (mul_zero x lo) (le_refl x _), rw (mul_zero x hi) (le_refl x _))
    sum_bounds lo hi (v ∷ xs) h =
        let (l, u) = sum_bounds lo hi xs h.1 in
        (
          rw (of_ℕ_suc (length xs), mul_add lo, mul_one lo, add_comm _ lo)
              (add_mono_both _ _ _ _ h.0.0 l),
          rw (of_ℕ_suc (length xs), mul_add hi, mul_one hi, add_comm _ hi)
              (add_mono_both _ _ _ _ h.0.1 u),
        )

    -- A mean lies where the values lie.
    pub fmean-IsWithin :
        (lo hi : D) (xs : List D)
        → lt_ℕ 0 (length xs)
        → All (IsWithin lo hi) xs
        → IsWithin lo hi (fmean xs)
    fmean-IsWithin lo hi xs n h =
        let (l, u) = sum_bounds lo hi xs h in
        (le-div _ _ _ (of_ℕ_pos _ n) l, div-le _ _ _ (of_ℕ_pos _ n) u)

    pub sum_nonneg : (xs : List D) → All (λ v. of_ℕ 0 ≤ v) xs → of_ℕ 0 ≤ sum xs
    sum_nonneg [] h = le_refl x _
    sum_nonneg (v ∷ xs) h =
        rw (zero_add x (of_ℕ 0)) at (add_mono_both _ _ _ _ h.0 (sum_nonneg xs h.1))
