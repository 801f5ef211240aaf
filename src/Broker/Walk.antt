-- ===== src/Broker/Walk.antt =====
-- What `walk_book` consumes, and between which prices.
use crypto_research_platform.Prelude.{
  ◌≡◌, sym, ap, ◌∙◌, ◌⊎◌, inl, inr, true, false, List, [], ◌∷◌, All, arith, Bool-cases,
}
use crypto_research_platform.Decimal.{
  Decimal, IsExact, ◌+◌, ◌-◌, ◌*◌, ◌≤◌, ◌<◌, of_ℕ, leb, ltb, min, le_refl, zero_add, add_nonneg,
  sub_nonneg, min-le_left,
}
use crypto_research_platform.Schemas.{BookLevel, size_total}
use crypto_research_platform.Broker.Defs.{walk_levels}

module _ {D : Type 0} ⦃d : Decimal D⦄ where
  -- No level rests a negative size.
  abbrev pub IsBook : List (BookLevel D) → Type 0
  IsBook = All λ l. of_ℕ 0 ≤ l.size

  -- Every price lies between two bounds.
  abbrev pub IsBetween : D → D → List (BookLevel D) → Type 0
  IsBetween lo hi = All λ l. (lo ≤ l.price) × (l.price ≤ hi)

  module _ (x : IsExact D) where
    open x use {
      add_assoc, add_comm, add_zero, sub_add, le_trans, le_antisymm, add_mono, mul_mono, mul_add,
      mul_comm,
    }

    size_total_nonneg : (ls : List (BookLevel D)) → IsBook ls → of_ℕ 0 ≤ size_total ls
    unfolding size_total
    size_total_nonneg [] h = le_refl x _
    size_total_nonneg (l ∷ ls) h = add_nonneg x _ _ h.0 (size_total_nonneg ls h.1)

    le_add : (a b : D) → of_ℕ 0 ≤ b → a ≤ a + b
    le_add a b h = rw (zero_add x a, add_comm b a) at (add_mono (of_ℕ 0) b a h)

    -- What the loop has consumed when it ends.
    abbrev pub IsWalked : D → D → D → D → Type 0
    IsWalked got remaining depth g =
        (g ≤ got + remaining) × ((g ≡ got + remaining) ⊎ (g ≡ got + depth))

    add_take : (got remaining take : D) → got + take + (remaining - take) ≡ got + remaining
    add_take got remaining take =
        add_assoc _ _ _ ∙ ap (λ (t : D). got + t) (add_comm take _ ∙ sub_add remaining take)

    IsWalked-take :
        (got remaining size rest g : D)
        → of_ℕ 0 ≤ rest
        → IsWalked (got + min remaining size) (remaining - min remaining size) rest g
        → IsWalked got remaining (size + rest) g
    IsWalked-take got remaining size rest g hr (bound, ended) =
        let e = add_take got remaining (min remaining size) in
        let top : g ≤ got + remaining = rw e at bound in
        (
          top,
          elim ended [
            | inl all ↦ inl (all ∙ e)
            | inr deep ↦ elim (Bool-cases (ltb size remaining)) [
              | inl less ↦ inr (
                  deep ∙ ap (λ (t : D). got + t + rest) (rest_taken less) ∙ add_assoc got size rest)
              | inr more ↦ inl (
                  le_antisymm _ _ top (
                    rw (deep ∙ ap (λ (t : D). got + t + rest) (all_taken more))
                      (le_add (got + remaining) rest hr)))
            ]
          ],
        )
      where
        rest_taken : ltb size remaining ≡ true → min remaining size ≡ size
        rest_taken h = rw h

        all_taken : ltb size remaining ≡ false → min remaining size ≡ remaining
        all_taken h = rw h

    IsWalked-skip :
        (got remaining size rest g : D)
        → of_ℕ 0 < remaining
        → of_ℕ 0 ≤ size
        → min remaining size ≤ of_ℕ 0
        → IsWalked got remaining rest g
        → IsWalked got remaining (size + rest) g
    IsWalked-skip got remaining size rest g hr hs hm w =
        let none_there : size ≡ of_ℕ 0 = le_antisymm _ _ (ground arith) hs in
        rw (none_there, zero_add x rest) w

    pub walk_levels-IsWalked :
        (ls : List (BookLevel D)) (remaining notional got : D)
        → IsBook ls
        → of_ℕ 0 ≤ remaining
        → IsWalked got remaining (size_total ls) (walk_levels ls remaining notional got).1
    unfolding walk_levels size_total
    walk_levels-IsWalked [] remaining notional got h hr = (le_add _ _ hr, inr (sym (add_zero got)))
    walk_levels-IsWalked (l ∷ ls) remaining notional got h hr =
        elim (Bool-cases (leb remaining (of_ℕ 0))) [
          | inl spent ↦ rw spent (
            le_add _ _ hr,
            inl (sym (ap (λ (t : D). got + t) (le_antisymm _ _ spent hr) ∙ add_zero got)),
          )
          | inr more ↦ rw more (elim (Bool-cases (leb (min remaining l.size) (of_ℕ 0))) [
            | inl empty ↦ rw empty (
                IsWalked-skip got remaining l.size (size_total ls) _ more h.0 empty
                  (walk_levels-IsWalked ls remaining notional got h.1 hr))
            | inr taken ↦ rw taken (
                IsWalked-take got remaining l.size (size_total ls) _ (size_total_nonneg ls h.1) (
                  walk_levels-IsWalked ls (remaining - min remaining l.size)
                    (notional + min remaining l.size * l.price) (got + min remaining l.size) h.1
                    (sub_nonneg x _ _ (min-le_left x _ _))))
          ])
        ]
