-- ===== src/Broker/Price.antt =====
-- The volume-weighted price of `walk_book`, and what the walk returns.
use crypto_research_platform.Prelude.{◌≡◌, ◌∙◌, ◌⊎◌, inl, inr, List, [], ◌∷◌, arith, Bool-cases}
use crypto_research_platform.Decimal.{
  Decimal, IsExact, ◌+◌, ◌-◌, ◌*◌, ◌/◌, ◌≤◌, ◌<◌, of_ℕ, leb, min, le_refl, le_of_lt, zero_add,
  mul_zero,
}
use crypto_research_platform.Schemas.{BookLevel, size_total}
use crypto_research_platform.Broker.Defs.{filled, walk_levels, priced, walk_book}
use crypto_research_platform.Broker.Walk.{IsBook, IsBetween, walk_levels-IsWalked}

module _ {D : Type 0} ⦃d : Decimal D⦄ where
  -- The notional lies between the size at the lowest and at the highest price.
  abbrev IsWeighted : D → D → D × D → Type 0
  IsWeighted lo hi (notional, got) = (lo * got ≤ notional) × (notional ≤ hi * got)

  module _ (x : IsExact D) where
    open x use {add_comm, le_trans, add_mono, mul_add, mul_comm, le-div, div-le}

    add_le_add : (a b a' b' : D) → a ≤ b → a' ≤ b' → a + a' ≤ b + b'
    add_le_add a b a' b' h k =
        le_trans _ _ _ (add_mono a b a' h) (rw (add_comm b a', add_comm b b') (add_mono a' b' b k))

    IsWeighted-take :
        (lo hi notional got take price : D)
        → of_ℕ 0 ≤ take
        → (lo ≤ price) × (price ≤ hi)
        → IsWeighted lo hi (notional, got)
        → IsWeighted lo hi (notional + take * price, got + take)
    IsWeighted-take lo hi notional got take price ht (hlo, hhi) (below, above) = (
      rw (mul_add lo got take, mul_comm take price)
          (add_le_add _ _ _ _ below (x.mul_mono lo price take ht hlo)),
      rw (mul_add hi got take, mul_comm take price)
          (add_le_add _ _ _ _ above (x.mul_mono price hi take ht hhi)),
    )

    walk_levels-IsWeighted :
        (lo hi : D) (ls : List (BookLevel D)) (remaining notional got : D)
        → IsBetween lo hi ls
        → IsWeighted lo hi (notional, got)
        → IsWeighted lo hi (walk_levels ls remaining notional got)
    unfolding walk_levels
    walk_levels-IsWeighted lo hi [] remaining notional got h w = w
    walk_levels-IsWeighted lo hi (l ∷ ls) remaining notional got h w =
        elim (Bool-cases (leb remaining (of_ℕ 0))) [
          | inl spent ↦ rw spent w
          | inr more ↦ rw more (elim (Bool-cases (leb (min remaining l.size) (of_ℕ 0))) [
            | inl empty ↦ rw empty (walk_levels-IsWeighted lo hi ls remaining notional got h.1 w)
            | inr taken ↦ rw taken (
                walk_levels-IsWeighted lo hi ls (remaining - min remaining l.size)
                  (notional + min remaining l.size * l.price) (got + min remaining l.size) h.1
                  (IsWeighted-take lo hi notional got (min remaining l.size) l.price
                    (le_of_lt x _ _ taken) h.0 w))
          ])
        ]

    -- What a successful walk says of the size and the price that it returns.
    pub record IsFilled (levels : List (BookLevel D)) (size got price : D) : Type 0 where
      pub got_pos : of_ℕ 0 < got
      pub got_le : got ≤ size
      pub complete : (got ≡ size) ⊎ (got ≡ size_total levels)

    priced-filled :
        (r : D × D) {got price : D}
        → priced r ≡ filled (got, price)
        → (of_ℕ 0 < r.1) × (got ≡ r.1) × (price ≡ r.0 / r.1)
    unfolding priced
    priced-filled (n, g) h = ground arith

    -- A walk that fills takes a positive size, at most what was asked; it takes all that was asked or
    -- all that rests on the side. No level rests a negative size, and the size asked is not negative.
    pub walk_book-IsFilled :
        (levels : List (BookLevel D)) (size : D) {got price : D}
        → IsBook levels
        → of_ℕ 0 ≤ size
        → walk_book levels size ≡ filled (got, price)
        → IsFilled levels size got price
    unfolding walk_book
    walk_book-IsFilled [] size hb hs h = cc
    walk_book-IsFilled (l ∷ ls) size hb hs h =
        let r = walk_levels (l ∷ ls) size (of_ℕ 0) (of_ℕ 0) in
        let (pos, e, _) = priced-filled r h in
        let (bound, ended) = walk_levels-IsWalked x (l ∷ ls) size (of_ℕ 0) (of_ℕ 0) hb hs in
        record {
          got_pos = rw e pos;
          got_le = rw (e) (rw (zero_add x size) at bound);
          complete = elim ended [
            | inl all ↦ inl (e ∙ all ∙ zero_add x size)
            | inr deep ↦ inr (e ∙ deep ∙ zero_add x _)
          ];
        }

    -- The price of a walk that fills lies between any two bounds on the prices of the levels.
    pub walk_book_between :
        (lo hi : D) (levels : List (BookLevel D)) (size : D) {got price : D}
        → IsBetween lo hi levels
        → walk_book levels size ≡ filled (got, price)
        → (lo ≤ price) × (price ≤ hi)
    unfolding walk_book
    walk_book_between lo hi [] size k h = cc
    walk_book_between lo hi (l ∷ ls) size k h =
        let r = walk_levels (l ∷ ls) size (of_ℕ 0) (of_ℕ 0) in
        let (pos, _, ep) = priced-filled r h in
        let w =
          walk_levels-IsWeighted lo hi (l ∷ ls) size (of_ℕ 0) (of_ℕ 0) k
            (rw (mul_zero x lo) (le_refl x _), rw (mul_zero x hi) (le_refl x _)) in
        (rw ep (le-div _ _ _ pos w.0), rw ep (div-le _ _ _ pos w.1))

    walked_pos :
        (g size depth : D)
        → of_ℕ 0 < size
        → of_ℕ 0 < depth
        → (g ≡ of_ℕ 0 + size) ⊎ (g ≡ of_ℕ 0 + depth)
        → of_ℕ 0 < g
    walked_pos g size depth hs hd (inl e) = rw (e, zero_add x size) hs
    walked_pos g size depth hs hd (inr e) = rw (e, zero_add x depth) hd

    priced_pos : (r : D × D) → of_ℕ 0 < r.1 → priced r ≡ filled (r.1, r.0 / r.1)
    unfolding priced
    priced_pos (n, g) h = rw h

    -- A positive order against a side with something resting on it is filled, where no level rests a
    -- negative size.
    pub walk_book_fills :
        (levels : List (BookLevel D)) (size : D)
        → IsBook levels
        → of_ℕ 0 < size
        → of_ℕ 0 < size_total levels
        → (w : D × D) × (walk_book levels size ≡ filled w)
    unfolding walk_book size_total
    walk_book_fills [] size hb hs h = absurd (cc (le_refl x (of_ℕ 0)))
    walk_book_fills (l ∷ ls) size hb hs h =
        let r = walk_levels (l ∷ ls) size (of_ℕ 0) (of_ℕ 0) in
        let (_, ended) =
          walk_levels-IsWalked x (l ∷ ls) size (of_ℕ 0) (of_ℕ 0) hb (le_of_lt x _ _ hs) in
        ((r.1, r.0 / r.1), priced_pos r (walked_pos r.1 size _ hs h ended))
