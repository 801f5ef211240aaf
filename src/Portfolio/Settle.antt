-- ===== src/Portfolio/Settle.antt =====
-- One position of a fill: what it is worth, with what was realised, as marked at the fill's price.
use crypto_research_platform.Prelude.{
  String, ◌≡◌, refl, sym, ap, ◌∙◌, inl, inr, false, none, some, arith, Bool-cases, string_eq,
  ==_refl,
}
use crypto_research_platform.Prelude.Dict.{Dict, IsUnique, lookup, insert, erase, lookup-erase}
use crypto_research_platform.Decimal.{
  Decimal, IsExact, ◌+◌, ◌-◌, ◌*◌, of_ℕ, min, ltb, sub_self, zero_mul, add_mul, sub_mul, add_cancel,
  add_right_comm, min-le_left,
}
use crypto_research_platform.Schemas.{Position, Fill, Direction, sign, unrealized_pnl}
use crypto_research_platform.Portfolio.{Clock, average_entry, realised, reduce_positions, sum_of}
use crypto_research_platform.Portfolio.Sums.{sum_of-insert_new, sum_of-insert, sum_of-erase}

module _ {D : Type 0} ⦃d : Decimal D⦄ where
  -- The weighted average entry is exact: no digit was lost in the division.
  abbrev pub IsExactEntry : Fill D → Position D → Type 0
  IsExactEntry f p =
      average_entry p f * (p.size + f.size) ≡ p.entry_price * p.size + f.price * f.size

  abbrev pub remarked : Clock D → Fill D → Position D → Position D
  remarked c f p = record p { mark_price = f.price; updated_at = c.now }

  module _ (x : IsExact D) where
    open x use {
      add_assoc, add_comm, mul_comm, mul_add, sub_add, add_sub, mul_assoc, le_antisymm, le_total,
    }

    -- One position.
    pub unrealized_fresh :
        (p : Position D) → p.mark_price ≡ p.entry_price → unrealized_pnl p ≡ of_ℕ 0
    unfolding unrealized_pnl
    unrealized_fresh p h = rw (h, sub_self x, zero_mul x, zero_mul x)

    pub unrealized_add :
        (c : Clock D) (p : Position D) (f : Fill D)
        → IsExactEntry f p
        → (f.price - average_entry p f) * (p.size + f.size) * sign p.direction
          ≡ (f.price - p.entry_price) * p.size * sign p.direction
    unrealized_add c p f h =
        ap (λ (t : D). t * sign p.direction)
          (sub_mul x _ _ _
            ∙ ap (λ (t : D). f.price * (p.size + f.size) - t) h
            ∙ ap (λ (t : D). t - (p.entry_price * p.size + f.price * f.size)) (mul_add _ _ _)
            ∙ cancel (f.price * p.size) (p.entry_price * p.size) (f.price * f.size)
            ∙ sym (sub_mul x _ _ _))
      where
        cancel : (a b c : D) → (a + c) - (b + c) ≡ a - b
        cancel a b c =
            add_cancel x _ _ (b + c)
              (sub_add _ _ ∙ ap (λ (t : D). t + c) (sym (sub_add a b)) ∙ add_assoc _ b c)

    unrealized_split : (q a b s : D) → q * b * s + q * (a - b) * s ≡ q * a * s
    unrealized_split q a b s =
        sym (add_mul x _ _ s)
        ∙ ap (λ (t : D). t * s)
            (sym (mul_add q b (a - b)) ∙ ap (λ (t : D). q * t) (add_comm b (a - b) ∙ sub_add a b))

    -- The positions after a fill against the position, with what was realised, are worth the
    -- positions as marked at the fill's price.
    marked_sum :
        (c : Clock D) (f : Fill D) (p : Position D) (ps : Dict String (Position D))
        → lookup f.symbol ps ≡ some p
        → sum_of unrealized_pnl (insert f.symbol (remarked c f p) ps) + unrealized_pnl p
          ≡ sum_of unrealized_pnl ps + unrealized_pnl (remarked c f p)
    marked_sum c f p ps h = sum_of-insert x unrealized_pnl f.symbol (remarked c f p) ps h

    reduce_part :
        (c : Clock D) (f : Fill D) (p p' : Position D) (pnl : D) (ps : Dict String (Position D))
        → lookup f.symbol ps ≡ some p
        → pnl + unrealized_pnl p' ≡ unrealized_pnl (remarked c f p)
        → sum_of unrealized_pnl (insert f.symbol p' ps) + pnl
          ≡ sum_of unrealized_pnl (insert f.symbol (remarked c f p) ps)
    reduce_part c f p p' pnl ps h e = add_cancel x _ _ (unrealized_pnl p) (
        add_right_comm x _ _ _
        ∙ ap (λ (t : D). t + pnl) (sum_of-insert x unrealized_pnl f.symbol p' ps h)
        ∙ add_assoc _ _ _
        ∙ ap (λ (t : D). sum_of unrealized_pnl ps + t) (add_comm _ pnl ∙ e)
        ∙ sym (marked_sum c f p ps h))

    reduce_whole :
        (c : Clock D) (f : Fill D) (p : Position D) (pnl : D) (ps : Dict String (Position D))
        → IsUnique ps
        → lookup f.symbol ps ≡ some p
        → pnl ≡ unrealized_pnl (remarked c f p)
        → sum_of unrealized_pnl (erase f.symbol ps) + pnl
          ≡ sum_of unrealized_pnl (insert f.symbol (remarked c f p) ps)
    reduce_whole c f p pnl ps u h e = add_cancel x _ _ (unrealized_pnl p) (
        add_right_comm x _ _ _
        ∙ ap (λ (t : D). t + pnl) (sum_of-erase x unrealized_pnl f.symbol ps u h)
        ∙ ap (λ (t : D). sum_of unrealized_pnl ps + t) e
        ∙ sym (marked_sum c f p ps h))

    lookup-erase_self : (k : String) (ps : Dict String (Position D)) → lookup k (erase k ps) ≡ none
    lookup-erase_self k ps = rw (lookup-erase, ==_refl k)

    pub insert_fresh :
        (k : String) (v : Position D) (ps : Dict String (Position D))
        → unrealized_pnl v ≡ of_ℕ 0
        → lookup k ps ≡ none
        → sum_of unrealized_pnl (insert k v ps) ≡ sum_of unrealized_pnl ps
    insert_fresh k v ps z h = sum_of-insert_new x unrealized_pnl k v ps h ∙ rw (z, x.add_zero)

    min_eq_left : (a b : D) → ltb (min a b) a ≡ false → min a b ≡ a
    min_eq_left a b h = le_antisymm _ _ (min-le_left x a b) (ground arith)

    realised_part :
        (c : Clock D) (f : Fill D) (p p' : Position D)
        → p'.size ≡ p.size - min p.size f.size
        → p'.mark_price ≡ f.price
        → p'.entry_price ≡ p.entry_price
        → p'.direction ≡ p.direction
        → realised p f + unrealized_pnl p' ≡ unrealized_pnl (remarked c f p)
    unfolding realised unrealized_pnl
    realised_part c f p p' hs hm he hd =
        rw (hs, hm, he, hd)
          (unrealized_split (f.price - p.entry_price) p.size (min p.size f.size) (sign p.direction))

    realised_whole :
        (c : Clock D) (f : Fill D) (p : Position D)
        → ltb (min p.size f.size) p.size ≡ false
        → realised p f ≡ unrealized_pnl (remarked c f p)
    unfolding realised unrealized_pnl
    realised_whole c f p h =
        ap (λ (t : D). (f.price - p.entry_price) * t * sign p.direction)
          (min_eq_left p.size f.size h)

    pub reduce_positions_settle :
        (c : Clock D) (f : Fill D) (p : Position D) (dir : Direction)
        (ps : Dict String (Position D))
        → IsUnique ps
        → lookup f.symbol ps ≡ some p
        → sum_of unrealized_pnl (reduce_positions c p f dir ps) + realised p f
          ≡ sum_of unrealized_pnl (insert f.symbol (remarked c f p) ps)
    unfolding reduce_positions
    reduce_positions_settle c f p dir ps u h = elim (Bool-cases (ltb (min p.size f.size) p.size)) [
      | inl part ↦
          rw part
            (reduce_part c f p _ (realised p f) ps h (realised_part c f p _ refl refl refl refl))
      | inr whole ↦
          let closed = reduce_whole c f p (realised p f) ps u h (realised_whole c f p whole) in
          rw whole (elim (Bool-cases (ltb (of_ℕ 0) (f.size - min p.size f.size))) [
            | inl flip ↦ rw flip (
                ap (λ (t : D). t + realised p f)
                  (insert_fresh f.symbol _ (erase f.symbol ps) (unrealized_fresh _ refl)
                    (lookup-erase_self f.symbol ps))
                ∙ closed)
            | inr done ↦ rw done closed
          ])
    ]
