-- ===== src/Portfolio/Equity.antt =====
-- What a fill does to equity: it is as if the position were marked at the fill's price and the fee paid.
use crypto_research_platform.Prelude.{
  String, ◌≡◌, refl, sym, ap, subst, ◌∙◌, inl, inr, Bool, true, false, Option, none, some, arith,
  Bool-cases, string_eq,
}
use crypto_research_platform.Prelude.Dict.{Dict, IsUnique, lookup, insert}
use crypto_research_platform.Decimal.{
  Decimal, IsExact, ◌+◌, ◌-◌, ◌<◌, of_ℕ, add_cancel, add_right_comm, sub_right_comm,
}
use crypto_research_platform.Schemas.{
  Position, Fill, OrderIntent, same_direction, direction_of_side, unrealized_pnl,
}
use crypto_research_platform.Portfolio.{
  Clock, Tracker, mark, roll_day, charge, dispatch, apply_fill, add_fill, equity, total_unrealized,
  sum_of,
}
use crypto_research_platform.Portfolio.Sums.{sum_of-insert}
use crypto_research_platform.Portfolio.Settle.{
  IsExactEntry, remarked, unrealized_fresh, unrealized_add, insert_fresh, reduce_positions_settle,
}

module _ {D : Type 0} ⦃d : Decimal D⦄ where
  abbrev ExactIf : Bool → Fill D → Position D → Type 0
  ExactIf true f p = IsExactEntry f p
  ExactIf false f p = Unit

  -- Where the fill extends the position, its average entry is exact.
  abbrev pub IsExactAverage : Fill D → Option (Position D) → Type 0
  IsExactAverage f none = Unit
  IsExactAverage f (some p) = ExactIf (same_direction p.direction (direction_of_side f.side)) f p

  module _ (x : IsExact D) where
    open x use {
      add_assoc, add_comm, mul_comm, mul_add, sub_add, add_sub, mul_assoc, le_antisymm, le_total,
    }

    -- The equity of the tracker whose position was marked at the fill's price.
    equity-mark :
        (c : Clock D) (f : Fill D) {p : Position D} (t : Tracker D)
        → of_ℕ 0 < f.price
        → lookup f.symbol t.positions ≡ some p
        → equity (mark c f.symbol f.price t).0
          ≡ t.cash + sum_of unrealized_pnl (insert f.symbol (remarked c f p) t.positions)
    unfolding mark equity total_unrealized
    equity-mark c f t pos h = rw pos (rw h refl)

    equity-mark-none :
        (c : Clock D) (f : Fill D) (t : Tracker D)
        → lookup f.symbol t.positions ≡ none
        → equity (mark c f.symbol f.price t).0 ≡ equity t
    unfolding mark equity total_unrealized
    equity-mark-none c f t h = ground arith

    replace_same :
        (k : String) (v w : Position D) {old : Position D} (ps : Dict String (Position D))
        → lookup k ps ≡ some old
        → unrealized_pnl v ≡ unrealized_pnl w
        → sum_of unrealized_pnl (insert k v ps) ≡ sum_of unrealized_pnl (insert k w ps)
    replace_same k v w {old} ps h e = add_cancel x _ _ (unrealized_pnl old) (
        sum_of-insert x unrealized_pnl k v ps h
        ∙ ap (λ (t : D). sum_of unrealized_pnl ps + t) e
        ∙ sym (sum_of-insert x unrealized_pnl k w ps h))

    add_fill_settles :
        (c : Clock D) (f : Fill D) (p : Position D) (t : Tracker D)
        → lookup f.symbol t.positions ≡ some p
        → IsExactEntry f p
        → equity (add_fill c p f t)
          ≡ t.cash + sum_of unrealized_pnl (insert f.symbol (remarked c f p) t.positions)
    unfolding add_fill equity total_unrealized unrealized_pnl
    add_fill_settles c f p t h a =
        ap (λ (s : D). t.cash + s)
          (replace_same f.symbol _ _ t.positions h (unrealized_add x c p f a))

    equity-dispatch :
        (c : Clock D) (f : Fill D) (o : Option (OrderIntent D)) (e : Option (Position D))
        (t : Tracker D)
        → of_ℕ 0 < f.price
        → IsUnique t.positions
        → lookup f.symbol t.positions ≡ e
        → IsExactAverage f e
        → equity (dispatch c f o e t).0 ≡ equity (mark c f.symbol f.price t).0
    unfolding dispatch equity total_unrealized
    equity-dispatch c f o none t pos u h a =
        ap (λ (s : D). t.cash + s)
          (insert_fresh x f.symbol _ t.positions (unrealized_fresh x _ refl) h)
        ∙ sym (equity-mark-none c f t h)
    equity-dispatch c f o (some p) t pos u h a =
        elim (Bool-cases (same_direction p.direction (direction_of_side f.side))) [
          | inl same ↦
              rw same (add_fill_settles c f p t h (rw (same) at a) ∙ sym (equity-mark c f t pos h))
          | inr other ↦ rw other (
              add_right_comm x _ _ _
              ∙ add_assoc _ _ _
              ∙ ap (λ (s : D). t.cash + s)
                  (reduce_positions_settle x c f p (direction_of_side f.side) t.positions u h)
              ∙ sym (equity-mark c f t pos h))
        ]

    charged_positions :
        (c : Clock D) (f : Fill D) (t : Tracker D)
        → (charge f (roll_day c t)).positions ≡ t.positions
    unfolding charge roll_day
    charged_positions c f t = ground arith

    charged_cash :
        (c : Clock D) (f : Fill D) (t : Tracker D) → (charge f (roll_day c t)).cash ≡ t.cash - f.fee
    unfolding charge roll_day
    charged_cash c f t = ground arith

    equity_parts :
        (t t' : Tracker D) (fee : D)
        → t'.positions ≡ t.positions
        → t'.cash ≡ t.cash - fee
        → equity t' ≡ equity t - fee
    unfolding equity total_unrealized
    equity_parts t t' fee hp hc = rw (hp, hc) (sub_right_comm x _ _ _)

    equity-mark_charged :
        (c : Clock D) (f : Fill D) (e : Option (Position D)) (t t' : Tracker D)
        → of_ℕ 0 < f.price
        → lookup f.symbol t.positions ≡ e
        → t'.positions ≡ t.positions
        → t'.cash ≡ t.cash - f.fee
        → equity (mark c f.symbol f.price t').0 ≡ equity (mark c f.symbol f.price t).0 - f.fee
    equity-mark_charged c f none t t' pos h hp hc =
        equity-mark-none c f t' (ap (lookup f.symbol) hp ∙ h)
        ∙ equity_parts t t' f.fee hp hc
        ∙ ap (λ (u : D). u - f.fee) (sym (equity-mark-none c f t h))
    equity-mark_charged c f (some p) t t' pos h hp hc =
        equity-mark c f t' pos (ap (lookup f.symbol) hp ∙ h)
        ∙ (rw (hp, hc) (sub_right_comm x _ _ _))
        ∙ ap (λ (u : D). u - f.fee) (sym (equity-mark c f t pos h))

    -- Applying a fill of positive price changes equity as marking the position at that price would,
    -- less the fee, whether the fill opens, extends, reduces, closes or flips a position; where it
    -- extends one, the division in the average entry must have been exact.
    pub equity-apply_fill :
        (c : Clock D) (f : Fill D) (o : Option (OrderIntent D)) (t : Tracker D)
        → of_ℕ 0 < f.price
        → IsUnique t.positions
        → IsExactAverage f (lookup f.symbol t.positions)
        → equity (apply_fill c f o t).0 ≡ equity (mark c f.symbol f.price t).0 - f.fee
    unfolding apply_fill
    equity-apply_fill c f o t pos u a =
        let t' = charge f (roll_day c t) in
        let hp = charged_positions c f t in
        equity-dispatch c f o (lookup f.symbol t'.positions) t' pos (subst IsUnique (sym hp) u) refl
          (subst (λ ps. IsExactAverage f (lookup f.symbol ps)) (sym hp) a)
        ∙ equity-mark_charged c f (lookup f.symbol t.positions) t t' pos refl hp
            (charged_cash c f t)
