-- ===== src/Portfolio/Accounting.antt =====
-- The cash account: what every operation of the tracker does to cash, realised profit and fees.
use crypto_research_platform.Prelude.{
  String, ◌≡◌, sym, ap, ◌∙◌, inl, Bool, string_eq, inr, Option, none, some, arith, Bool-cases,
}
use crypto_research_platform.Decimal.{Decimal, IsExact, ◌+◌, ◌-◌, sub_sub, sub_right_comm, sub_zero}
use crypto_research_platform.Prelude.Dict.{lookup}
use crypto_research_platform.Schemas.{
  Position, Fill, OrderIntent, same_direction, direction_of_side,
}
use crypto_research_platform.Portfolio.{
  Clock, Tracker, create, mark, roll_day, charge, book_pnl, dispatch, apply_fill,
}

module _ {D : Type 0} ⦃d : Decimal D⦄ where
  -- Cash is the starting equity plus what was realised, less what was paid in fees.
  abbrev pub IsBalanced : Tracker D → Type 0
  IsBalanced t = t.cash ≡ t.starting_equity + t.realized_pnl - t.fees_paid

  module _ (x : IsExact D) where
    open x use {add_assoc, add_zero}

    pub create-IsBalanced : (e : D) (p : Bool) (c : Clock D) → IsBalanced (create e p c)
    unfolding create
    create-IsBalanced e p c = sym (sub_zero x _ ∙ add_zero e)

    pub roll_day-IsBalanced :
        (c : Clock D) (t : Tracker D) → IsBalanced t → IsBalanced (roll_day c t)
    unfolding roll_day
    roll_day-IsBalanced c t h = ground arith

    pub mark-IsBalanced :
        (c : Clock D) (s : String) (p : D) (t : Tracker D)
        → IsBalanced t
        → IsBalanced (mark c s p t).0
    unfolding mark
    mark-IsBalanced c s p t h = ground arith

    pub charge-IsBalanced : (f : Fill D) (t : Tracker D) → IsBalanced t → IsBalanced (charge f t)
    unfolding charge
    charge-IsBalanced f t h = ap (λ (u : D). u - f.fee) h ∙ sub_sub x _ _ _

    pub book_pnl-IsBalanced : (p : D) (t : Tracker D) → IsBalanced t → IsBalanced (book_pnl p t)
    unfolding book_pnl
    book_pnl-IsBalanced p t h =
        ap (λ (u : D). u + p) h
        ∙ sub_right_comm x _ _ _
        ∙ ap (λ (u : D). u - t.fees_paid) (add_assoc t.starting_equity t.realized_pnl p)

    dispatch-IsBalanced :
        (c : Clock D) (f : Fill D) (o : Option (OrderIntent D)) (e : Option (Position D))
        (t : Tracker D)
        → IsBalanced t
        → IsBalanced (dispatch c f o e t).0
    unfolding dispatch
    dispatch-IsBalanced c f o none t h = h
    dispatch-IsBalanced c f o (some p) t h =
        elim (Bool-cases (same_direction p.direction (direction_of_side f.side))) [
          | inl e ↦ rw e h
          | inr e ↦ rw e (book_pnl-IsBalanced _ t h)
        ]

    -- A fill keeps the cash account balanced: if cash was the starting equity plus realised profit less
    -- fees before it, then it is so after it, whatever the fill does to the position.
    pub apply_fill-IsBalanced :
        (c : Clock D) (f : Fill D) (o : Option (OrderIntent D)) (t : Tracker D)
        → IsBalanced t
        → IsBalanced (apply_fill c f o t).0
    unfolding apply_fill
    apply_fill-IsBalanced c f o t h =
        dispatch-IsBalanced c f o (lookup f.symbol (charge f (roll_day c t)).positions)
          (charge f (roll_day c t)) (charge-IsBalanced f (roll_day c t) (roll_day-IsBalanced c t h))
