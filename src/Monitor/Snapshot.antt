-- ===== src/Monitor/Snapshot.antt =====
-- `_reconcile`: a snapshot keeps the table in step with the guards.
use crypto_research_platform.Prelude.{
  String, ◌≡◌, refl, sym, ◌∙◌, inl, inr, Option, none, some, List, [], ◌∷◌, ◌++◌, All, Bool-cases,
  string_eq, nat_eq, ◌==◌,
}
use crypto_research_platform.Prelude.Dict.{Dict, lookup, insert}
use crypto_research_platform.Decimal.{Decimal}
use crypto_research_platform.Schemas.{Position, PortfolioSnapshot}
use crypto_research_platform.Monitor.Guard.{ProtectedPosition, from_position}
use crypto_research_platform.Monitor.Defs.{
  Monitor, Write, forget, live_positions, drop_one, drop_closed, adopted, adopt_one, adopt_all,
  reconcile,
}
use crypto_research_platform.Monitor.Rows.{written, all_written}
use crypto_research_platform.Monitor.Mirror.{Table, IsStored, save-IsStored, forget-IsStored}

module _ {D : Type 0} ⦃d : Decimal D⦄ where
  abbrev pub Kept : D → Table D → Monitor D × List (Write D) → Type 0
  Kept now table r = IsStored r.0.positions (all_written now r.1 table)

  -- A snapshot.
  all_written-append :
      (now : D) (ws vs : List (Write D)) (table : Table D)
      → all_written now (ws ++ vs) table ≡ all_written now vs (all_written now ws table)
  all_written-append now [] vs table = refl
  all_written-append now (w ∷ ws) vs table = all_written-append now ws vs (written now w table)

  drop_one-IsStored :
      (now : D) (symbol : String) (live : Option (Position D)) (m : Monitor D) (table : Table D)
      → IsStored m.positions table
      → Kept now table (drop_one symbol live m)
  unfolding forget
  drop_one-IsStored now symbol none m table h = forget-IsStored symbol m.positions table h
  drop_one-IsStored now symbol (some p) m table h = h

  drop_closed-IsStored :
      (now : D) (tracked : Dict String (ProtectedPosition D)) (live : Dict String (Position D))
      (m : Monitor D) (table : Table D)
      → IsStored m.positions table
      → Kept now table (drop_closed tracked live m)
  unfolding drop_closed
  drop_closed-IsStored now [] live m table h = h
  drop_closed-IsStored now ((symbol, _) ∷ tracked) live m table h =
      let r = drop_one symbol (lookup symbol live) m in
      rw (all_written-append now r.1 (drop_closed tracked live r.0).1 table) (
        drop_closed-IsStored now tracked live r.0 (all_written now r.1 table)
          (drop_one-IsStored now symbol (lookup symbol live) m table h))

  abbrev IsOwn : String × Position D → Type 0
  IsOwn (symbol, p) = p.symbol ≡ symbol

  insert-IsOwn :
      (symbol : String) (p : Position D) (live : Dict String (Position D))
      → p.symbol ≡ symbol
      → All IsOwn live
      → All IsOwn (insert symbol p live)
  unfolding insert
  insert-IsOwn symbol p [] e h = (e, tt)
  insert-IsOwn symbol p ((other, w) ∷ live) e h = elim (Bool-cases (other == symbol)) [
    | inl here ↦ rw here (e ∙ sym ((string_eq.same_iff other symbol).0 here), h.1)
    | inr later ↦ rw later (h.0, insert-IsOwn symbol p live e h.1)
  ]

  live_positions-IsOwn :
      (ps : List (Position D)) (live : Dict String (Position D))
      → All IsOwn live
      → All IsOwn (live_positions ps live)
  live_positions-IsOwn [] live h = h
  live_positions-IsOwn (p ∷ ps) live h =
      live_positions-IsOwn ps (insert p.symbol p live) (insert-IsOwn p.symbol p live refl h)

  adopt_one-IsStored :
      (now : D) (symbol : String) (p : Position D) (guarded : Option (ProtectedPosition D))
      (m : Monitor D) (table : Table D)
      → p.symbol ≡ symbol
      → IsStored m.positions table
      → Kept now table (adopt_one now symbol p guarded m)
  unfolding from_position
  adopt_one-IsStored now symbol p none m table e h =
      save-IsStored now symbol (adopted now p m) m.positions table e h
  adopt_one-IsStored now symbol p (some _) m table e h = h

  adopt_all-IsStored :
      (now : D) (live : Dict String (Position D)) (m : Monitor D) (table : Table D)
      → All IsOwn live
      → IsStored m.positions table
      → Kept now table (adopt_all now live m)
  unfolding adopt_all
  adopt_all-IsStored now [] m table own h = h
  adopt_all-IsStored now ((symbol, p) ∷ live) m table own h =
      let r = adopt_one now symbol p (lookup symbol m.positions) m in
      rw (all_written-append now r.1 (adopt_all now live r.0).1 table) (
        adopt_all-IsStored now live r.0 (all_written now r.1 table) own.1
          (adopt_one-IsStored now symbol p (lookup symbol m.positions) m table own.0 h))

  pub reconcile-IsStored :
      (now : D) (s : PortfolioSnapshot D) (m : Monitor D) (table : Table D)
      → IsStored m.positions table
      → Kept now table (reconcile now s m)
  unfolding reconcile
  reconcile-IsStored now s m table h =
      let live = live_positions s.positions [] in
      let r = drop_closed m.positions live m in
      rw (all_written-append now r.1 (adopt_all now live r.0).1 table) (
        adopt_all-IsStored now live r.0 (all_written now r.1 table)
          (live_positions-IsOwn s.positions [] tt)
          (drop_closed-IsStored now m.positions live m table h))
