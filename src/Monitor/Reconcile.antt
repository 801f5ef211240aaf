-- ===== src/Monitor/Reconcile.antt =====
-- `_reconcile`: which symbols are guarded after a snapshot, and how.
use crypto_research_platform.Prelude.{
  String, ◌≡◌, refl, ap, ◌∙◌, subst, inl, inr, Bool, Option, none, some, List, [], ◌∷◌, Bool-cases,
  Option-cases, string_eq, ◌==◌, if◌then◌else◌, arith,
}
use crypto_research_platform.Prelude.Dict.{Dict, lookup, insert, lookup-insert, lookup-erase}
use crypto_research_platform.Decimal.{Decimal}
use crypto_research_platform.Schemas.{Position, PortfolioSnapshot}
use crypto_research_platform.Monitor.Guard.{ProtectedPosition}
use crypto_research_platform.Monitor.Defs.{
  Monitor, forget, live_positions, drop_one, drop_closed, adopted, adopt_all, reconcile, or_else,
}

module _ {D : Type 0} where
  -- The position that a snapshot reports for a symbol: the last, if it names the symbol twice.
  abbrev pub reported : String → List (Position D) → Option (Position D)
  reported s [] = none
  reported s (p ∷ ps) = or_else (reported s ps) (if p.symbol == s then some p else none)

module _ {D : Type 0} ⦃d : Decimal D⦄ where
  -- What guards a symbol after a snapshot that reports this position for it.
  abbrev pub guarded_after :
      D
      → Monitor D
      → Option (ProtectedPosition D)
      → Option (Position D)
      → Option (ProtectedPosition D)
  guarded_after now m g none = none
  guarded_after now m (some g) (some p) = some g
  guarded_after now m none (some p) = some (adopted now p m)

  or_else-if :
      (b : Bool) (o : Option (Position D)) (p : Position D) (rest : Option (Position D))
      → or_else o (if b then some p else rest)
        ≡ or_else (or_else o (if b then some p else none)) rest
  or_else-if b (some q) p rest = refl
  or_else-if b none p rest = elim (Bool-cases b) [ inl yes' ↦ rw yes' refl | inr no' ↦ rw no' refl ]

  lookup-live_positions :
      (s : String) (ps : List (Position D)) (live : Dict String (Position D))
      → lookup s (live_positions ps live) ≡ or_else (reported s ps) (lookup s live)
  lookup-live_positions s [] live = refl
  lookup-live_positions s (p ∷ ps) live =
      lookup-live_positions s ps (insert p.symbol p live)
      ∙ ap (λ o. or_else (reported s ps) o) (lookup-insert s p.symbol p live)
      ∙ or_else-if (p.symbol == s) (reported s ps) p (lookup s live)

  -- Of the symbols that are tracked, those that are not live are dropped.
  abbrev kept :
      Option (ProtectedPosition D)
      → Option (Position D)
      → Option (ProtectedPosition D)
      → Option (ProtectedPosition D)
  kept none live g = g
  kept (some _) none g = none
  kept (some _) (some _) g = g

  kept_if :
      (b : Bool) (q : ProtectedPosition D) (t g : Option (ProtectedPosition D))
      (l : Option (Position D))
      → kept t l (if b then kept (some q) l g else g) ≡ kept (if b then some q else t) l g
  kept_if b q t g l = ground arith

  lookup-drop_one :
      (s symbol : String) (q : ProtectedPosition D) (live : Dict String (Position D))
      (m : Monitor D)
      → lookup s (drop_one symbol (lookup symbol live) m).0.positions ≡ (
          if symbol == s
          then kept (some q) (lookup s live) (lookup s m.positions)
          else lookup s m.positions)
  unfolding forget
  lookup-drop_one s symbol q live m = elim (Bool-cases (symbol == s)) [
    | inl here ↦
        rw (here, ← (string_eq.same_iff symbol s).0 here)
          (elim (Option-cases (lookup symbol live)) [
            | inl gone ↦ rw gone (
                lookup-erase symbol symbol m.positions
                ∙ rw ((string_eq.same_iff symbol symbol).1 refl) refl)
            | inr (p, alive) ↦ rw alive refl
          ])
    | inr other ↦ rw other (elim (Option-cases (lookup symbol live)) [
      | inl gone ↦ rw gone (lookup-erase s symbol m.positions ∙ rw other refl)
      | inr (p, alive) ↦ rw alive refl
    ])
  ]

  lookup-drop_closed :
      (s : String) (tracked : Dict String (ProtectedPosition D)) (live : Dict String (Position D))
      (m : Monitor D)
      → lookup s (drop_closed tracked live m).0.positions
        ≡ kept (lookup s tracked) (lookup s live) (lookup s m.positions)
  unfolding drop_closed lookup
  lookup-drop_closed s [] live m = refl
  lookup-drop_closed s ((symbol, q) ∷ tracked) live m =
      lookup-drop_closed s tracked live (drop_one symbol (lookup symbol live) m).0
      ∙ ap (λ o. kept (lookup s tracked) (lookup s live) o) (lookup-drop_one s symbol q live m)
      ∙ kept_if (symbol == s) q (lookup s tracked) (lookup s m.positions) (lookup s live)

  -- What is live and not tracked is adopted.
  abbrev taken_up :
      D
      → Monitor D
      → Option (ProtectedPosition D)
      → Option (Position D)
      → Option (ProtectedPosition D)
  taken_up now m (some g) o = some g
  taken_up now m none none = none
  taken_up now m none (some p) = some (adopted now p m)

  taken_up_new :
      (s symbol : String) (now : D) (p : Position D) (live : Dict String (Position D))
      (m : Monitor D)
      → lookup symbol m.positions ≡ none
      → taken_up now m
          (if symbol == s then some (adopted now p m) else lookup s m.positions)
          (lookup s live)
        ≡ taken_up now m (lookup s m.positions) (if symbol == s then some p else lookup s live)
  taken_up_new s symbol now p live m absent = elim (Bool-cases (symbol == s)) [
    | inl here ↦
        let at : lookup s m.positions ≡ none =
          subst (λ t. lookup t m.positions ≡ none) ((string_eq.same_iff symbol s).0 here) absent in
        rw (here, at) refl
    | inr other ↦ rw other refl
  ]

  taken_up_old :
      (s symbol : String) (now : D) (p : Position D) (live : Dict String (Position D))
      (m : Monitor D) {g : ProtectedPosition D}
      → lookup symbol m.positions ≡ some g
      → taken_up now m (lookup s m.positions) (lookup s live)
        ≡ taken_up now m (lookup s m.positions) (if symbol == s then some p else lookup s live)
  taken_up_old s symbol now p live m {g} tracked = elim (Bool-cases (symbol == s)) [
    | inl here ↦
        let at : lookup s m.positions ≡ some g =
          subst (λ t. lookup t m.positions ≡ some g) ((string_eq.same_iff symbol s).0 here)
            tracked in
        rw (here, at) refl
    | inr other ↦ rw other refl
  ]

  drop_one_default :
      (symbol : String) (o : Option (Position D)) (m : Monitor D)
      → (drop_one symbol o m).0.default_trailing_stop_pct ≡ m.default_trailing_stop_pct
  unfolding forget
  drop_one_default symbol none m = refl
  drop_one_default symbol (some p) m = refl

  drop_closed_default :
      (tracked : Dict String (ProtectedPosition D)) (live : Dict String (Position D))
      (m : Monitor D)
      → (drop_closed tracked live m).0.default_trailing_stop_pct ≡ m.default_trailing_stop_pct
  unfolding drop_closed
  drop_closed_default [] live m = refl
  drop_closed_default ((symbol, q) ∷ tracked) live m =
      drop_closed_default tracked live (drop_one symbol (lookup symbol live) m).0
      ∙ drop_one_default symbol (lookup symbol live) m

  taken_up_same :
      (now : D) (m m' : Monitor D) (g : Option (ProtectedPosition D)) (o : Option (Position D))
      → m.default_trailing_stop_pct ≡ m'.default_trailing_stop_pct
      → taken_up now m g o ≡ taken_up now m' g o
  taken_up_same now m m' (some g) o e = refl
  taken_up_same now m m' none none e = refl
  taken_up_same now m m' none (some p) e = simp (e) refl

  lookup-adopt_all :
      (s : String) (now : D) (live : Dict String (Position D)) (m : Monitor D)
      → lookup s (adopt_all now live m).0.positions
        ≡ taken_up now m (lookup s m.positions) (lookup s live)
  unfolding adopt_all lookup
  lookup-adopt_all s now [] m = elim (Option-cases (lookup s m.positions)) [
    | inl absent ↦ rw absent refl
    | inr (g, here) ↦ rw here refl
  ]
  lookup-adopt_all s now ((symbol, p) ∷ live) m = elim (Option-cases (lookup symbol m.positions)) [
    | inl absent ↦ rw absent (
        lookup-adopt_all s now live
          (record m { positions = insert symbol (adopted now p m) m.positions })
        ∙ ap (λ o. taken_up now m o (lookup s live))
            (lookup-insert s symbol (adopted now p m) m.positions)
        ∙ taken_up_new s symbol now p live m absent)
    | inr (g, tracked) ↦
        rw tracked (lookup-adopt_all s now live m ∙ taken_up_old s symbol now p live m tracked)
  ]

  guarded_after-parts :
      (now : D) (m : Monitor D) (g : Option (ProtectedPosition D)) (o : Option (Position D))
      → taken_up now m (kept g o g) o ≡ guarded_after now m g o
  guarded_after-parts now m none none = refl
  guarded_after-parts now m none (some p) = refl
  guarded_after-parts now m (some g) none = refl
  guarded_after-parts now m (some g) (some p) = refl

  or_else-none : (o : Option (Position D)) → or_else o none ≡ o
  or_else-none none = refl
  or_else-none (some p) = refl

  -- After a snapshot the monitor guards exactly the symbols that the snapshot reports: one that it does
  -- not report is not guarded, the guard of a reported symbol stays as it was, with its levels and its
  -- best price, and a reported symbol without a guard gets the one that is made from its position, the
  -- last that the snapshot has for it.
  pub lookup-reconcile :
      (now : D) (snapshot : PortfolioSnapshot D) (m : Monitor D) (s : String)
      → lookup s (reconcile now snapshot m).0.positions
        ≡ guarded_after now m (lookup s m.positions) (reported s snapshot.positions)
  unfolding reconcile lookup
  lookup-reconcile now snapshot m s =
      let live = live_positions snapshot.positions [] in
      let live_at : lookup s live ≡ reported s snapshot.positions =
        lookup-live_positions s snapshot.positions [] ∙ or_else-none _ in
      let r = drop_closed m.positions live m in
      lookup-adopt_all s now live r.0
      ∙ ap (λ o. taken_up now r.0 o (lookup s live)) (lookup-drop_closed s m.positions live m)
      ∙ taken_up_same now r.0 m (kept (lookup s m.positions) (lookup s live) (lookup s m.positions))
          (lookup s live) (drop_closed_default m.positions live m)
      ∙ guarded_after-parts now m (lookup s m.positions) (lookup s live)
      ∙ ap (λ o. guarded_after now m (lookup s m.positions) o) live_at
