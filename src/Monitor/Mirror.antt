-- ===== src/Monitor/Mirror.antt =====
-- The table of the protection repository against the guards in memory.
use crypto_research_platform.Prelude.{
  String, ◌≡◌, ◌⊎◌, refl, sym, ap, ◌∙◌, subst, inl, inr, Bool, true, false, Option, none, some,
  Bool-cases, string_eq, nat_eq, ◌==◌, if◌then◌else◌, arith,
}
use crypto_research_platform.Prelude.Dict.{Dict, lookup, insert, erase, lookup-insert, lookup-erase}
use crypto_research_platform.Decimal.{Decimal, of_ℕ, leb}
use crypto_research_platform.Schemas.{}
use crypto_research_platform.Monitor.Guard.{ProtectedPosition, observe, effective_stop}
use crypto_research_platform.Monitor.Defs.{}
use crypto_research_platform.Monitor.Rows.{
  ProtectionRow, from_row, to_row, merged, save_row, delete_row, from_row-merged,
}

still_covered : {A P : Type 0} {a b c : A} → (P ⊎ (b ≡ c)) → (P ⊎ (a ≡ c)) → (P ⊎ (a ≡ b))
still_covered (inl p) k = inl p
still_covered (inr e) (inl p) = inl p
still_covered (inr e) (inr k) = inr (k ∙ sym e)

abbrev pub Table : Type 0 → Type 0
Table D = Dict String (ProtectionRow D)

module _ {D : Type 0} ⦃d : Decimal D⦄ where
  -- A guard that is read back protects as the one in memory does. While an exit is on its way the
  -- stop in memory may have moved further.
  pub record Protects (q p : ProtectedPosition D) : Type 0 where
    pub same_symbol : q.symbol ≡ p.symbol
    pub same_side : q.direction ≡ p.direction
    pub same_size : q.size ≡ p.size
    pub same_stop : q.stop_price ≡ p.stop_price
    pub same_target : q.take_profit_price ≡ p.take_profit_price
    pub same_trail : q.trailing_stop_pct ≡ p.trailing_stop_pct
    pub same_pending : q.exit_pending ≡ p.exit_pending
    pub as_tight : (p.exit_pending ≡ true) ⊎ (effective_stop q ≡ effective_stop p)

  abbrev pub Mirrors : String → Option (ProtectedPosition D) → Option (ProtectionRow D) → Type 0
  Mirrors symbol none none = Unit
  Mirrors symbol (some p) (some row) =
      (p.symbol ≡ symbol) × ((q : ProtectedPosition D) × (from_row row ≡ some q) × Protects q p)
  Mirrors symbol _ _ = ⊥

  -- The table holds a row for every guard and no other, and each row reads back as its guard.
  abbrev pub IsStored : Dict String (ProtectedPosition D) → Table D → Type 0
  IsStored positions table = (s : String) → Mirrors s (lookup s positions) (lookup s table)

  saved-Protects :
      (now at : D) (p : ProtectedPosition D)
      → Protects (record p { updated_at = now; opened_at = at }) p
  unfolding effective_stop
  saved-Protects now at p = record {
    same_symbol = refl;
    same_side = refl;
    same_size = refl;
    same_stop = refl;
    same_target = refl;
    same_trail = refl;
    same_pending = refl;
    as_tight = inr refl;
  }

  if-Mirrors :
      (a b : Bool) (s : String) (o o' : Option (ProtectedPosition D))
      (r r' : Option (ProtectionRow D))
      → a ≡ b
      → (a ≡ true → Mirrors s o r)
      → (a ≡ false → Mirrors s o' r')
      → Mirrors s (if a then o else o') (if b then r else r')
  if-Mirrors true true s o o' r r' e h k = h refl
  if-Mirrors false false s o o' r r' e h k = k refl
  if-Mirrors true false s o o' r r' e h k = cc
  if-Mirrors false true s o o' r r' e h k = cc

  -- Saving a guard under its symbol, where the others are stored, and forgetting one.
  pub save_over :
      (now : D) (symbol : String) (p : ProtectedPosition D)
      (positions : Dict String (ProtectedPosition D)) (table : Table D)
      → p.symbol ≡ symbol
      → ((s : String) → (symbol == s) ≡ false → Mirrors s (lookup s positions) (lookup s table))
      → IsStored (insert symbol p positions) (save_row (to_row now p) table)
  unfolding save_row to_row
  save_over now symbol p positions table e h s =
      let old = lookup p.symbol table in
      let back = from_row-merged now p old in
      rw
        (
          lookup-insert s symbol p positions,
          lookup-insert s p.symbol (merged (to_row now p) old) table,
        )
        (if-Mirrors (symbol == s) (p.symbol == s) s _ _ _ _ (ap (λ t. t == s) (sym e))
          (λ here.
            (e ∙ (string_eq.same_iff symbol s).0 here, (_, back.1, saved-Protects now back.0 p)))
          (h s))

  pub save-IsStored :
      (now : D) (symbol : String) (p : ProtectedPosition D)
      (positions : Dict String (ProtectedPosition D)) (table : Table D)
      → p.symbol ≡ symbol
      → IsStored positions table
      → IsStored (insert symbol p positions) (save_row (to_row now p) table)
  save-IsStored now symbol p positions table e h =
      save_over now symbol p positions table e (λ s other. h s)

  pub forget-IsStored :
      (symbol : String) (positions : Dict String (ProtectedPosition D)) (table : Table D)
      → IsStored positions table
      → IsStored (erase symbol positions) (delete_row symbol table)
  unfolding delete_row
  forget-IsStored symbol positions table h s =
      rw (lookup-erase s symbol positions, lookup-erase s symbol table)
        (if-Mirrors (symbol == s) (symbol == s) s _ _ _ _ refl (λ here. tt) (λ other. h s))

  -- A guard that changes in memory alone, in a way that the row still covers.
  touched-Mirrors :
      (s : String) (p p' : ProtectedPosition D) (row : Option (ProtectionRow D))
      → p'.symbol ≡ p.symbol
      → ((q : ProtectedPosition D) → Protects q p → Protects q p')
      → Mirrors s (some p) row
      → Mirrors s (some p') row
  touched-Mirrors s p p' none e k h = h
  touched-Mirrors s p p' (some row) e k h = (e ∙ h.0, (h.1.0, h.1.1, k h.1.0 h.1.2))

  pub touch-IsStored :
      (symbol : String) (p p' : ProtectedPosition D) (positions : Dict String (ProtectedPosition D))
      (table : Table D)
      → lookup symbol positions ≡ some p
      → p'.symbol ≡ p.symbol
      → ((q : ProtectedPosition D) → Protects q p → Protects q p')
      → IsStored positions table
      → IsStored (insert symbol p' positions) table
  touch-IsStored symbol p p' positions table found e k h s =
      rw (lookup-insert s symbol p' positions) (elim (Bool-cases (symbol == s)) [
        | inl here ↦
            let same = (string_eq.same_iff symbol s).0 here in
            let at : lookup s positions ≡ some p =
              subst (λ t. lookup t positions ≡ some p) same found in
            rw here (
              touched-Mirrors s p p' (lookup s table) e k
                (subst (λ o. Mirrors s o (lookup s table)) at (h s)))
        | inr other ↦ rw other (h s)
      ])

  pub observe_symbol : (price : D) (p : ProtectedPosition D) → (observe price p).symbol ≡ p.symbol
  unfolding observe
  observe_symbol price p = ground arith

  pub observe-Protects :
      (price : D) (p q : ProtectedPosition D)
      → (p.exit_pending ≡ true) ⊎ (effective_stop (observe price p) ≡ effective_stop p)
      → Protects q p
      → Protects q (observe price p)
  unfolding observe
  observe-Protects price p q why h = elim (Bool-cases (leb price (of_ℕ 0))) [
    | inl bad ↦ rw bad h
    | inr good ↦ rw good (record {
      same_symbol = h.same_symbol;
      same_side = h.same_side;
      same_size = h.same_size;
      same_stop = h.same_stop;
      same_target = h.same_target;
      same_trail = h.same_trail;
      same_pending = h.same_pending;
      as_tight = still_covered (rw good at why) h.as_tight;
    })
  ]

  mirrored_symbol :
      (s : String) (p : ProtectedPosition D) (row : Option (ProtectionRow D))
      → Mirrors s (some p) row
      → p.symbol ≡ s
  mirrored_symbol s p none h = absurd h
  mirrored_symbol s p (some row) h = h.0

  -- A guard stands under its own symbol.
  pub stored_symbol :
      (symbol : String) (p : ProtectedPosition D) (positions : Dict String (ProtectedPosition D))
      (table : Table D)
      → lookup symbol positions ≡ some p
      → IsStored positions table
      → p.symbol ≡ symbol
  stored_symbol symbol p positions table found h =
      mirrored_symbol symbol p (lookup symbol table)
        (subst (λ o. Mirrors symbol o (lookup symbol table)) found (h symbol))
