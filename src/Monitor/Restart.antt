-- ===== src/Monitor/Restart.antt =====
-- What a restart finds: every handler of the monitor keeps the table in step with its guards.
use crypto_research_platform.Prelude.{
  ℕ, String, ◌≡◌, refl, ap, ◌∙◌, inl, inr, Bool, true, false, Option, none, some, List, Bool-cases,
  Option-cases, string_eq, nat_eq, if◌then◌else◌, arith,
}
use crypto_research_platform.Prelude.Dict.{lookup, insert, erase, lookup-insert}
use crypto_research_platform.Decimal.{Decimal, IsExact, ◌-◌, of_ℕ, leb}
use crypto_research_platform.Schemas.{
  same_direction, direction_of_side, Fill, OrderIntent, mid_price, Event, Publication,
}
use crypto_research_platform.Monitor.Guard.{ProtectedPosition, observe, effective_stop, breach}
use crypto_research_platform.Monitor.Defs.{
  Monitor, Write, forget, open_guard, reduce_guard, fill_guard, apply_fill, moved, fire,
  price_guard, on_price, on_mid, remember_order, handle,
}
use crypto_research_platform.Monitor.Rows.{all_written}
use crypto_research_platform.Monitor.Mirror.{
  Table, IsStored, save_over, save-IsStored, forget-IsStored, touch-IsStored, observe_symbol,
  observe-Protects, stored_symbol,
}
use crypto_research_platform.Monitor.Snapshot.{Kept, reconcile-IsStored}

module _ {D : Type 0} ⦃d : Decimal D⦄ where
  -- A tick.
  moved_eq : (x : IsExact D) (a b : Option D) → moved a b ≡ false → a ≡ b
  moved_eq x none none h = refl
  moved_eq x none (some b) h = cc
  moved_eq x (some a) none h = cc
  moved_eq x (some a) (some b) h =
      let le : (leb a b ≡ true) × (leb b a ≡ true) = ground arith in
      ap (λ t. some t) (x.le_antisymm a b le.0 le.1)

  abbrev pub KeptTick : {A : Type 0} → D → Table D → Monitor D × List (Write D) × A → Type 0
  KeptTick now table r = IsStored r.0.positions (all_written now r.1 table)

  pick_pending :
      (now : D) (table : Table D) (r r' : Monitor D × List (Write D) × List (Publication D))
      (b : Bool)
      → b ≡ true
      → KeptTick now table r
      → KeptTick now table (if b then r else r')
  pick_pending now table r r' b e h = rw e h

  pick_idle :
      (now : D) (table : Table D) (r r' : Monitor D × List (Write D) × List (Publication D))
      (b : Bool)
      → b ≡ false
      → KeptTick now table r'
      → KeptTick now table (if b then r else r')
  pick_idle now table r r' b e h = rw e h

  fire-IsStored :
      (x : IsExact D) (now : D) (fresh : ℕ) (symbol : String) (price : D) (p : ProtectedPosition D)
      (m : Monitor D) (table : Table D) (ticks : ℕ)
      → lookup symbol m.positions ≡ some p
      → p.symbol ≡ symbol
      → IsStored m.positions table
      → KeptTick now table (
          fire fresh symbol p (observe price p) (breach price (observe price p)) (record m {
            positions = insert symbol (observe price p) m.positions;
            ticks_processed = ticks;
          }))
  fire-IsStored x now fresh symbol price p m table ticks found e h =
      let q = observe price p in
      let e' = observe_symbol price p ∙ e in
      elim (Option-cases (breach price q)) [
        | inl calm ↦ rw calm (elim (Bool-cases (moved (effective_stop q) (effective_stop p))) [
          | inl far ↦ rw far (save-IsStored now symbol q m.positions table e' h)
          | inr near ↦ rw near (
              touch-IsStored symbol p q m.positions table found (observe_symbol price p)
                (λ r. observe-Protects price p r (inr (moved_eq x _ _ near))) h)
        ])
        | inr (reason, hit) ↦ rw hit (
            save_over now symbol (record q { exit_pending = true }) (insert symbol q m.positions)
              table e' (λ s other. rw (lookup-insert s symbol q m.positions, other) (h s)))
      ]

  on_price-IsStored :
      (x : IsExact D) (now : D) (fresh : ℕ) (symbol : String) (price : D) (m : Monitor D)
      (table : Table D)
      → IsStored m.positions table
      → KeptTick now table (on_price fresh symbol price m)
  unfolding on_price price_guard
  on_price-IsStored x now fresh symbol price m table h =
      elim (Option-cases (lookup symbol m.positions)) [
        | inl absent ↦ rw absent h
        | inr (p, found) ↦
            let e = stored_symbol symbol p m.positions table found h in
            rw found (elim (Bool-cases (leb price (of_ℕ 0))) [
              | inl bad ↦ rw bad h
              | inr good ↦ rw good (elim (Bool-cases p.exit_pending) [
                | inl pending ↦ pick_pending now table _ _ p.exit_pending pending (
                    touch-IsStored symbol p (observe price p) m.positions table found
                      (observe_symbol price p) (λ r. observe-Protects price p r (inl pending)) h)
                | inr idle ↦
                    pick_idle now table _ _ p.exit_pending idle
                      (fire-IsStored x now fresh symbol price p m table _ found e h)
              ])
            ])
      ]

  on_mid-IsStored :
      (x : IsExact D) (now : D) (fresh : ℕ) (symbol : String) (mid : Option D) (m : Monitor D)
      (table : Table D)
      → IsStored m.positions table
      → KeptTick now table (on_mid fresh symbol mid m)
  on_mid-IsStored x now fresh symbol none m table h = h
  on_mid-IsStored x now fresh symbol (some mid) m table h =
      on_price-IsStored x now fresh symbol mid m table h

  -- A fill.
  reduce_guard-IsStored :
      (now : D) (f : Fill D) (p : ProtectedPosition D) (m : Monitor D) (table : Table D)
      → p.symbol ≡ f.symbol
      → IsStored m.positions table
      → Kept now table (reduce_guard f p m)
  unfolding reduce_guard forget
  reduce_guard-IsStored now f p m table e h = elim (Bool-cases (leb (p.size - f.size) (of_ℕ 0))) [
    | inl done ↦ rw done (forget-IsStored f.symbol m.positions table h)
    | inr part ↦ rw part (save-IsStored now f.symbol _ m.positions table e h)
  ]

  open_guard-IsStored :
      (now : D) (f : Fill D) (o : Option (OrderIntent D)) (m : Monitor D) (table : Table D)
      → IsStored m.positions table
      → Kept now table (open_guard now f o m)
  open_guard-IsStored now f none m table h = h
  open_guard-IsStored now f (some o) m table h =
      save-IsStored now f.symbol _ m.positions table refl h

  fill_guard-IsStored :
      (now : D) (f : Fill D) (guarded : Option (ProtectedPosition D)) (m : Monitor D)
      (table : Table D)
      → lookup f.symbol m.positions ≡ guarded
      → IsStored m.positions table
      → Kept now table (fill_guard now f guarded m)
  unfolding fill_guard
  fill_guard-IsStored now f none m table found h =
      open_guard-IsStored now f (lookup f.order_id m.pending_orders)
        (record m { pending_orders = erase f.order_id m.pending_orders }) table h
  fill_guard-IsStored now f (some p) m table found h =
      let e = stored_symbol f.symbol p m.positions table found h in
      elim (Bool-cases (same_direction p.direction (direction_of_side f.side))) [
        | inl more ↦ rw more (save-IsStored now f.symbol _ m.positions table e h)
        | inr less ↦ rw less (reduce_guard-IsStored now f p m table e h)
      ]

  -- What is stored keeps up with what is guarded, whatever event arrives: if before it the table held a
  -- row for each guard and no other, and each row read back as a guard of the same symbol, side, size,
  -- stop, target and trail and with the same effective stop, then so it is after the event and its
  -- writes. Only while an exit is on its way may the effective stop in memory have moved further. The
  -- writes of one event carry one time.
  pub handle-IsStored :
      (x : IsExact D) (now : D) (fresh : ℕ) (e : Event D) (m : Monitor D) (table : Table D)
      → IsStored m.positions table
      → KeptTick now table (handle now fresh e m)
  unfolding handle apply_fill remember_order
  handle-IsStored x now fresh (Event.order o) m table h = elim (Bool-cases o.reduce_only) [
    | inl exit ↦ rw exit h
    | inr entry ↦ rw entry h
  ]
  handle-IsStored x now fresh (Event.fill f) m table h =
      fill_guard-IsStored now f (lookup f.symbol m.positions) m table refl h
  handle-IsStored x now fresh (Event.portfolio s) m table h = reconcile-IsStored now s m table h
  handle-IsStored x now fresh (Event.trade t) m table h =
      on_price-IsStored x now fresh t.symbol t.price m table h
  handle-IsStored x now fresh (Event.book b) m table h =
      on_mid-IsStored x now fresh b.symbol (mid_price b) m table h
  handle-IsStored x now fresh (Event.candle _) m table h = h
  handle-IsStored x now fresh (Event.perp_metrics _) m table h = h
  handle-IsStored x now fresh (Event.funding _) m table h = h
  handle-IsStored x now fresh (Event.signal _) m table h = h
  handle-IsStored x now fresh (Event.decision _) m table h = h
  handle-IsStored x now fresh (Event.verdict _) m table h = h
  handle-IsStored x now fresh (Event.closure _) m table h = h
  handle-IsStored x now fresh (Event.outcome _) m table h = h
