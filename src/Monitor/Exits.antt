-- ===== src/Monitor/Exits.antt =====
-- `on_price`: what the order of an exit says, and that it fires when it must, and once.
use crypto_research_platform.Prelude.{
  ℕ, String, ◌≡◌, ◌≢◌, ◌⊎◌, refl, ap, ◌∙◌, inl, inr, Bool, true, false, Option, none, some, List,
  [], ◌∷◌, arith, Bool-cases, Option-cases, string_eq, ==_refl, if◌then◌else◌,
}
use crypto_research_platform.Prelude.Dict.{lookup, insert, lookup-insert}
use crypto_research_platform.Decimal.{Decimal, IsExact, ◌≤◌, ◌<◌, of_ℕ, leb}
use crypto_research_platform.Schemas.{
  Side, ExitReason, exit_reason_value, parse_exit_reason, OrderIntent, is_long, Topic, Event,
  Publication,
}
use crypto_research_platform.Monitor.Guard.{ProtectedPosition, observe, breach}
use crypto_research_platform.Monitor.Defs.{Monitor, Write, price_guard, on_price, exit_order}
use crypto_research_platform.Monitor.Breach.{Explains, breach-Explains}

-- The text of an exit reason is read back as that reason.
parse-exit_reason_value : (r : ExitReason) → parse_exit_reason (exit_reason_value r) ≡ some r
unfolding parse_exit_reason exit_reason_value
parse-exit_reason_value ExitReason.stop_loss = refl
parse-exit_reason_value ExitReason.take_profit = refl
parse-exit_reason_value ExitReason.trailing_stop = refl
parse-exit_reason_value ExitReason.signal_reversal = refl
parse-exit_reason_value ExitReason.manual = refl
parse-exit_reason_value ExitReason.unknown = refl

module _ {D : Type 0} ⦃d : Decimal D⦄ where
  -- The exit of a guarded position: reduce-only, for its whole size, on the closing side, with a
  -- reason that the portfolio manager reads back.
  pub record IsExit (symbol : String) (p : ProtectedPosition D) (reason : ExitReason)
      (o : OrderIntent D) : Type 0 where
    pub for_symbol : o.symbol ≡ symbol
    pub reducing : o.reduce_only ≡ true
    pub whole : o.size ≡ p.size
    pub closing : o.side ≡ (if is_long p.direction then Side.sell else Side.buy)
    pub reason_kept : o.exit_reason ≡ some (exit_reason_value reason)
    pub read_back : parse_exit_reason (exit_reason_value reason) ≡ some reason

  lookup-insert_self :
      (k : String) (v : ProtectedPosition D) (ps : List (String × ProtectedPosition D))
      → lookup k (insert k v ps) ≡ some v
  lookup-insert_self k v ps = rw (lookup-insert, ==_refl k)

  exit_order-IsExit :
      (is_paper : Bool) (fresh : ℕ) (symbol : String) (p : ProtectedPosition D) (r : ExitReason)
      → IsExit symbol p r (exit_order is_paper fresh symbol p r)
  unfolding exit_order
  exit_order-IsExit is_paper fresh symbol p r = record {
    for_symbol = refl;
    reducing = refl;
    whole = refl;
    closing = refl;
    reason_kept = refl;
    read_back = parse-exit_reason_value r;
  }

  observe_size : (price : D) (p : ProtectedPosition D) → (observe price p).size ≡ p.size
  unfolding observe
  observe_size price p = ground arith

  observe_direction :
      (price : D) (p : ProtectedPosition D) → (observe price p).direction ≡ p.direction
  unfolding observe
  observe_direction price p = ground arith

  -- What a tick did to a guarded position when it fired an exit.
  abbrev pub Fired :
      String
      → ProtectedPosition D
      → ExitReason
      → Monitor D × List (Write D) × List (Publication D)
      → Type 0
  Fired symbol p reason (m', ws, ps) =
      (o : OrderIntent D) × (ps ≡ (Topic.order_intents, Event.order o) ∷ [])
      × IsExit symbol p reason o
      × ((q : ProtectedPosition D) × (lookup symbol m'.positions ≡ some q)
          × (q.exit_pending ≡ true)
          × (ws ≡ Write.save q ∷ []))

  price_guard_fires :
      (fresh : ℕ) (symbol : String) (price : D) (p : ProtectedPosition D) (m : Monitor D)
      {reason : ExitReason}
      → of_ℕ 0 < price
      → p.exit_pending ≡ false
      → breach price (observe price p) ≡ some reason
      → Fired symbol p reason (price_guard fresh symbol price (some p) m)
  unfolding price_guard
  price_guard_fires fresh symbol price p m {reason} pos idle hit =
      simp (pos, hit, idle)
        (let q = observe price p in
          let e = exit_order-IsExit m.is_paper fresh symbol q reason in
          (
            exit_order m.is_paper fresh symbol q reason,
            refl,
            record {
              for_symbol = e.for_symbol;
              reducing = e.reducing;
              whole = e.whole ∙ observe_size price p;
              closing =
                  e.closing
                  ∙ ap (λ t. if is_long t then Side.sell else Side.buy) (observe_direction price p);
              reason_kept = e.reason_kept;
              read_back = e.read_back;
            },
            (record q { exit_pending = true }, lookup-insert_self symbol _ _, refl, refl),
          ))

  -- Why a tick fires nothing: nothing is guarded, the price is no price, an exit is on its way, or
  -- no level is reached.
  abbrev pub Rests : D → Option (ProtectedPosition D) → Type 0
  Rests price none = Unit
  Rests price (some p) =
      (price ≤ of_ℕ 0) ⊎ (p.exit_pending ≡ true) ⊎ Explains price (observe price p) none

  abbrev pub Fires :
      String
      → D
      → Option (ProtectedPosition D)
      → Monitor D × List (Write D) × List (Publication D)
      → Type 0
  Fires symbol price none out = ⊥
  Fires symbol price (some p) out =
      (reason : ExitReason) × (of_ℕ 0 < price)
      × (p.exit_pending ≡ false)
      × Explains price (observe price p) (some reason)
      × Fired symbol p reason out

  abbrev pub Answers :
      String
      → D
      → Option (ProtectedPosition D)
      → Monitor D × List (Write D) × List (Publication D)
      → Type 0
  Answers symbol price guarded out =
      ((out.2 ≡ []) × Rests price guarded) ⊎ Fires symbol price guarded out

  module _ (x : IsExact D) (fresh : ℕ) (symbol : String) (price : D) (m : Monitor D) where
    price_guard-Answers :
        (guarded : Option (ProtectedPosition D))
        → Answers symbol price guarded (price_guard fresh symbol price guarded m)
    unfolding price_guard
    price_guard-Answers none = inl (refl, tt)
    price_guard-Answers (some p) = elim (Bool-cases (leb price (of_ℕ 0))) [
      | inl bad ↦ inl (rw bad refl, inl bad)
      | inr pos ↦ elim (Bool-cases p.exit_pending) [
        | inl pending ↦ inl (simp (pos, pending) refl, inr (inl pending))
        | inr idle ↦
            let why = breach-Explains x price (observe price p) in
            elim (Option-cases (breach price (observe price p))) [
              | inl calm ↦ inl (simp (pos, idle, calm) refl, inr (inr (rw calm at why)))
              | inr (reason, hit) ↦ inr (
                reason,
                pos,
                idle,
                rw hit at why,
                price_guard_fires fresh symbol price p m pos idle hit,
              )
            ]
      ]
    ]

    -- A tick fires an exit exactly when it must: either it publishes nothing, and then the symbol is
    -- not guarded, the price is not positive, an exit is on its way or the price, with the best one
    -- moved, reached no level; or none of these holds, and it publishes one order with the reason that
    -- the levels explain, reduce-only, for the whole size and on the closing side, and the position is
    -- tracked and saved as having an exit on its way.
    pub on_price-Answers :
        Answers symbol price (lookup symbol m.positions) (on_price fresh symbol price m)
    unfolding on_price
    on_price-Answers = price_guard-Answers (lookup symbol m.positions)

  -- While an exit is on its way no tick fires another.
  price_guard_quiet :
      (fresh : ℕ) (symbol : String) (price : D) (p : ProtectedPosition D) (m : Monitor D)
      → p.exit_pending ≡ true
      → (price_guard fresh symbol price (some p) m).2 ≡ []
  unfolding price_guard
  price_guard_quiet fresh symbol price p m pending = elim (Bool-cases (leb price (of_ℕ 0))) [
    | inl bad ↦ rw bad
    | inr good ↦ simp (good, pending)
  ]

  -- Two ticks of a symbol fire at most one exit between them: if the first published an order, the
  -- second publishes nothing.
  pub on_price_once :
      (fresh fresh' : ℕ) (symbol : String) (price price' : D) (m : Monitor D)
      → (on_price fresh symbol price m).2 ≢ []
      → (on_price fresh' symbol price' (on_price fresh symbol price m).0).2 ≡ []
  unfolding on_price price_guard
  on_price_once fresh fresh' symbol price price' m fired =
      elim (Option-cases (lookup symbol m.positions)) [
        | inl untracked ↦ absurd (fired (rw untracked))
        | inr (p, tracked) ↦ elim (Bool-cases (leb price (of_ℕ 0))) [
          | inl bad ↦ absurd (fired (rw tracked (rw bad)))
          | inr good ↦ elim (Bool-cases p.exit_pending) [
            | inl pending ↦ absurd (fired (rw tracked (simp (good, pending))))
            | inr idle ↦ elim (Option-cases (breach price (observe price p))) [
              | inl calm ↦ absurd (fired (rw tracked (simp (good, calm, idle))))
              | inr (reason, hit) ↦ rw tracked (
                  simp (good, hit, idle)
                    (rw (lookup-insert_self symbol)
                      (price_guard_quiet fresh' symbol price' _ _ refl)))
            ]
          ]
        ]
      ]
