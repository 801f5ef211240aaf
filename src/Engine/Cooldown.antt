-- ===== src/Engine/Cooldown.antt =====
-- What a decision says, and that a signal repeated within the cooldown adds none.
use crypto_research_platform.Prelude.{
  suc, ◌≡◌, refl, ◌∙◌, inl, inr, true, false, ◌&&◌, some, List, [], ◌∷◌, arith, string_eq, ==_refl,
  ◌==◌, Bool-cases,
}
use crypto_research_platform.Prelude.Dict.{lookup, lookup-insert}
use crypto_research_platform.Decimal.{Decimal, ◌-◌, ◌≤◌, ◌<◌, of_ℕ}
use crypto_research_platform.Schemas.{
  Direction, same_direction, direction_of_action, from_direction, AgentSignal, is_expired, Topic,
  Event, Publication,
}
use crypto_research_platform.Engine.Trust.{weight_for}
use crypto_research_platform.Engine.Defs.{
  Engine, EngineParams, Reading, Handled, done, raised, state_for, within_cooldown, is_actionable,
  decision_of, decide, emit, finish, handle,
}

direction_of_action-from_direction :
    (dir : Direction) → direction_of_action (from_direction dir) ≡ dir
unfolding direction_of_action from_direction
direction_of_action-from_direction Direction.long = refl
direction_of_action-from_direction Direction.short = refl
direction_of_action-from_direction Direction.flat = refl

same_direction_refl : (dir : Direction) → same_direction dir dir ≡ true
same_direction_refl Direction.long = refl
same_direction_refl Direction.short = refl
same_direction_refl Direction.flat = refl

module _ {D : Type 0} ⦃d : Decimal D⦄ where
  -- Every condition on a signal that a decision was made from.
  pub record IsActionable (r : Reading D) (p : EngineParams D) (s : AgentSignal D) : Type 0 where
    pub from_agent : (s.agent_name == p.passthrough_agent) ≡ true
    pub sound : s.degraded ≡ false
    pub convinced : of_ℕ 0 < s.confidence
    pub current : is_expired r.now s.valid_until ≡ false
    pub directed : same_direction s.direction Direction.flat ≡ false
    pub confident : p.min_confidence ≤ s.confidence

  is_actionable-IsActionable :
      (r : Reading D) (p : EngineParams D) (s : AgentSignal D)
      → is_actionable r p s ≡ true
      → IsActionable r p s
  unfolding is_actionable
  is_actionable-IsActionable r p s h = record {
    from_agent = ground arith;
    sound = ground arith;
    convinced = ground arith;
    current = ground arith;
    directed = ground arith;
    confident = ground arith;
  }

  -- How a decision was made: from an actionable signal, outside the cooldown or in another direction.
  abbrev pub Decides : Reading D → AgentSignal D → Engine D → List (Publication D) → Type 0
  Decides r s e ps =
      IsActionable r e.params s
      × ((within_cooldown e.params r.monotonic (state_for s.symbol e)
            && same_direction (state_for s.symbol e).last_direction s.direction)
          ≡ false)
      × (ps
          ≡ (
            Topic.trade_decisions,
            Event.decision (decision_of r (weight_for s.agent_name e.trust) s),
          )
            ∷ [])

  Decided : Reading D → AgentSignal D → Engine D → Engine D × List (Publication D) → Type 0
  Decided r s e (e', []) = Unit
  Decided r s e (e', p ∷ ps) = Decides r s e (p ∷ ps)

  emit-Decided :
      (r : Reading D) (s : AgentSignal D) (e : Engine D) → Decided r s e (emit r s (decide r s e))
  unfolding decide Decided
  emit-Decided r s e = elim (Bool-cases (is_actionable r e.params s)) [
    | inl acts ↦
        elim (Bool-cases (
          within_cooldown e.params r.monotonic (state_for s.symbol e)
          && same_direction (state_for s.symbol e).last_direction s.direction)) [
            | inl repeated ↦ rw acts (rw repeated tt)
            | inr fresh ↦
                rw acts (rw fresh (is_actionable-IsActionable r e.params s acts, fresh, refl))
          ]
    | inr idle ↦ rw idle tt
  ]

  finish_done :
      (r : Engine D × List (Publication D)) {e' : Engine D} {ps : List (Publication D)}
      → finish r ≡ done e' ps
      → r ≡ (e', ps)
  finish_done (e, ps) h = cc

  Decided-cons :
      (r : Reading D) (s : AgentSignal D) (e : Engine D) {e' : Engine D} {p : Publication D}
      {ps : List (Publication D)}
      → (o : Engine D × List (Publication D)) → o ≡ (e', p ∷ ps)
      → Decided r s e o
      → Decides r s e (p ∷ ps)
  unfolding Decided
  Decided-cons r s e o h k = rw (h) at k

  -- A decision is published only for a signal of the configured agent that is not degraded, not
  -- expired, not flat and confident enough, and that is outside the symbol's cooldown or in another
  -- direction than the last; and it is then the one decision made from that signal.
  pub handle-Decides :
      (r : Reading D) (s : AgentSignal D) (e : Engine D) {e' : Engine D} {p : Publication D}
      {ps : List (Publication D)}
      → handle r (Event.signal s) e ≡ done e' (p ∷ ps)
      → Decides r s e (p ∷ ps)
  unfolding handle
  handle-Decides r s e h =
      let e1 = record e { signals_seen = suc e.signals_seen } in
      Decided-cons r s e1 _ (finish_done _ h) (emit-Decided r s e1)

  -- The state that an emitted decision leaves for its symbol.
  abbrev pub Remembers :
      Reading D → AgentSignal D → Engine D → Engine D × List (Publication D) → Type 0
  Remembers r s e (e', []) = Unit
  Remembers r s e (e', p ∷ ps) =
      (e'.params ≡ e.params)
      × (lookup s.symbol e'.state
          ≡ some (record { last_direction = s.direction; last_decision_at = r.monotonic }))

  emit-Remembers :
      (r : Reading D) (s : AgentSignal D) (e : Engine D) → Remembers r s e (emit r s (decide r s e))
  unfolding decide decision_of
  emit-Remembers r s e = elim (Bool-cases (is_actionable r e.params s)) [
    | inl acts ↦
        elim (Bool-cases (
          within_cooldown e.params r.monotonic (state_for s.symbol e)
          && same_direction (state_for s.symbol e).last_direction s.direction)) [
            | inl repeated ↦ rw acts (rw repeated tt)
            | inr fresh ↦ rw acts (
                rw fresh (
                  refl,
                  lookup-insert s.symbol s.symbol _ _
                      ∙ rw (==_refl s.symbol, direction_of_action-from_direction s.direction) refl,
                ))
          ]
    | inr idle ↦ rw idle tt
  ]

  Remembers-cons :
      (r : Reading D) (s : AgentSignal D) (e : Engine D) {e' : Engine D} {p : Publication D}
      {ps : List (Publication D)}
      → (o : Engine D × List (Publication D)) → o ≡ (e', p ∷ ps)
      → Remembers r s e o
      → Remembers r s e (e', p ∷ ps)
  Remembers-cons r s e o h k = rw (h) at k

  suppressed :
      (r : Reading D) (s : AgentSignal D) (e : Engine D)
      → (within_cooldown e.params r.monotonic (state_for s.symbol e)
          && same_direction (state_for s.symbol e).last_direction s.direction)
        ≡ true
      → (emit r s (decide r s e)).1 ≡ []
  unfolding decide
  suppressed r s e h = elim (Bool-cases (is_actionable r e.params s)) [
    | inl acts ↦ rw acts (rw h refl)
    | inr idle ↦ rw idle refl
  ]

  repeats :
      (r r' : Reading D) (s s' : AgentSignal D) (e e' : Engine D)
      → (e'.params ≡ e.params)
      → lookup s.symbol e'.state
        ≡ some (record { last_direction = s.direction; last_decision_at = r.monotonic })
      → s'.symbol ≡ s.symbol
      → s'.direction ≡ s.direction
      → of_ℕ 0 < r.monotonic
      → r'.monotonic - r.monotonic < e.params.cooldown_s
      → (within_cooldown e'.params r'.monotonic (state_for s'.symbol e')
          && same_direction (state_for s'.symbol e').last_direction s'.direction)
        ≡ true
  unfolding within_cooldown
  repeats r r' s s' e e' hp hl hs hd pos soon =
      simp (hs, hd, hl, hp, pos, soon) (same_direction_refl s.direction)

  abbrev pub published : Handled (Engine D) (List (Publication D)) → List (Publication D)
  published (done e ps) = ps
  published (raised e) = []

  published-finish : (o : Engine D × List (Publication D)) → published (finish o) ≡ o.1
  published-finish (e, ps) = refl

  -- After a signal that was decided on, a signal for the same symbol in the same direction within the
  -- cooldown publishes nothing. The monotonic clock reads more than zero at the first.
  pub handle_repeat :
      (r r' : Reading D) (s s' : AgentSignal D) (e : Engine D) {e' : Engine D} {p : Publication D}
      {ps : List (Publication D)}
      → handle r (Event.signal s) e ≡ done e' (p ∷ ps)
      → s'.symbol ≡ s.symbol
      → s'.direction ≡ s.direction
      → of_ℕ 0 < r.monotonic
      → r'.monotonic - r.monotonic < e.params.cooldown_s
      → published (handle r' (Event.signal s') e') ≡ []
  unfolding handle
  handle_repeat r r' s s' e {e'} h hs hd pos soon =
      let e1 = record e { signals_seen = suc e.signals_seen } in
      let (hp, hl) = Remembers-cons r s e1 _ (finish_done _ h) (emit-Remembers r s e1) in
      let e2 = record e' { signals_seen = suc e'.signals_seen } in
      published-finish (emit r' s' (decide r' s' e2))
      ∙ suppressed r' s' e2 (repeats r r' s s' e1 e2 hp hl hs hd pos soon)
