-- ===== src/Runtime/Lifecycle.antt =====
-- The consume loop: a failing message is isolated.
use crypto_research_platform.Prelude.{
  ◌≡◌, ◌⊎◌, refl, ap, ◌∙◌, inl, inr, Bool, true, false, List, [], ◌∷◌, ◌++◌, map, All,
}
use mathlib.Core.List.{append_assoc, append-nil}
use crypto_research_platform.Schemas.{Publication}
use crypto_research_platform.Engine.{Handled, done, raised}
use crypto_research_platform.Runtime.Agent.{
  Service, Message, Call, publish, Process, publish_all, outcome, loop,
}

-- Nobody stops the agent and the broker accepts everything.
abbrev pub IsQuiet : {D : Type 0} → Message D → Type 0
IsQuiet {D} m =
    (m.stopped_before ≡ false)
    × (m.stopped_during ≡ false)
    × ((q : Publication D) → m.accepts q ≡ true)

pub map-append :
    {A B : Type 0} (f : A → B) (xs ys : List A) → map f (xs ++ ys) ≡ map f xs ++ map f ys
map-append f [] ys = refl
map-append f (a ∷ xs) ys = ap (λ l. f a ∷ l) (map-append f xs ys)

-- What a service means to do with the messages, one after the other: an answered message is followed
-- by its publications, a failed one by those of `on_error`, and either way the next one is handled in
-- the state that the handler left.
pub data Runs {S D : Type 0} (s : Service S D)
    : S → List (Message D) → S → List (Publication D) → Type 0 where
  ended : {a : S} → Runs s a [] a []
  answered :
      {a b c : S} {m : Message D} {ms : List (Message D)} {ps qs : List (Publication D)}
      → s.handle m.reading m.topic m.event a ≡ done b ps
      → Runs s b ms c qs
      → Runs s a (m ∷ ms) c (ps ++ qs)
  failed :
      {a b c : S} {m : Message D} {ms : List (Message D)} {qs : List (Publication D)}
      → s.handle m.reading m.topic m.event a ≡ raised b
      → Runs s b ms c qs
      → Runs s a (m ∷ ms) c (s.on_error m.reading m.correlation_id m.topic m.event ++ qs)

Handled-cases :
    {S A : Type 0} (h : Handled S A)
    → ((b : S) × (a : A) × (h ≡ done b a)) ⊎ ((b : S) × (h ≡ raised b))
Handled-cases (done b a) = inl (b, a, refl)
Handled-cases (raised b) = inr (b, refl)

module _ {S D : Type 0} where
  -- A process that is started and that nobody stopped.
  abbrev pub running : S → List (Call D) → Process S D
  running a calls = record { started = true; stopping = false; state = a; calls = calls }

  publish_all_accepted :
      (accepts : Publication D → Bool) (ps : List (Publication D)) (a : S) (calls : List (Call D))
      → ((q : Publication D) → accepts q ≡ true)
      → publish_all accepts ps (running a calls) ≡ (running a (calls ++ map publish ps), true)
  unfolding publish_all
  publish_all_accepted accepts [] a calls h = rw (append-nil calls) refl
  publish_all_accepted accepts (q ∷ ps) a calls h = rw (h q) (
      publish_all_accepted accepts ps a (calls ++ (publish q ∷ [])) h
      ∙ rw (append_assoc calls (publish q ∷ []) (map publish ps)) refl)

  -- One message, when what it comes to is known.
  loop_quiet :
      (s : Service S D) (m : Message D) (ms : List (Message D)) (a : S) (calls : List (Call D))
      {b : S} {ps : List (Publication D)}
      → IsQuiet m
      → outcome s m a ≡ (b, ps)
      → loop s (m ∷ ms) (running a calls) ≡ loop s ms (running b (calls ++ map publish ps))
  unfolding loop
  loop_quiet s m ms a calls {b} {ps} q o =
      simp (q.0, q.1, o) (rw (publish_all_accepted m.accepts ps b calls q.2) refl)

  -- What the loop comes to from a state on.
  abbrev pub Comes : Service S D → List (Message D) → S → List (Call D) → Type 0
  Comes s ms a calls =
      (c : S) × (qs : List (Publication D)) × Runs s a ms c qs
      × (loop s ms (running a calls) ≡ (running c (calls ++ map publish qs), true))

  next-Comes :
      (s : Service S D) (m : Message D) (ms : List (Message D)) (a : S) (calls : List (Call D))
      {b : S} {ps : List (Publication D)}
      → IsQuiet m
      → outcome s m a ≡ (b, ps)
      → ((c : S) (qs : List (Publication D)) → Runs s b ms c qs → Runs s a (m ∷ ms) c (ps ++ qs))
      → Comes s ms b (calls ++ map publish ps)
      → Comes s (m ∷ ms) a calls
  next-Comes s m ms a calls {b} {ps} q o runs (c, qs, r, e) = (
    c,
    ps ++ qs,
    runs c qs r,
    loop_quiet s m ms a calls q o
        ∙ e
        ∙ rw (map-append publish ps qs, append_assoc calls (map publish ps) (map publish qs)) refl,
  )

  -- While nobody stops a started agent and the broker accepts what is published, the loop ends by
  -- itself and does what the service means to do: it takes every message in turn, publishes what an answered one
  -- publishes and what `on_error` says of a failed one, each in its place, and goes on after both in
  -- the state that the handler left.
  pub loop-Runs :
      (s : Service S D) (ms : List (Message D)) (a : S) (calls : List (Call D))
      → All IsQuiet ms
      → Comes s ms a calls
  unfolding loop outcome
  loop-Runs s [] a calls q = (a, [], Runs.ended, rw (append-nil calls) refl)
  loop-Runs s (m ∷ ms) a calls q = elim (Handled-cases (s.handle m.reading m.topic m.event a)) [
    | inl (b, ps, h) ↦
        next-Comes s m ms a calls q.0 (rw h refl) (λ c qs r. Runs.answered h r)
          (loop-Runs s ms b (calls ++ map publish ps) q.1)
    | inr (b, h) ↦
        let ps = s.on_error m.reading m.correlation_id m.topic m.event in
        next-Comes s m ms a calls q.0 (rw h refl) (λ c qs r. Runs.failed h r)
          (loop-Runs s ms b (calls ++ map publish ps) q.1)
  ]
