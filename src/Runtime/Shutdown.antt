-- ===== src/Runtime/Shutdown.antt =====
-- `start`, `stop` and `run`: an agent that started disconnects once, at its end.
use crypto_research_platform.Prelude.{◌≡◌, Bool, true, false, List, [], ◌++◌, map}
use crypto_research_platform.Schemas.{Publication}
use crypto_research_platform.Runtime.Agent.{Call, publish, Process, start_calls, stop_calls}

-- The calls of a stop, once the agent is no longer started.
abbrev pub closing : {D : Type 0} → Bool → List (Call D)
closing true = []
closing false = stop_calls

module _ {S D : Type 0} where
  -- Since those calls there was publishing, and then the stop if the agent is no longer started.
  abbrev pub Logs : List (Call D) → Process S D → Type 0
  Logs before p =
      (ps : List (Publication D)) × (p.calls ≡ before ++ (map publish ps ++ closing p.started))

  abbrev process : Bool → Bool → S → List (Call D) → Process S D
  process started stopping a calls = record {
    started = started;
    stopping = stopping;
    state = a;
    calls = calls;
  }

  -- What a run did after those calls, by whether the agent started. Where it did not, nothing stops it.
  abbrev pub Brackets : List (Call D) → Bool → Process S D → Type 0
  Brackets before true p =
      ((ps : List (Publication D)) × (p.calls
          ≡ (before ++ start_calls) ++ (map publish ps ++ stop_calls)))
      × (p.started ≡ false)
      × (p.stopping ≡ true)
  Brackets before false p =
      ((ps : List (Publication D)) × (p.calls ≡ (before ++ start_calls) ++ map publish ps))
      × (p.started ≡ true)
