-- ===== src/Backtest/Causality.antt =====
-- No look-ahead: what the replay did by a bar does not depend on later bars.
use crypto_research_platform.Prelude.{
  ℕ, zero, suc, ◌+ℕ◌, ◌≤ℕ◌, ◌<ℕ◌, String, ◌≡◌, refl, ap, Option, none, some, List, [], ◌∷◌, ◌++◌,
  length, All, arith, get_elem?, get_elem?-append, take-append, if◌then◌else◌,
}
use mathlib.Core.Option.{some-injective}
use crypto_research_platform.Prelude.Dict.{Dict}
use crypto_research_platform.Decimal.{Decimal, ◌<◌}
use crypto_research_platform.Schemas.{Candle}
use crypto_research_platform.Backtest.Trade.{ReplayParams}
use crypto_research_platform.Backtest.Replay.{
  Walk, View, is_open, closed_by, visible, history_at, manage, entered, context_of, replay_bar,
  then_walk, walk,
}

then_walk_same :
    {D : Type 0} (o o' : Option (Walk D)) (f g : Walk D → Option (Walk D))
    → o ≡ o'
    → ((w : Walk D) → f w ≡ g w)
    → then_walk o f ≡ then_walk o' g
then_walk_same none o' f g h k = rw (← h) refl
then_walk_same (some w) o' f g h k = rw (← h) (k w)

-- A series of another interval in two worlds: the same candles at first, then one continuation or
-- the other.
pub record Series (D : Type 0) : Type 0 where
  pub interval : String
  pub known : List (Candle D)
  pub next : List (Candle D)
  pub other_next : List (Candle D)

module _ {D : Type 0} where
  abbrev pub one_world : List (Series D) → Dict String (List (Candle D))
  one_world [] = []
  one_world (s ∷ ss) = (s.interval, s.known ++ s.next) ∷ one_world ss

  abbrev pub other_world : List (Series D) → Dict String (List (Candle D))
  other_world [] = []
  other_world (s ∷ ss) = (s.interval, s.known ++ s.other_next) ∷ other_world ss

module _ {D : Type 0} ⦃d : Decimal D⦄ where
  abbrev pub ClosesAfter : D → List (Candle D) → Type 0
  ClosesAfter time cs = All (λ c. time < c.close_time) cs

  -- What is different in the two worlds closes after this bar.
  abbrev pub IsFuture : List (Series D) → Candle D → Type 0
  IsFuture series bar =
      All (λ s. ClosesAfter bar.close_time s.next × ClosesAfter bar.close_time s.other_next) series

  closed_by-append :
      (time : D) (known next : List (Candle D))
      → ClosesAfter time next
      → closed_by time (known ++ next) ≡ closed_by time known
  closed_by-append time [] [] h = refl
  closed_by-append time [] (c ∷ cs) h = rw h.0 (closed_by-append time [] cs h.1)
  closed_by-append time (c ∷ known) next h = rw (closed_by-append time known next h) refl

  visible_same :
      (window : ℕ) (bar : Candle D) (series : List (Series D))
      → IsFuture series bar
      → visible window bar.close_time (one_world series)
        ≡ visible window bar.close_time (other_world series)
  visible_same window bar [] h = refl
  visible_same window bar (s ∷ ss) h =
      rw
        (
          closed_by-append bar.close_time s.known s.next h.0.0,
          closed_by-append bar.close_time s.known s.other_next h.0.1,
          visible_same window bar ss h.1,
        )
        refl

module _ {D : Type 0} ⦃d : Decimal D⦄ (p : ReplayParams D) (view : View D)
    (symbol driving : String) where
  -- At each of these bars, the same candles of the other series have closed.
  abbrev SeesSame :
      Dict String (List (Candle D)) → Dict String (List (Candle D)) → List (Candle D) → Type 0
  SeesSame others others' [] = Unit
  SeesSame others others' (bar ∷ bars) =
      (visible p.window_bars bar.close_time others ≡ visible p.window_bars bar.close_time others')
      × SeesSame others others' bars

  SeesSame-get_elem? :
      (others others' : Dict String (List (Candle D))) (bars : List (Candle D)) (i : ℕ)
      {bar : Candle D}
      → SeesSame others others' bars
      → get_elem? bars i ≡ some bar
      → visible p.window_bars bar.close_time others ≡ visible p.window_bars bar.close_time others'
  SeesSame-get_elem? others others' [] i s h = cc
  SeesSame-get_elem? others others' (b ∷ bars) zero s h = rw (some-injective _ _ h) at s.0
  SeesSame-get_elem? others others' (b ∷ bars) (suc i) s h =
      SeesSame-get_elem? others others' bars i s.1 h

  history_same :
      (past future future' : List (Candle D)) (others others' : Dict String (List (Candle D)))
      (index : ℕ) (bar : Candle D)
      → index <ℕ length past
      → visible p.window_bars bar.close_time others ≡ visible p.window_bars bar.close_time others'
      → history_at p driving (past ++ future) others index bar
        ≡ history_at p driving (past ++ future') others' index bar
  unfolding history_at
  history_same past future future' others others' index bar h v =
      rw
        (
          take-append (index +ℕ 1) past future (omega arith),
          take-append (index +ℕ 1) past future' (omega arith),
          v,
        )
        refl

  replay_bar_same :
      (past future future' : List (Candle D)) (others others' : Dict String (List (Candle D)))
      (index : ℕ) (found : Option (Candle D)) (w : Walk D)
      → index <ℕ length past
      → get_elem? past index ≡ found
      → SeesSame others others' past
      → replay_bar p view symbol driving (past ++ future) others index found w
        ≡ replay_bar p view symbol driving (past ++ future') others' index found w
  unfolding replay_bar
  replay_bar_same past future future' others others' index none w h e s = refl
  replay_bar_same past future future' others others' index (some bar) w h e s =
      let w' = manage p bar w.open_trade (record w { bars_replayed = suc w.bars_replayed }) in
      ap
        (λ (h : Dict String (List (Candle D))).
          if is_open w'.open_trade
          then some w'
          else entered p symbol bar (view (context_of symbol h)) w')
        (history_same past future future' others others' index bar h
          (SeesSame-get_elem? others others' past index s e))

  SeesSame-worlds :
      (series : List (Series D)) (bars : List (Candle D))
      → All (IsFuture series) bars
      → SeesSame (one_world series) (other_world series) bars
  SeesSame-worlds series [] h = tt
  SeesSame-worlds series (bar ∷ bars) h =
      (visible_same p.window_bars bar series h.0, SeesSame-worlds series bars h.1)

  walk_same :
      (past future future' : List (Candle D)) (others others' : Dict String (List (Candle D)))
      (rounds index : ℕ) (w : Walk D)
      → index +ℕ rounds ≤ℕ length past
      → SeesSame others others' past
      → walk p view symbol driving (past ++ future) others rounds index w
        ≡ walk p view symbol driving (past ++ future') others' rounds index w
  unfolding walk
  walk_same past future future' others others' zero index w h s = refl
  walk_same past future future' others others' (suc rounds) index w h s =
      rw
        (
          get_elem?-append past future index (omega arith),
          get_elem?-append past future' index (omega arith),
        )
        (then_walk_same _ _ _ _
          (replay_bar_same past future future' others others' index (get_elem? past index) w
            (omega arith) refl s)
          (λ u. walk_same past future future' others others' rounds (suc index) u (omega arith) s))

  -- No look-ahead: in two worlds where the series of the driving interval is the same up to some bar,
  -- and the series of every other interval differ only in candles that close after each of those bars,
  -- the loop over these bars comes to the same: the same trades, signals and open trade, or the same
  -- exception of the analyst.
  pub walk_causal :
      (past future future' : List (Candle D)) (series : List (Series D)) (rounds index : ℕ)
      (w : Walk D)
      → index +ℕ rounds ≤ℕ length past
      → All (IsFuture series) past
      → walk p view symbol driving (past ++ future) (one_world series) rounds index w
        ≡ walk p view symbol driving (past ++ future') (other_world series) rounds index w
  walk_causal past future future' series rounds index w h later =
      walk_same past future future' (one_world series) (other_world series) rounds index w h
        (SeesSame-worlds series past later)
