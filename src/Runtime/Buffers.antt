-- ===== src/Runtime/Buffers.antt =====
-- The candle buffers: bounded, closed bars only, in strictly increasing order of their open times.
use Prim.Native.Nat.{◌-◌ as sub_ℕ}
use crypto_research_platform.Prelude.{
  ℕ, zero, suc, ◌≤ℕ◌, String, ◌≡◌, refl, inl, inr, true, Option, none, some, List, [], ◌∷◌, ◌++◌,
  length, drop, All, All-append, All-drop, length-append, arith, string_eq, Bool-cases,
}
use crypto_research_platform.Prelude.Dict.{
  Dict, lookup, AllValues, lookup-AllValues, insert-AllValues,
}
use mathlib.Core.Option.{some-injective}
use crypto_research_platform.Decimal.{Decimal, IsExact, ◌≤◌, ◌<◌, ltb, eqb, lt_of_lt_of_le}
use crypto_research_platform.Schemas.{Candle}
use crypto_research_platform.Engine.Trust.{append_bounded}
use crypto_research_platform.Engine.Windows.{append_bounded_bound}
use crypto_research_platform.Runtime.Context.{
  ContextBuilder, final, front, or_empty, member, empty_buffers, with_symbol, ensure_symbol,
  buffers_or_empty, buffers_of, stored_after, put_buffer, store_candle, add_candle,
}

module _ {D : Type 0} where
  empty_buffers_all :
      (P : List (Candle D) → Type 0) (is : List String) → P [] → AllValues P (empty_buffers is)
  empty_buffers_all P [] h = tt
  empty_buffers_all P (i ∷ is) h =
      insert-AllValues P i [] (empty_buffers is) h (empty_buffers_all P is h)

module _ {D : Type 0} ⦃d : Decimal D⦄ where
  abbrev pub IsAscending : List (Candle D) → Type 0
  IsAscending [] = Unit
  IsAscending (a ∷ []) = Unit
  IsAscending (a ∷ (b ∷ xs)) = (a.open_time < b.open_time) × IsAscending (b ∷ xs)

  -- Every candle of the buffer opens before this time.
  abbrev pub Precedes : D → List (Candle D) → Type 0
  Precedes t [] = Unit
  Precedes t (a ∷ []) = a.open_time < t
  Precedes t (a ∷ (b ∷ xs)) = Precedes t (b ∷ xs)

  abbrev pub IsClosed : Candle D → Type 0
  IsClosed c = c.is_closed ≡ true

  pub record IsBuffer (bound : ℕ) (cs : List (Candle D)) : Type 0 where
    pub bounded : length cs ≤ℕ bound
    pub closed : All IsClosed cs
    pub ascending : IsAscending cs

  IsAscending-snoc :
      (cs : List (Candle D)) (c : Candle D)
      → IsAscending cs
      → Precedes c.open_time cs
      → IsAscending (cs ++ (c ∷ []))
  IsAscending-snoc [] c h k = tt
  IsAscending-snoc (a ∷ []) c h k = (k, tt)
  IsAscending-snoc (a ∷ (b ∷ xs)) c h k = (h.0, IsAscending-snoc (b ∷ xs) c h.1 k)

  IsAscending-drop : (n : ℕ) (cs : List (Candle D)) → IsAscending cs → IsAscending (drop n cs)
  IsAscending-drop zero cs h = h
  IsAscending-drop (suc n) [] h = tt
  IsAscending-drop (suc n) (a ∷ []) h = IsAscending-drop n [] tt
  IsAscending-drop (suc n) (a ∷ (b ∷ xs)) h = IsAscending-drop n (b ∷ xs) h.1

  front-IsAscending : (cs : List (Candle D)) → IsAscending cs → IsAscending (front cs)
  front-IsAscending [] h = tt
  front-IsAscending (a ∷ []) h = tt
  front-IsAscending (a ∷ (b ∷ [])) h = tt
  front-IsAscending (a ∷ (b ∷ (c ∷ xs))) h = (h.0, front-IsAscending (b ∷ (c ∷ xs)) h.1)

  front-All : (P : Candle D → Type 0) (cs : List (Candle D)) → All P cs → All P (front cs)
  front-All P [] h = tt
  front-All P (a ∷ []) h = tt
  front-All P (a ∷ (b ∷ xs)) h = (h.0, front-All P (b ∷ xs) h.1)

  length-front :
      (cs : List (Candle D)) {c : Candle D}
      → final cs ≡ some c
      → suc (length (front cs)) ≡ length cs
  length-front [] h = cc
  length-front (a ∷ []) h = omega arith
  length-front (a ∷ (b ∷ xs)) h = omega (arith, length-front (b ∷ xs) h)

  final-Precedes :
      (t : D) (cs : List (Candle D)) {c : Candle D}
      → final cs ≡ some c
      → c.open_time < t
      → Precedes t cs
  final-Precedes t [] h k = tt
  final-Precedes t (a ∷ []) {c} h k = rw (← some-injective _ _ h) at k
  final-Precedes t (a ∷ (b ∷ xs)) h k = final-Precedes t (b ∷ xs) h k

  none-final : (t : D) (cs : List (Candle D)) → final cs ≡ none → Precedes t cs
  none-final t [] h = tt
  none-final t (a ∷ []) h = cc
  none-final t (a ∷ (b ∷ xs)) h = none-final t (b ∷ xs) h

  append_bounded-IsBuffer :
      (bound : ℕ) (c : Candle D) (cs : List (Candle D))
      → IsClosed c
      → Precedes c.open_time cs
      → IsBuffer bound cs
      → IsBuffer bound (append_bounded bound c cs)
  unfolding append_bounded
  append_bounded-IsBuffer bound c cs k before b = record {
    bounded = append_bounded_bound bound c cs;
    closed =
        All-drop IsClosed (sub_ℕ (length (cs ++ (c ∷ []))) bound) (cs ++ (c ∷ []))
          (All-append IsClosed cs (c ∷ []) b.closed (k, tt));
    ascending =
        IsAscending-drop (sub_ℕ (length (cs ++ (c ∷ []))) bound) (cs ++ (c ∷ []))
          (IsAscending-snoc cs c b.ascending before);
  }

  module _ (x : IsExact D) where
    front-Precedes :
        (t : D) (cs : List (Candle D)) {c : Candle D}
        → final cs ≡ some c
        → c.open_time ≤ t
        → IsAscending cs
        → Precedes t (front cs)
    front-Precedes t [] h k a = tt
    front-Precedes t (c ∷ []) h k a = tt
    front-Precedes t (c ∷ (e ∷ [])) h k a =
        lt_of_lt_of_le x _ _ _ a.0 (simp (← some-injective _ _ h) at k)
    front-Precedes t (c ∷ (e ∷ (f ∷ xs))) h k a = front-Precedes t (e ∷ (f ∷ xs)) h k a.1

    replaced-IsBuffer :
        (bound : ℕ) (c newest : Candle D) (cs : List (Candle D))
        → IsClosed c
        → final cs ≡ some newest
        → newest.open_time ≤ c.open_time
        → IsBuffer bound cs
        → IsBuffer bound (front cs ++ (c ∷ []))
    replaced-IsBuffer bound c newest cs k h le b = record {
      bounded = omega (arith, length-append (front cs) (c ∷ []), length-front cs h, b.bounded);
      closed = All-append IsClosed (front cs) (c ∷ []) (front-All IsClosed cs b.closed) (k, tt);
      ascending =
          IsAscending-snoc (front cs) c (front-IsAscending cs b.ascending)
            (front-Precedes c.open_time cs h le b.ascending);
    }

    stored_after-IsBuffer :
        (bound : ℕ) (c : Candle D) (newest : Option (Candle D)) (cs : List (Candle D))
        {out : List (Candle D)}
        → IsClosed c
        → final cs ≡ newest
        → IsBuffer bound cs
        → stored_after bound c newest cs ≡ some out
        → IsBuffer bound out
    unfolding stored_after
    stored_after-IsBuffer bound c none cs k h b eq =
        rw (← some-injective _ _ eq) (append_bounded-IsBuffer bound c cs k (none-final _ cs h) b)
    stored_after-IsBuffer bound c (some newest) cs k h b eq =
        elim (Bool-cases (eqb newest.open_time c.open_time)) [
          | inl same ↦
              rw (← some-injective _ _ (rw (same) at eq))
                (replaced-IsBuffer bound c newest cs k h (ground arith) b)
          | inr other ↦ elim (Bool-cases (ltb c.open_time newest.open_time)) [
            | inl stale ↦ let refused = rw (other, stale) at eq in cc
            | inr later ↦ rw (← some-injective _ _ (rw (other, later) at eq)) (
                append_bounded-IsBuffer bound c cs k
                  (final-Precedes c.open_time cs h (ground arith)) b)
          ]
        ]

  -- Every buffer of every symbol.
  abbrev pub IsBuffered : ContextBuilder D → Type 0
  IsBuffered b = AllValues (λ m. AllValues (IsBuffer b.max_candles) m) b.candles

  empty-IsBuffer : (bound : ℕ) → IsBuffer bound []
  empty-IsBuffer bound = record { bounded = omega arith; closed = tt; ascending = tt }

  with_symbol-IsBuffered :
      (found : Option (Dict String (List (Candle D)))) (symbol : String) (b : ContextBuilder D)
      → IsBuffered b
      → IsBuffered (with_symbol found symbol b)
        × ((with_symbol found symbol b).max_candles ≡ b.max_candles)
  with_symbol-IsBuffered none symbol b h = (
    insert-AllValues (λ m. AllValues (IsBuffer b.max_candles) m) symbol (empty_buffers b.intervals)
        b.candles
        (empty_buffers_all (IsBuffer b.max_candles) b.intervals (empty-IsBuffer b.max_candles)) h,
    refl,
  )
  with_symbol-IsBuffered (some m) symbol b h = (h, refl)

  buffers_all :
      (found : Option (Dict String (List (Candle D)))) (symbol : String) (b : ContextBuilder D)
      → lookup symbol b.candles ≡ found
      → IsBuffered b
      → AllValues (IsBuffer b.max_candles) (buffers_or_empty found)
  buffers_all none symbol b e h = tt
  buffers_all (some m) symbol b e h =
      lookup-AllValues (λ (m : Dict String (List (Candle D))). AllValues (IsBuffer b.max_candles) m)
        symbol b.candles h e

  or_empty-IsBuffer :
      (bound : ℕ) (found : Option (List (Candle D))) (interval : String)
      (m : Dict String (List (Candle D)))
      → lookup interval m ≡ found
      → AllValues (IsBuffer bound) m
      → IsBuffer bound (or_empty found)
  or_empty-IsBuffer bound none interval m e h = empty-IsBuffer bound
  or_empty-IsBuffer bound (some cs) interval m e h =
      lookup-AllValues (IsBuffer bound) interval m h e

  put_buffer-IsBuffered :
      (symbol interval : String) (o : Option (List (Candle D))) (b : ContextBuilder D)
      → ((cs : List (Candle D)) → o ≡ some cs → IsBuffer b.max_candles cs)
      → IsBuffered b
      → IsBuffered (put_buffer symbol interval o b).0
  put_buffer-IsBuffered symbol interval none b k h = h
  put_buffer-IsBuffered symbol interval (some cs) b k h =
      insert-AllValues (λ (m : Dict String (List (Candle D))). AllValues (IsBuffer b.max_candles) m)
        symbol _ b.candles
        (insert-AllValues (IsBuffer b.max_candles) interval cs (buffers_of symbol b) (k cs refl)
          (buffers_all (lookup symbol b.candles) symbol b refl h))
        h

  -- Adding a candle, whether it is stored or not, keeps every buffer of the context within its bound,
  -- free of candles that are not closed, and in strictly increasing order of the open times.
  pub add_candle-IsBuffered :
      (x : IsExact D) (c : Candle D) (b : ContextBuilder D)
      → IsBuffered b
      → IsBuffered (add_candle c b).0
  unfolding add_candle store_candle ensure_symbol
  add_candle-IsBuffered x c b h = elim (Bool-cases c.is_closed) [
    | inr forming ↦ simp (forming) h
    | inl closed ↦ elim (Bool-cases (member c.interval b.intervals)) [
      | inr unknown ↦ simp (closed, unknown) h
      | inl known ↦
          let b' = with_symbol (lookup c.symbol b.candles) c.symbol b in
          let buffer = or_empty (lookup c.interval (buffers_of c.symbol b')) in
          let h' = (with_symbol-IsBuffered (lookup c.symbol b.candles) c.symbol b h).0 in
          simp (closed, known)
            (put_buffer-IsBuffered c.symbol c.interval
              (stored_after b'.max_candles c (final buffer) buffer) b'
              (λ out e.
                stored_after-IsBuffer x b'.max_candles c (final buffer) buffer closed refl
                  (or_empty-IsBuffer b'.max_candles (lookup c.interval (buffers_of c.symbol b'))
                    c.interval (buffers_of c.symbol b') refl
                    (buffers_all (lookup c.symbol b'.candles) c.symbol b' refl h'))
                  e)
              h')
    ]
  ]
