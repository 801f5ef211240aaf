-- ===== src/Ingestion/Parsing.antt =====
-- services/data_ingestion/market_data/parsing.py, `parse_history_candle`, `parse_funding` and
-- `_request_with_backoff`. A decoded JSON value and its conversions are a parameter.
use crypto_research_platform.Prelude.{
  ℕ, zero, suc, String, Bool, true, Option, none, some, List, [], ◌∷◌, if◌then◌else◌,
}
use crypto_research_platform.Decimal.{Decimal, ◌*◌, of_ℕ, min}
use crypto_research_platform.Schemas.{Candle, FundingRate}

-- What the source uses of a decoded value: `none` of a conversion is its exception.
pub record Json (V D : Type 0) : Type 0 where
  -- `isinstance(v, dict)`, and `v.get(field)` of a field that is there
  pub is_dict : V → Bool
  pub get : String → V → Option V
  pub is_null : V → Bool
  pub items : V → Option (List V)
  pub as_text : V → Option String
  -- `Decimal(str(v))`, `datetime.fromtimestamp(int(v) / 1000.0)` and `int(v or 0)`
  pub as_decimal : V → Option D
  pub as_time : V → Option D
  pub as_count : V → Option ℕ
  -- The id of the event that is made of a value.
  pub fresh_id : V → ℕ

-- `malformed` is a `PayloadError`, `crashed` another exception.
pub data Parsed (A : Type 0) : Type 0 where
  parsed : A → Parsed A
  malformed crashed : Parsed A

infixl 5 ◌>>=◌
abbrev pub ◌>>=◌ : {A B : Type 0} → Parsed A → (A → Parsed B) → Parsed B
parsed a >>= f = f a
malformed >>= f = malformed
crashed >>= f = crashed

abbrev pub or_malformed : {A : Type 0} → Option A → Parsed A
or_malformed none = malformed
or_malformed (some a) = parsed a

abbrev pub or_crashed : {A : Type 0} → Option A → Parsed A
or_crashed none = crashed
or_crashed (some a) = parsed a

module _ {V D : Type 0} ⦃d : Decimal D⦄ (j : Json V D) where
  unfoldable pub to_decimal : Option V → Parsed D
  to_decimal none = malformed
  to_decimal (some v) = if j.is_null v then malformed else or_malformed (j.as_decimal v)

  unfoldable pub to_datetime : Option V → Parsed D
  to_datetime none = malformed
  to_datetime (some v) = if j.is_null v then malformed else or_malformed (j.as_time v)

  abbrev pub text_field : Option V → Parsed String
  text_field none = malformed
  text_field (some v) = or_malformed (j.as_text v)

  -- `payload.get("v", 0)` and `int(payload.get("n", 0) or 0)`
  abbrev pub decimal_or_zero : Option V → Parsed D
  decimal_or_zero none = parsed (of_ℕ 0)
  decimal_or_zero (some v) = to_decimal (some v)

  abbrev pub count_or_zero : Option V → Parsed ℕ
  count_or_zero none = parsed 0
  count_or_zero (some v) = or_crashed (j.as_count v)

  unfoldable pub parse_history_candle : V → Parsed (Candle D)
  unfolding to_decimal to_datetime
  parse_history_candle v = do
    symbol ← text_field (j.get "s" v)
    interval ← text_field (j.get "i" v)
    open_time ← to_datetime (j.get "t" v)
    close_time ← to_datetime (j.get "T" v)
    opened ← to_decimal (j.get "o" v)
    high ← to_decimal (j.get "h" v)
    low ← to_decimal (j.get "l" v)
    close ← to_decimal (j.get "c" v)
    volume ← decimal_or_zero (j.get "v" v)
    trades ← count_or_zero (j.get "n" v)
    parsed (record {
      symbol = symbol;
      interval = interval;
      open_time = open_time;
      close_time = close_time;
      open_price = opened;
      high = high;
      low = low;
      close = close;
      volume = volume;
      trade_count = trades;
      is_closed = true;
      correlation_id = j.fresh_id v;
    })

  abbrev pub optional_decimal : Option V → Parsed (Option D)
  optional_decimal none = parsed none
  optional_decimal (some v) =
      if j.is_null v then parsed none else (to_decimal (some v) >>= λ a. parsed (some a))

  unfoldable pub parse_funding : V → Parsed (FundingRate D)
  unfolding to_decimal to_datetime
  parse_funding v = do
    symbol ← text_field (j.get "coin" v)
    rate ← to_decimal (j.get "fundingRate" v)
    premium ← optional_decimal (j.get "premium" v)
    at ← to_datetime (j.get "time" v)
    parsed (record { symbol = symbol; funding_rate = rate; premium = premium; occurred_at = at })

-- How the server answers a request.
pub data Answer (V : Type 0) : Type 0 where
  limited refused : Answer V
  body : V → Answer V

module _ {V D : Type 0} ⦃d : Decimal D⦄ where
  -- `_request_with_backoff`: the answers that come, the delay before the next try; the result is the
  -- body, or `none` for the exception, and the delays that were slept.
  unfoldable pub request_with_backoff : ℕ → (ℕ → Answer V) → D → Option V × List D
  request_with_backoff zero answer delay = (none, [])
  request_with_backoff (suc n) answer delay =
      let rest = request_with_backoff n (λ i. answer (suc i)) (min (delay * of_ℕ 2) (of_ℕ 30)) in
      elim (answer 0) [
        | limited ↦ (rest.0, delay ∷ rest.1)
        | refused ↦ (none, [])
        | body v ↦ (some v, [])
      ]
