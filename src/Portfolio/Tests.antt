-- ===== src/Portfolio/Tests.antt =====
-- A long of 2 bought at 100, sold by 5 at 130: a flip to a short of 3.
use crypto_research_platform.Prelude.{
  ℕ, string_eq, String, Bool, true, false, ◌≡◌, refl, Option, none, some, List, [],
}
use crypto_research_platform.Prelude.Dict.{Dict, IsUnique, lookup}
use crypto_research_platform.Decimal.{Decimal, of_ℕ, ◌-◌}
use crypto_research_platform.Decimal.Int.{ℤ, pos, negsuc, whole, whole-IsExact}
use crypto_research_platform.Schemas.{Side, Fill}
use crypto_research_platform.Portfolio.{Clock, Tracker, create, mark, apply_fill, equity}
use crypto_research_platform.Portfolio.Accounting.{
  IsBalanced, create-IsBalanced, apply_fill-IsBalanced,
}
use crypto_research_platform.Portfolio.Equity.{equity-apply_fill}

abbrev clock : Clock ℤ
clock = record { now = pos 50; today = 3 }

abbrev fill_of : Side → ℤ → ℤ → Fill ℤ
fill_of side size price = record {
  fill_id = 1;
  order_id = 2;
  decision_id = some 3;
  symbol = "BTC";
  side = side;
  size = size;
  price = price;
  fee = pos 1;
  slippage_bps = pos 0;
  reference_price = none;
  is_paper = true;
  reduce_only = false;
  correlation_id = 4;
}

abbrev bought : Tracker ℤ
bought =
    (apply_fill clock (fill_of Side.buy (pos 2) (pos 100)) none (create (pos 1000) true clock)).0

abbrev sale : Fill ℤ
sale = fill_of Side.sell (pos 5) (pos 130)

equity_flipped : equity (apply_fill clock sale none bought).0 ≡ pos 1058
unfolding equity apply_fill create crypto_research_platform.Decimal.Int.◌+ℤ◌ lookup
    crypto_research_platform.Portfolio.roll_day crypto_research_platform.Prelude.Dict.insert
    crypto_research_platform.Decimal.Int.◌-ℤ◌ crypto_research_platform.Portfolio.realised
    crypto_research_platform.Decimal.Int.◌*ℤ◌ crypto_research_platform.Schemas.sign
    crypto_research_platform.Portfolio.total_unrealized
    crypto_research_platform.Portfolio.reduce_positions crypto_research_platform.Prelude.Dict.erase
    crypto_research_platform.Schemas.unrealized_pnl
equity_flipped = refl

apply_fill-IsBalanced_example : IsBalanced (apply_fill clock sale none bought).0
apply_fill-IsBalanced_example = apply_fill-IsBalanced whole-IsExact clock sale none bought (
    apply_fill-IsBalanced whole-IsExact clock (fill_of Side.buy (pos 2) (pos 100)) none
      (create (pos 1000) true clock) (create-IsBalanced whole-IsExact (pos 1000) true clock))

equity-apply_fill_example :
    equity (apply_fill clock sale none bought).0
    ≡ equity (mark clock "BTC" (pos 130) bought).0 - pos 1
unfolding apply_fill create lookup crypto_research_platform.Portfolio.roll_day
    crypto_research_platform.Prelude.Dict.insert
equity-apply_fill_example =
    equity-apply_fill whole-IsExact clock sale none bought refl (refl, tt) tt
