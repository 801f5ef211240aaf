-- ===== src/Decimal/Sums.antt =====
-- `sum` and `statistics.fmean` over a list.
use mathlib.Core.List.{List, [], ◌∷◌}
use crypto_research_platform.Prelude.{length}
use crypto_research_platform.Decimal.Defs.{Decimal, ◌+◌, ◌/◌, of_ℕ}

module _ {D : Type 0} ⦃d : Decimal D⦄ where
  abbrev pub sum : List D → D
  sum [] = of_ℕ 0
  sum (x ∷ xs) = x + sum xs

  -- Of a list that is not empty.
  abbrev pub fmean : List D → D
  fmean xs = sum xs / of_ℕ (length xs)
