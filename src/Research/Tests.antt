-- ===== src/Research/Tests.antt =====
-- Two p-values at a level of 1, and three firings of a signal at a horizon of 3 bars.
use crypto_research_platform.Prelude.{ℕ, ◌≡◌, refl, true, false, some, List, [], ◌∷◌}
use crypto_research_platform.Decimal.Int.{ℤ, pos, whole, whole-IsExact, ◌*ℤ◌, fdiv}
use crypto_research_platform.Schemas.{Direction}
use crypto_research_platform.Analyst.Levels.{insert_by, sort_by}
use crypto_research_platform.Research.Statistics.{largest_hit, bonferroni, benjamini_hochberg}
use crypto_research_platform.Research.Corrections.{Implied, benjamini_hochberg-Implied}
use crypto_research_platform.Research.Study.{Observation, mark_from, mark_independent}
use crypto_research_platform.Research.Thinning.{IsSpaced, IsMaximal, mark_independent-IsMaximal}

abbrev p_values : List ℤ
p_values = pos 0 ∷ pos 1 ∷ []

rejected_both : benjamini_hochberg p_values (pos 1) ≡ some (true ∷ true ∷ [])
unfolding benjamini_hochberg largest_hit sort_by insert_by ◌*ℤ◌ fdiv
rejected_both = refl

rejected_one : bonferroni p_values (pos 1) ≡ true ∷ false ∷ []
unfolding bonferroni fdiv
rejected_one = refl

benjamini_hochberg-Implied_example : Implied (bonferroni p_values (pos 1)) (true ∷ true ∷ [])
benjamini_hochberg-Implied_example =
    benjamini_hochberg-Implied whole-IsExact p_values (pos 1) (true ∷ true ∷ []) rejected_both

abbrev fired_at : ℕ → Observation ℤ
fired_at index = record {
  symbol = "BTC";
  index = index;
  timestamp = pos index;
  direction = Direction.long;
  probability = pos 1;
  conviction = pos 1;
  value = pos 2;
  entry_price = pos 100;
  exit_price = pos 100;
  gross_return = pos 0;
  net_return = pos 0;
  independent = false;
}

abbrev fired : List (Observation ℤ)
fired = fired_at 1 ∷ fired_at 2 ∷ fired_at 4 ∷ []

marked :
    mark_independent 3 fired
    ≡ record (fired_at 1) { independent = true }
      ∷ fired_at 2
      ∷ record (fired_at 4) { independent = true }
      ∷ []
unfolding mark_independent mark_from
marked = refl

mark_independent-IsMaximal_example :
    IsSpaced 3 (mark_independent 3 fired) × IsMaximal 3 [] (mark_independent 3 fired)
mark_independent-IsMaximal_example = mark_independent-IsMaximal 3 fired (refl, (refl, (refl, tt)))
