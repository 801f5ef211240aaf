-- ===== src/Research/Statistics.antt =====
-- services/research/statistics.py. The functions of the math module are a parameter; `none` is an
-- exception. In `benjamini_hochberg` a `largest_hit` of -1 is 0: ranks begin at 1.
use Prim.Native.Nat.{◌-◌ as sub_ℕ, ◌*◌ as mul_ℕ}
use crypto_research_platform.Prelude.{
  ℕ, zero, suc, ◌+ℕ◌, Bool, true, false, not, ◌&&◌, ◌||◌, Option, none, some, List, [], ◌∷◌, map,
  length, take, ltb as ltb_ℕ, eqb as eqb_ℕ, if◌then◌else◌,
}
use crypto_research_platform.Decimal.{
  Decimal, ◌+◌, ◌-◌, ◌*◌, ◌/◌, of_ℕ, leb, ltb, eqb, min, abs, sum,
}
use crypto_research_platform.Analyst.Levels.{sort_by}

pub record Math (D : Type 0) : Type 0 where
  pub lgamma : D → D
  pub exp : D → D
  pub log : D → D
  pub log1p : D → D
  pub sqrt : D → D
  -- `_TINY` and `_EPSILON`
  pub tiny : D
  pub epsilon : D

pub record TestResult (D : Type 0) : Type 0 where
  pub statistic : D
  pub p_value : D
  pub sample_size : ℕ

module _ {D : Type 0} ⦃d : Decimal D⦄ where
  unfoldable pub significant_at_05 : TestResult D → Bool
  significant_at_05 r = ltb r.p_value (of_ℕ 5 / of_ℕ 100)

  abbrev pub numbered : ℕ → List D → List (ℕ × D)
  numbered k [] = []
  numbered k (p ∷ ps) = (k, p) ∷ numbered (suc k) ps

  unfoldable pub largest_hit : D → ℕ → ℕ → ℕ → List (ℕ × D) → ℕ
  largest_hit alpha n rank hit [] = hit
  largest_hit alpha n rank hit (e ∷ es) =
      largest_hit alpha n (suc rank) (if leb e.1 (alpha * of_ℕ rank / of_ℕ n) then rank else hit) es

  abbrev pub listed : ℕ → List (ℕ × D) → Bool
  listed i [] = false
  listed i (e ∷ es) = if eqb_ℕ e.0 i then true else listed i es

  abbrev pub ordered : List D → List (ℕ × D)
  ordered ps = sort_by (λ a b. leb a.1 b.1) (numbered 0 ps)

  abbrev pub discoveries : D → List D → List (ℕ × D)
  discoveries alpha ps = take (largest_hit alpha (length ps) 1 0 (ordered ps)) (ordered ps)

  -- `none` is the `ValueError`
  unfoldable pub benjamini_hochberg : List D → D → Option (List Bool)
  unfolding largest_hit
  benjamini_hochberg ps alpha =
      if not (ltb (of_ℕ 0) alpha && leb alpha (of_ℕ 1))
      then none
      else some (map (λ e. listed e.0 (discoveries alpha ps)) (numbered 0 ps))

  unfoldable pub bonferroni : List D → D → List Bool
  bonferroni [] alpha = []
  bonferroni (p ∷ ps) alpha = map (λ q. leb q (alpha / of_ℕ (length (p ∷ ps)))) (p ∷ ps)

  abbrev pub squares_from : D → List D → D
  squares_from mean [] = of_ℕ 0
  squares_from mean (v ∷ vs) = (v - mean) * (v - mean) + squares_from mean vs

  abbrev pub no_evidence : ℕ → TestResult D
  no_evidence n = record { statistic = of_ℕ 0; p_value = of_ℕ 1; sample_size = n }

module _ {D : Type 0} ⦃d : Decimal D⦄ (m : Math D) where
  unfoldable pub log_beta : D → D → D
  log_beta a b = m.lgamma a + m.lgamma b - m.lgamma (a + b)

  abbrev pub guarded : D → D
  guarded v = if ltb (abs v) m.tiny then m.tiny else v

  -- One half of a step of Lentz's method: the next `c`, `d` and `h`.
  abbrev pub lentz : D → D × D × D → D × D × D
  lentz numerator (c, e, h) =
      let e' = of_ℕ 1 / guarded (of_ℕ 1 + numerator * e) in
      let c' = guarded (of_ℕ 1 + numerator / c) in (c', e', h * (e' * c'))

  abbrev pub even_term : D → D → D → ℕ → D
  even_term a b x k =
      of_ℕ k * (b - of_ℕ k) * x / ((a - of_ℕ 1 + of_ℕ (mul_ℕ 2 k)) * (a + of_ℕ (mul_ℕ 2 k)))

  abbrev pub odd_term : D → D → D → ℕ → D
  odd_term a b x k =
      (of_ℕ 0 - (a + of_ℕ k))
      * (a + b + of_ℕ k)
      * x
      / ((a + of_ℕ (mul_ℕ 2 k)) * (a + of_ℕ 1 + of_ℕ (mul_ℕ 2 k)))

  -- The loop, by the iterations that are left.
  abbrev pub betacf_from : D → D → D → ℕ → ℕ → D × D × D → D
  betacf_from a b x zero k s = s.2
  betacf_from a b x (suc left) k s =
      let next = lentz (odd_term a b x k) (lentz (even_term a b x k) s) in
      let rest = betacf_from a b x left (suc k) next in
      if ltb (abs (next.0 * next.1 - of_ℕ 1)) m.epsilon then next.2 else rest

  unfoldable pub betacf : D → D → D → D
  betacf a b x =
      let e = of_ℕ 1 / guarded (of_ℕ 1 - (a + b) * x / (a + of_ℕ 1)) in
      betacf_from a b x 300 1 (of_ℕ 1, e, e)

  abbrev pub front : D → D → D → D
  front a b x = m.exp (a * m.log x + b * m.log1p (of_ℕ 0 - x) - log_beta a b)

  unfoldable pub regularized_incomplete_beta : D → D → D → Option D
  unfolding betacf log_beta
  regularized_incomplete_beta a b x =
      if leb a (of_ℕ 0) || leb b (of_ℕ 0)
      then none
      else if not (leb (of_ℕ 0) x && leb x (of_ℕ 1))
      then none
      else if eqb x (of_ℕ 0) || eqb x (of_ℕ 1)
      then some x
      else if ltb x ((a + of_ℕ 1) / (a + b + of_ℕ 2))
      then some (front a b x * betacf a b x / a)
      else some (of_ℕ 1 - front a b x * betacf b a (of_ℕ 1 - x) / b)

  abbrev pub tail_of : D → Option D → Option D
  tail_of t none = none
  tail_of t (some i) =
      let tail = of_ℕ 1 / of_ℕ 2 * i in some (if ltb (of_ℕ 0) t then tail else of_ℕ 1 - tail)

  unfoldable pub student_t_sf : D → D → Option D
  unfolding regularized_incomplete_beta
  student_t_sf t freedom =
      if leb freedom (of_ℕ 0)
      then none
      else tail_of t (
          regularized_incomplete_beta (of_ℕ 1 / of_ℕ 2 * freedom) (of_ℕ 1 / of_ℕ 2)
            (freedom / (freedom + t * t)))

  -- `none` is minus infinity.
  unfoldable pub log_binomial_pmf : ℕ → ℕ → D → Option D
  log_binomial_pmf k n p =
      if leb p (of_ℕ 0)
      then (if eqb_ℕ k 0 then some (of_ℕ 0) else none)
      else if leb (of_ℕ 1) p
      then (if eqb_ℕ k n then some (of_ℕ 0) else none)
      else some (
          m.lgamma (of_ℕ (n +ℕ 1))
          - m.lgamma (of_ℕ (k +ℕ 1))
          - m.lgamma (of_ℕ (sub_ℕ n k +ℕ 1))
          + of_ℕ k * m.log p
          + of_ℕ (sub_ℕ n k) * m.log1p (of_ℕ 0 - p))

  -- `mass <= threshold`, and what the outcome adds to the total.
  abbrev pub mass_if : Option D → Option D → D
  mass_if none threshold = of_ℕ 0
  mass_if (some mass) none = of_ℕ 0
  mass_if (some mass) (some threshold) = if leb mass threshold then m.exp mass else of_ℕ 0

  abbrev pub plus_tolerance : Option D → Option D
  plus_tolerance none = none
  plus_tolerance (some v) = some (v + of_ℕ 1 / of_ℕ 1000000000)

  -- The total over the outcomes below a bound.
  abbrev pub total_below : ℕ → ℕ → D → Option D → D
  total_below zero n p threshold = of_ℕ 0
  total_below (suc k) n p threshold =
      total_below k n p threshold + mass_if (log_binomial_pmf k n p) threshold

  unfoldable pub binomial_test : ℕ → ℕ → D → Option (TestResult D)
  unfolding log_binomial_pmf
  binomial_test successes trials p =
      if ltb_ℕ trials successes
      then none
      else if not (leb (of_ℕ 0) p && leb p (of_ℕ 1))
      then none
      else if eqb_ℕ trials 0
      then some (no_evidence 0)
      else some (record {
        statistic = of_ℕ successes;
        p_value = min (of_ℕ 1) (
            total_below (suc trials) trials p
              (plus_tolerance (log_binomial_pmf successes trials p)));
        sample_size = trials;
      })

  abbrev pub two_sided : D → ℕ → Option D → Option (TestResult D)
  two_sided t n none = none
  two_sided t n (some tail) =
      some (record { statistic = t; p_value = min (of_ℕ 1) (of_ℕ 2 * tail); sample_size = n })

  unfoldable pub one_sample_t_test : List D → D → Option (TestResult D)
  unfolding student_t_sf
  one_sample_t_test values population_mean =
      let n = length values in
      let mean = sum values / of_ℕ n in
      let variance = squares_from mean values / of_ℕ (sub_ℕ n 1) in
      let t = (mean - population_mean) / m.sqrt (variance / of_ℕ n) in
      if ltb_ℕ n 2
      then some (no_evidence n)
      else if leb variance (of_ℕ 0)
      then some (no_evidence n)
      else two_sided t n (student_t_sf (abs t) (of_ℕ (sub_ℕ n 1)))
