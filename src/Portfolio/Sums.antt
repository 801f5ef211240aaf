-- ===== src/Portfolio/Sums.antt =====
-- Sums over the values of a dict, as an entry is put in, replaced or removed.
use crypto_research_platform.Prelude.{
  String, ◌≡◌, refl, sym, ap, ◌∙◌, none, some, [], ◌∷◌, arith, string_eq,
}
use crypto_research_platform.Prelude.Dict.{Dict, IsUnique, lookup, insert, erase}
use crypto_research_platform.Decimal.{Decimal, IsExact, ◌+◌, add_right_comm, zero_add}
use crypto_research_platform.Portfolio.State.{sum_of}

module _ {V : Type 0} where
  pub erase_absent : (k : String) (ps : Dict String V) → lookup k ps ≡ none → erase k ps ≡ ps
  unfolding erase lookup
  erase_absent k [] h = refl
  erase_absent k ((j, w) ∷ ps) h = ground (arith, erase_absent k ps)

module _ {D : Type 0} ⦃d : Decimal D⦄ (x : IsExact D) {V : Type 0} (f : V → D) where
  open x use {add_assoc, add_comm, add_zero}

  swap_ends : (a b c : D) → a + b + c ≡ c + b + a
  swap_ends a b c =
      ap (λ (t : D). t + c) (add_comm a b)
      ∙ add_right_comm x b a c
      ∙ ap (λ (t : D). t + a) (add_comm b c)

  pub sum_of-insert_new :
      (k : String) (v : V) (ps : Dict String V)
      → lookup k ps ≡ none
      → sum_of f (insert k v ps) ≡ sum_of f ps + f v
  unfolding insert lookup
  sum_of-insert_new k v [] h = add_zero _ ∙ sym (zero_add x _)
  sum_of-insert_new k v ((j, w) ∷ ps) h =
      ground (arith, sum_of-insert_new k v ps, add_assoc (f w) (sum_of f ps) (f v))

  pub sum_of-insert :
      (k : String) (v : V) {old : V} (ps : Dict String V)
      → lookup k ps ≡ some old
      → sum_of f (insert k v ps) + f old ≡ sum_of f ps + f v
  unfolding insert lookup
  sum_of-insert k v [] h = cc
  sum_of-insert k v {old} ((j, w) ∷ ps) h = ground (
    arith,
    sum_of-insert k v {old = old} ps,
    swap_ends (f v) (sum_of f ps) (f w),
    add_assoc (f w) (sum_of f (insert k v ps)) (f old),
    add_assoc (f w) (sum_of f ps) (f v),
  )

  pub sum_of-erase :
      (k : String) {old : V} (ps : Dict String V)
      → IsUnique ps
      → lookup k ps ≡ some old
      → sum_of f (erase k ps) + f old ≡ sum_of f ps
  unfolding erase lookup
  sum_of-erase k [] u h = cc
  sum_of-erase k {old} ((j, w) ∷ ps) u h = ground (
    arith,
    erase_absent k ps,
    string_eq.same_iff j k,
    sum_of-erase k {old = old} ps u.1,
    add_assoc (f w) (sum_of f (erase k ps)) (f old),
    add_comm (sum_of f ps) (f w),
  )
