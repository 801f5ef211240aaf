-- ===== src/Decimal/Laws.antt =====
-- Ordered-ring facts that follow from the laws of exact arithmetic.
use crypto_research_platform.Prelude.{◌≡◌, sym, ap, ◌∙◌, arith}
use crypto_research_platform.Decimal.Defs.{
  Decimal, IsExact, ◌+◌, ◌-◌, ◌*◌, ◌≤◌, ◌<◌, of_ℕ, min, max,
}

module _ {D : Type 0} ⦃d : Decimal D⦄ (x : IsExact D) where
  open x use {
    add_assoc, add_comm, add_zero, sub_add, add_sub, mul_assoc, mul_comm, mul_one, mul_add,
    le_antisymm, le_trans, le_total, add_mono, mul_mono,
  }

  pub le_refl : (a : D) → a ≤ a
  le_refl a = ground (arith, le_total a a)

  pub le_of_lt : (a b : D) → a < b → a ≤ b
  le_of_lt a b h = ground (arith, le_total a b)

  pub lt_of_lt_of_le : (a b c : D) → a < b → b ≤ c → a < c
  lt_of_lt_of_le a b c h k = ground (arith, le_trans b c a k)

  pub lt_of_le_of_lt : (a b c : D) → a ≤ b → b < c → a < c
  lt_of_le_of_lt a b c h k = ground (arith, λ (p : c ≤ a). le_trans c a b p h)

  pub add_cancel : (a b c : D) → a + c ≡ b + c → a ≡ b
  add_cancel a b c e = sym (add_sub a c) ∙ ap (λ (t : D). t - c) e ∙ add_sub b c

  pub zero_add : (a : D) → of_ℕ 0 + a ≡ a
  zero_add a = add_comm _ _ ∙ add_zero a

  pub sub_self : (a : D) → a - a ≡ of_ℕ 0
  sub_self a = add_cancel _ _ a (sub_add a a ∙ sym (zero_add a))

  pub sub_zero : (a : D) → a - of_ℕ 0 ≡ a
  sub_zero a = sym (add_zero _) ∙ sub_add a (of_ℕ 0)

  -- Regrouping.
  pub add_right_comm : (a b c : D) → a + b + c ≡ a + c + b
  add_right_comm a b c =
      add_assoc a b c ∙ ap (λ (t : D). a + t) (add_comm b c) ∙ sym (add_assoc a c b)

  pub sub_right_comm : (a b c : D) → a - b + c ≡ a + c - b
  sub_right_comm a b c =
      sym (add_sub (a - b + c) b)
      ∙ ap (λ (t : D). t - b) (add_right_comm (a - b) c b ∙ ap (λ (t : D). t + c) (sub_add a b))

  pub add_sub_assoc : (a b c : D) → a + (b - c) ≡ a + b - c
  add_sub_assoc a b c =
      add_comm a (b - c) ∙ sub_right_comm b c a ∙ ap (λ (t : D). t - c) (add_comm b a)

  pub sub_sub : (a b c : D) → a - b - c ≡ a - (b + c)
  sub_sub a b c = add_cancel _ _ (b + c) (
      ap (λ (t : D). a - b - c + t) (add_comm b c)
      ∙ sym (add_assoc _ c b)
      ∙ ap (λ (t : D). t + b) (sub_add (a - b) c)
      ∙ sub_add a b
      ∙ sym (sub_add a (b + c)))

  pub sub_add_sub : (a b c : D) → (a - b) + (b - c) ≡ a - c
  sub_add_sub a b c = add_sub_assoc (a - b) b c ∙ ap (λ (t : D). t - c) (sub_add a b)

  pub add_mul : (a b c : D) → (a + b) * c ≡ a * c + b * c
  add_mul a b c =
      mul_comm _ c
      ∙ mul_add c a b
      ∙ ap (λ (t : D). t + c * b) (mul_comm c a)
      ∙ ap (λ (t : D). a * c + t) (mul_comm c b)

  pub sub_mul : (a b c : D) → (a - b) * c ≡ a * c - b * c
  sub_mul a b c = add_cancel _ _ (b * c) (
      sym (add_mul (a - b) b c)
      ∙ ap (λ (t : D). t * c) (sub_add a b)
      ∙ sym (sub_add (a * c) (b * c)))

  pub mul_sub : (a b c : D) → a * (b - c) ≡ a * b - a * c
  mul_sub a b c =
      mul_comm a _
      ∙ sub_mul b c a
      ∙ ap (λ (t : D). t - c * a) (mul_comm b a)
      ∙ ap (λ (t : D). a * b - t) (mul_comm c a)

  pub mul_right_comm : (a b c : D) → a * b * c ≡ a * c * b
  mul_right_comm a b c =
      mul_assoc a b c ∙ ap (λ (t : D). a * t) (mul_comm b c) ∙ sym (mul_assoc a c b)

  pub zero_mul : (a : D) → of_ℕ 0 * a ≡ of_ℕ 0
  zero_mul a =
      ap (λ (t : D). t * a) (sym (sub_self (of_ℕ 0))) ∙ sub_mul (of_ℕ 0) (of_ℕ 0) a ∙ sub_self _

  pub mul_zero : (a : D) → a * of_ℕ 0 ≡ of_ℕ 0
  mul_zero a = mul_comm _ _ ∙ zero_mul a

  -- Order.
  pub le_of_add_le_add : (a b c : D) → a + c ≤ b + c → a ≤ b
  le_of_add_le_add a b c h = ground (
    arith,
    le_total a b,
    add_mono b a c,
    le_antisymm (a + c) (b + c),
    add_cancel a b c,
    le_refl a,
  )

  pub sub_nonneg : (a b : D) → b ≤ a → of_ℕ 0 ≤ a - b
  sub_nonneg a b h = le_of_add_le_add _ _ b (rw (zero_add, sub_add) h)

  pub le_of_sub_nonneg : (a b : D) → of_ℕ 0 ≤ a - b → b ≤ a
  le_of_sub_nonneg a b h = rw (zero_add, sub_add) at (add_mono _ _ b h)

  pub sub_pos : (a b : D) → b < a → of_ℕ 0 < a - b
  sub_pos a b h =
      ground
        (arith, λ (k : a - b ≤ of_ℕ 0). (rw (sub_add, zero_add) at (add_mono (a - b) (of_ℕ 0) b k)))

  pub sub_le_self : (a b : D) → of_ℕ 0 ≤ b → a - b ≤ a
  sub_le_self a b h =
      le_of_add_le_add _ _ b
        (rw (sub_add) (rw (add_comm a b) (rw (zero_add) at (add_mono (of_ℕ 0) b a h))))

  pub add_nonneg : (a b : D) → of_ℕ 0 ≤ a → of_ℕ 0 ≤ b → of_ℕ 0 ≤ a + b
  add_nonneg a b h k = le_trans _ _ _ k (rw (zero_add) at (add_mono (of_ℕ 0) a b h))

  pub mul_nonneg : (a b : D) → of_ℕ 0 ≤ a → of_ℕ 0 ≤ b → of_ℕ 0 ≤ a * b
  mul_nonneg a b h k = rw (zero_mul) at (mul_mono (of_ℕ 0) a b k h)

  pub mul_mono_right : (a b c : D) → of_ℕ 0 ≤ c → a ≤ b → c * a ≤ c * b
  mul_mono_right a b c h k = rw (mul_comm c a, mul_comm c b) (mul_mono a b c h k)

  pub sub_mono : (a b c : D) → a ≤ b → a - c ≤ b - c
  sub_mono a b c h = le_of_add_le_add _ _ c (rw (sub_add, sub_add) h)

  pub sub_anti : (a b c : D) → a ≤ b → c - b ≤ c - a
  sub_anti a b c h = le_of_add_le_add _ _ (a + b) (
      let l : c - b + (a + b) ≡ a + c =
        ap (λ (t : D). c - b + t) (add_comm a b)
        ∙ sym (add_assoc _ b a)
        ∙ ap (λ (t : D). t + a) (sub_add c b)
        ∙ add_comm c a in
      let r : c - a + (a + b) ≡ b + c =
        sym (add_assoc _ a b) ∙ ap (λ (t : D). t + b) (sub_add c a) ∙ add_comm c b in
      rw (l, r) (add_mono a b c h))

  pub min-le_left : (a b : D) → min a b ≤ a
  min-le_left a b = ground (arith, le_total a b, le_refl a)

  pub min-le_right : (a b : D) → min a b ≤ b
  min-le_right a b = ground (arith, le_total a b, le_refl b)

  pub le-max_left : (a b : D) → a ≤ max a b
  le-max_left a b = ground (arith, le_total a b, le_refl a)

  pub le-max_right : (a b : D) → b ≤ max a b
  le-max_right a b = ground (arith, le_total a b, le_refl b)
