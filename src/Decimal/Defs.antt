-- ===== src/Decimal/Defs.antt =====
-- The operations on `Decimal` and `float` that the source uses, and the laws of exact arithmetic.
use Prim.Native.Nat.{ℕ, suc}
use Prim.Native.Nat.{◌≤◌ as le_ℕ}
use mathlib.Core.Path.{◌≡◌}
use mathlib.Core.Bool.{Bool, true, false, not}
use mathlib.Core.Logic.{◌⊎◌}
use crypto_research_platform.Prelude.{if◌then◌else◌}

pub record Decimal (D : Type 0) : Type 0 where
  pub of_ℕ : ℕ → D
  pub add : D → D → D
  pub sub : D → D → D
  pub mul : D → D → D
  pub div : D → D → D
  pub leb : D → D → Bool
  -- `quantize` to so many places, with ROUND_DOWN and with ROUND_HALF_UP
  pub quantize_down : ℕ → D → D
  pub quantize_half_up : ℕ → D → D
  -- `round` of a float
  pub round : ℕ → D → D

module _ {D : Type 0} ⦃d : Decimal D⦄ where
  infixl 65 ◌+◌ ◌-◌
  infixl 70 ◌*◌ ◌/◌
  infix 50 ◌≤◌ ◌<◌
  abbrev pub ◌+◌ : D → D → D
  ◌+◌ = d.add

  abbrev pub ◌-◌ : D → D → D
  ◌-◌ = d.sub

  abbrev pub ◌*◌ : D → D → D
  ◌*◌ = d.mul

  abbrev pub ◌/◌ : D → D → D
  ◌/◌ = d.div

  abbrev pub of_ℕ : ℕ → D
  of_ℕ = d.of_ℕ

  abbrev pub quantize_down : ℕ → D → D
  quantize_down = d.quantize_down

  abbrev pub quantize_half_up : ℕ → D → D
  quantize_half_up = d.quantize_half_up

  abbrev pub round : ℕ → D → D
  round = d.round

  -- The tests, as the source writes them: `a <= b` and `a < b`.
  abbrev pub leb : D → D → Bool
  leb = d.leb

  abbrev pub ltb : D → D → Bool
  ltb a b = not (d.leb b a)

  -- `a == b`
  abbrev pub eqb : D → D → Bool
  eqb a b = if d.leb a b then d.leb b a else false

  abbrev pub ◌≤◌ : D → D → Type 0
  a ≤ b = d.leb a b ≡ true

  abbrev pub ◌<◌ : D → D → Type 0
  a < b = d.leb b a ≡ false

  abbrev pub max : D → D → D
  max a b = if ltb a b then b else a

  abbrev pub min : D → D → D
  min a b = if ltb b a then b else a

  abbrev pub abs : D → D
  abs a = if ltb a (of_ℕ 0) then of_ℕ 0 - a else a

-- Exact arithmetic in an ordered commutative ring; `div` is exact or rounds down.
pub record IsExact (D : Type 0) ⦃d : Decimal D⦄ : Type 0 where
  pub add_assoc : (a b c : D) → a + b + c ≡ a + (b + c)
  pub add_comm : (a b : D) → a + b ≡ b + a
  pub add_zero : (a : D) → a + of_ℕ 0 ≡ a
  pub sub_add : (a b : D) → a - b + b ≡ a
  pub add_sub : (a b : D) → a + b - b ≡ a
  pub mul_assoc : (a b c : D) → a * b * c ≡ a * (b * c)
  pub mul_comm : (a b : D) → a * b ≡ b * a
  pub mul_one : (a : D) → a * of_ℕ 1 ≡ a
  pub mul_add : (a b c : D) → a * (b + c) ≡ a * b + a * c
  pub le_antisymm : (a b : D) → a ≤ b → b ≤ a → a ≡ b
  pub le_trans : (a b c : D) → a ≤ b → b ≤ c → a ≤ c
  pub le_total : (a b : D) → (a ≤ b) ⊎ (b ≤ a)
  pub add_mono : (a b c : D) → a ≤ b → a + c ≤ b + c
  pub mul_mono : (a b c : D) → of_ℕ 0 ≤ c → a ≤ b → a * c ≤ b * c
  pub of_ℕ_mono : (m n : ℕ) → le_ℕ m n → of_ℕ {D = D} m ≤ of_ℕ n
  pub of_ℕ_suc : (n : ℕ) → of_ℕ (suc n) ≡ of_ℕ {D = D} n + of_ℕ 1
  pub zero_lt_one : of_ℕ {D = D} 0 < of_ℕ 1
  pub div-mul-le : (a b : D) → of_ℕ 0 < b → a / b * b ≤ a
  pub le-div : (p a b : D) → of_ℕ 0 < b → p * b ≤ a → p ≤ a / b
  pub div-le : (p a b : D) → of_ℕ 0 < b → a ≤ p * b → a / b ≤ p
  pub quantize_down-le : (n : ℕ) (a : D) → of_ℕ 0 ≤ a → quantize_down n a ≤ a
  pub quantize_down_nonneg : (n : ℕ) (a : D) → of_ℕ 0 ≤ a → of_ℕ 0 ≤ quantize_down n a
  pub quantize_half_up_mono :
      (n : ℕ) (a b : D) → a ≤ b → quantize_half_up n a ≤ quantize_half_up n b
  pub quantize_half_up_zero : (n : ℕ) → quantize_half_up n (of_ℕ 0) ≡ of_ℕ {D = D} 0
  pub round_mono : (n : ℕ) (a b : D) → a ≤ b → round n a ≤ round n b
  pub round-of_ℕ : (n k : ℕ) → round n (of_ℕ k) ≡ of_ℕ {D = D} k
