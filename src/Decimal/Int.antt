-- ===== src/Decimal/Int.antt =====
-- The laws of exact arithmetic can be met: whole numbers, with the division that rounds down.
use Prim.Native.Nat.{ℕ, suc, ◌+◌, ◌-◌, ◌*◌, ◌/◌, ◌≤◌, ◌<◌}
use crypto_research_platform.Prelude.{◌≡◌, refl, ap, Bool, true, false, arith, leb, if◌then◌else◌}
use native.Mathlib.Nat.{
  add-mul, mul-le-mul_right, le-div_iff_mul-le, div-lt_iff_lt-mul, div-le_of_le-mul,
}
use crypto_research_platform.Decimal.Defs.{Decimal, IsExact}

-- `negsuc n` is -(n + 1).
pub data ℤ : Type 0 where
  pos : ℕ → ℤ
  negsuc : ℕ → ℤ

abbrev pub pos_part : ℤ → ℕ
pos_part (pos n) = n
pos_part (negsuc n) = 0

abbrev pub neg_part : ℤ → ℕ
neg_part (pos n) = 0
neg_part (negsuc n) = suc n

abbrev sub_ℕ : ℕ → ℕ → ℤ
sub_ℕ a b = if leb b a then pos (a - b) else negsuc (b - a - 1)

infixl 65 ◌+ℤ◌ ◌-ℤ◌
infixl 70 ◌*ℤ◌
unfoldable pub ◌+ℤ◌ : ℤ → ℤ → ℤ
a +ℤ b = sub_ℕ (pos_part a + pos_part b) (neg_part a + neg_part b)

unfoldable pub ◌-ℤ◌ : ℤ → ℤ → ℤ
a -ℤ b = sub_ℕ (pos_part a + neg_part b) (neg_part a + pos_part b)

unfoldable pub ◌*ℤ◌ : ℤ → ℤ → ℤ
a *ℤ b =
    sub_ℕ (pos_part a * pos_part b + neg_part a * neg_part b)
      (pos_part a * neg_part b + neg_part a * pos_part b)

-- Rounded down, by a positive divisor; the source divides by no other.
unfoldable pub fdiv : ℤ → ℤ → ℤ
fdiv (pos m) (pos n) = pos (m / n)
fdiv (negsuc m) (pos n) = negsuc (m / n)
fdiv a (negsuc n) = pos 0

abbrev pub leb_ℤ : ℤ → ℤ → Bool
leb_ℤ a b = leb (pos_part a + neg_part b) (pos_part b + neg_part a)

ext : (a b : ℤ) → pos_part a + neg_part b ≡ pos_part b + neg_part a → a ≡ b
ext a b h = ground arith

+ℤ_parts :
    (a b : ℤ)
    → pos_part (a +ℤ b) + neg_part a + neg_part b ≡ neg_part (a +ℤ b) + pos_part a + pos_part b
unfolding ◌+ℤ◌
+ℤ_parts a b = ground arith

-ℤ_parts :
    (a b : ℤ)
    → pos_part (a -ℤ b) + neg_part a + pos_part b ≡ neg_part (a -ℤ b) + pos_part a + neg_part b
unfolding ◌-ℤ◌
-ℤ_parts a b = ground arith

pos_part-*ℤ : (a b : ℤ) → pos_part (a *ℤ b) ≡ pos_part a * pos_part b + neg_part a * neg_part b
unfolding ◌*ℤ◌
pos_part-*ℤ a b = ground arith

neg_part-*ℤ : (a b : ℤ) → neg_part (a *ℤ b) ≡ pos_part a * neg_part b + neg_part a * pos_part b
unfolding ◌*ℤ◌
neg_part-*ℤ a b = ground arith

ruleset products = (pos_part-*ℤ, neg_part-*ℤ)

mul_assoc : (a b c : ℤ) → a *ℤ b *ℤ c ≡ a *ℤ (b *ℤ c)
mul_assoc a b c = ext _ _ (simp products (omega arith))

scaled : (a b c k : ℕ) → a ≤ b + c → a * k ≤ b * k + c * k
scaled a b c k h = rw (← add-mul) (mul-le-mul_right k h)

mul_add : (a b c : ℤ) → a *ℤ (b +ℤ c) ≡ a *ℤ b +ℤ a *ℤ c
mul_add a b c = ext _ _ (
    simp products (
      omega (
        arith,
        simp products at (+ℤ_parts (a *ℤ b) (a *ℤ c)),
        ap (λ (t : ℕ). pos_part a * t) (+ℤ_parts b c),
        ap (λ (t : ℕ). neg_part a * t) (+ℤ_parts b c),
      )))

le_of_leb : (a b : ℤ) → leb_ℤ a b ≡ true → pos_part a + neg_part b ≤ pos_part b + neg_part a
le_of_leb a b h = ground arith

leb_of_le : (a b : ℤ) → pos_part a + neg_part b ≤ pos_part b + neg_part a → leb_ℤ a b ≡ true
leb_of_le a b h = ground arith

mul_mono : (a b c : ℤ) → leb_ℤ (pos 0) c ≡ true → leb_ℤ a b ≡ true → leb_ℤ (a *ℤ c) (b *ℤ c) ≡ true
mul_mono a b (pos c) h k = leb_of_le (a *ℤ pos c) (b *ℤ pos c) (
    simp products (
      omega
        (arith, scaled (pos_part a + neg_part b) (pos_part b) (neg_part a) c (le_of_leb a b k))))
mul_mono a b (negsuc c) h k = ground arith

fdiv-mul-le : (a b : ℤ) → leb_ℤ b (pos 0) ≡ false → leb_ℤ (fdiv a b *ℤ b) a ≡ true
unfolding fdiv
fdiv-mul-le (pos a) (pos b) h =
    leb_of_le (pos (a / b) *ℤ pos b) (pos a) (simp products (grind arith))
fdiv-mul-le (negsuc a) (pos b) h =
    leb_of_le (negsuc (a / b) *ℤ pos b) (negsuc a) (simp products (grind arith))
fdiv-mul-le (pos a) (negsuc b) h = ground arith
fdiv-mul-le (negsuc a) (negsuc b) h = ground arith

mul_le_of_leb :
    (p : ℤ) (b : ℕ) (a : ℤ)
    → leb_ℤ (p *ℤ pos b) a ≡ true
    → pos_part p * b + neg_part a ≤ pos_part a + neg_part p * b
mul_le_of_leb p b a k = omega (arith, simp products at (le_of_leb (p *ℤ pos b) a k))

le_mul_of_leb :
    (p : ℤ) (b : ℕ) (a : ℤ)
    → leb_ℤ a (p *ℤ pos b) ≡ true
    → pos_part a + neg_part p * b ≤ pos_part p * b + neg_part a
le_mul_of_leb p b a k = omega (arith, simp products at (le_of_leb a (p *ℤ pos b) k))

pos_of_leb : (b : ℕ) → leb_ℤ (pos b) (pos 0) ≡ false → 0 < b
pos_of_leb b h = ground arith

le-fdiv :
    (p a b : ℤ) → leb_ℤ b (pos 0) ≡ false → leb_ℤ (p *ℤ b) a ≡ true → leb_ℤ p (fdiv a b) ≡ true
unfolding fdiv
le-fdiv p a (negsuc b) h k = ground arith
le-fdiv (pos p) (pos a) (pos b) h k = leb_of_le (pos p) (pos (a / b)) (
    omega (
      arith,
      (le-div_iff_mul-le {x = p} {y = a} (pos_of_leb b h)).1
          (omega (arith, mul_le_of_leb (pos p) b (pos a) k)),
    ))
le-fdiv (pos p) (negsuc a) (pos b) h k =
    absurd (omega (arith, mul_le_of_leb (pos p) b (negsuc a) k))
le-fdiv (negsuc p) (pos a) (pos b) h k = ground arith
le-fdiv (negsuc p) (negsuc a) (pos b) h k = leb_of_le (negsuc p) (negsuc (a / b)) (
    omega (
      arith,
      (div-lt_iff_lt-mul {x = a} {y = suc p} (pos_of_leb b h)).1
          (omega (arith, mul_le_of_leb (negsuc p) b (negsuc a) k)),
    ))

fdiv-le :
    (p a b : ℤ) → leb_ℤ b (pos 0) ≡ false → leb_ℤ a (p *ℤ b) ≡ true → leb_ℤ (fdiv a b) p ≡ true
unfolding fdiv
fdiv-le p a (negsuc b) h k = ground arith
fdiv-le (pos p) (pos a) (pos b) h k = leb_of_le (pos (a / b)) (pos p) (
    omega (
      arith,
      div-le_of_le-mul b {m = a} {n = p} (omega (arith, le_mul_of_leb (pos p) b (pos a) k)),
    ))
fdiv-le (negsuc p) (pos a) (pos b) h k =
    absurd (omega (arith, le_mul_of_leb (negsuc p) b (pos a) k, pos_of_leb b h))
fdiv-le (pos p) (negsuc a) (pos b) h k = ground arith
fdiv-le (negsuc p) (negsuc a) (pos b) h k = leb_of_le (negsuc (a / b)) (negsuc p) (
    omega (
      arith,
      (le-div_iff_mul-le {x = p} {y = a} (pos_of_leb b h)).1
          (omega (arith, le_mul_of_leb (negsuc p) b (negsuc a) k, pos_of_leb b h)),
    ))

instance abbrev pub whole : Decimal ℤ
whole = record {
  of_ℕ = pos;
  add = ◌+ℤ◌;
  sub = ◌-ℤ◌;
  mul = ◌*ℤ◌;
  div = fdiv;
  leb = leb_ℤ;
  quantize_down = λ n a. a;
  quantize_half_up = λ n a. a;
  round = λ n a. a;
}

pub whole-IsExact : IsExact ℤ
whole-IsExact = record {
  add_assoc = λ a b c. ext _ _ (omega (arith, +ℤ_parts));
  add_comm = λ a b. ext _ _ (omega (arith, +ℤ_parts));
  add_zero = λ a. ext _ _ (omega (arith, +ℤ_parts));
  sub_add = λ a b. ext _ _ (omega (arith, +ℤ_parts, -ℤ_parts));
  add_sub = λ a b. ext _ _ (omega (arith, +ℤ_parts, -ℤ_parts));
  mul_assoc = mul_assoc;
  mul_comm = λ a b. ext _ _ (simp products (omega arith));
  mul_one = λ a. ext _ _ (simp products (omega arith));
  mul_add = mul_add;
  le_antisymm = λ a b h k. ground arith;
  le_trans = λ a b c h k. ground arith;
  le_total = λ a b. ground arith;
  add_mono = λ a b c h. leb_of_le (a +ℤ c) (b +ℤ c) (omega (arith, +ℤ_parts, le_of_leb a b h));
  mul_mono = λ a b c h k. mul_mono a b c h k;
  of_ℕ_mono = λ m n h. ground arith;
  of_ℕ_suc = λ n. ext _ _ (omega (arith, +ℤ_parts));
  zero_lt_one = refl;
  div-mul-le = fdiv-mul-le;
  le-div = le-fdiv;
  div-le = fdiv-le;
  quantize_down-le = λ n a h. ground arith;
  quantize_down_nonneg = λ n a h. h;
  quantize_half_up_mono = λ n a b h. h;
  quantize_half_up_zero = λ n. refl;
  round_mono = λ n a b h. h;
  round-of_ℕ = λ n k. refl;
}
