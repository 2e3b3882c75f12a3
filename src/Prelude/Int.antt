-- ===== src/Prelude/Int.antt =====
-- Signed integers, and Go's int64: a number of 64 bits whose sums and differences wrap.
use Prim.Native.Nat.{compare, Ordering, ℕ, suc, ◌+◌, ◌-◌, ◌%◌, ◌^◌, ◌≤◌, ◌<◌}
use mathlib.Core.Path.{◌≡◌}
use mathlib.Core.Bool.{Bool, true, false}
use native.Mathlib.Omega.{arith}

-- `negsuc n` is -(n + 1).
pub data ℤ : Type 0 where
  pos : ℕ → ℤ
  negsuc : ℕ → ℤ

abbrev pub pos_part : ℤ → ℕ
pos_part (pos n) = n
pos_part (negsuc n) = 0

abbrev pub neg_part : ℤ → ℕ
neg_part (pos n) = 0
neg_part (negsuc n) = suc n

abbrev pub sub_ℕ : ℕ → ℕ → ℤ
sub_ℕ a b = elim (compare a b) [ Ordering.lt ↦ negsuc (b - a - 1) | _ ↦ pos (a - b) ]

infixl 65 ◌+ℤ◌ ◌-ℤ◌
infix 50 ◌≤ℤ◌ ◌<ℤ◌
unfoldable pub ◌+ℤ◌ : ℤ → ℤ → ℤ
a +ℤ b = sub_ℕ (pos_part a + pos_part b) (neg_part a + neg_part b)

unfoldable pub ◌-ℤ◌ : ℤ → ℤ → ℤ
a -ℤ b = sub_ℕ (pos_part a + neg_part b) (neg_part a + pos_part b)

abbrev pub ◌≤ℤ◌ : ℤ → ℤ → Type 0
a ≤ℤ b = pos_part a + neg_part b ≤ pos_part b + neg_part a

abbrev pub ◌<ℤ◌ : ℤ → ℤ → Type 0
a <ℤ b = pos_part a + neg_part b < pos_part b + neg_part a

abbrev pub ltb_ℤ : ℤ → ℤ → Bool
ltb_ℤ a b = elim (compare (pos_part a + neg_part b) (pos_part b + neg_part a)) [
  | Ordering.lt ↦ true
  | _ ↦ false
]

abbrev pub leb_ℤ : ℤ → ℤ → Bool
leb_ℤ a b = elim (compare (pos_part a + neg_part b) (pos_part b + neg_part a)) [
  | Ordering.gt ↦ false
  | _ ↦ true
]

-- a == b, on int64
abbrev pub eqb_ℤ : ℤ → ℤ → Bool
eqb_ℤ a b = elim (compare (pos_part a + neg_part b) (pos_part b + neg_part a)) [
  | Ordering.eq ↦ true
  | _ ↦ false
]

pub +ℤ_parts :
    (a b : ℤ)
    → pos_part (a +ℤ b) + neg_part a + neg_part b ≡ neg_part (a +ℤ b) + pos_part a + pos_part b
unfolding ◌+ℤ◌
+ℤ_parts a b = ground arith

pub -ℤ_parts :
    (a b : ℤ)
    → pos_part (a -ℤ b) + neg_part a + pos_part b ≡ neg_part (a -ℤ b) + pos_part a + neg_part b
unfolding ◌-ℤ◌
-ℤ_parts a b = ground arith

pub eq_of_parts : (a b : ℤ) → pos_part a + neg_part b ≡ pos_part b + neg_part a → a ≡ b
eq_of_parts a b h = ground arith

pub ruleset int_laws = (arith, +ℤ_parts, -ℤ_parts, eq_of_parts)

pub ltb_ℤ→le : (a b : ℤ) → ltb_ℤ a b ≡ false → b ≤ℤ a
ltb_ℤ→le a b h = ground arith

pub leb_ℤ→lt : (a b : ℤ) → leb_ℤ a b ≡ false → b <ℤ a
leb_ℤ→lt a b h = ground arith

pub eqb_ℤ_refl : (a : ℤ) → eqb_ℤ a a ≡ true
eqb_ℤ_refl a = ground arith

-- The number that a pattern of 64 bits stands for, in two's complement.
abbrev pub of_word : ℕ → ℤ
of_word u = elim (compare u (2 ^ 63)) [ Ordering.lt ↦ pos u | _ ↦ negsuc (2 ^ 64 - 1 - u) ]

-- The int64 that is left of an integer when only its low 64 bits are kept.
abbrev pub wrap64 : ℤ → ℤ
wrap64 (pos n) = of_word (n % 2 ^ 64)
wrap64 (negsuc n) = of_word (2 ^ 64 - 1 - n % 2 ^ 64)

-- a + b and a - b, on int64
unfoldable pub add64 : ℤ → ℤ → ℤ
unfolding ◌+ℤ◌
add64 a b = wrap64 (a +ℤ b)

unfoldable pub sub64 : ℤ → ℤ → ℤ
unfolding ◌-ℤ◌
sub64 a b = wrap64 (a -ℤ b)

-- The range of an int64.
abbrev pub InInt64 : ℤ → Type 0
InInt64 a = (pos_part a < 2 ^ 63) × (neg_part a ≤ 2 ^ 63)

pub wrap64-InInt64 : (a : ℤ) → InInt64 (wrap64 a)
wrap64-InInt64 (pos n) = ground arith
wrap64-InInt64 (negsuc n) = ground arith

pub sub64-of_nonneg :
    (a b : ℤ) → InInt64 a → InInt64 b → pos 0 ≤ℤ a → pos 0 ≤ℤ b → sub64 a b ≡ a -ℤ b
unfolding sub64
sub64-of_nonneg a b ha hb pa pb = ground arith

-- A sum of two numbers from 0 on that comes out from 0 on has not wrapped.
pub add64-of_nonneg :
    (a b : ℤ)
    → InInt64 a
    → InInt64 b
    → pos 0 ≤ℤ a
    → pos 0 ≤ℤ b
    → pos 0 ≤ℤ add64 a b
    → add64 a b ≡ a +ℤ b
unfolding add64
add64-of_nonneg a b ha hb pa pb h = ground arith

pub InInt64-add64 : (a b : ℤ) → InInt64 (add64 a b)
unfolding add64
InInt64-add64 a b = wrap64-InInt64 (a +ℤ b)

pub InInt64-sub64 : (a b : ℤ) → InInt64 (sub64 a b)
unfolding sub64
InInt64-sub64 a b = wrap64-InInt64 (a -ℤ b)

-- One more and one less is the same again, and one more is another number.
pub sub64-add64_one : (a : ℤ) → InInt64 a → sub64 (add64 a (pos 1)) (pos 1) ≡ a
unfolding sub64 add64
sub64-add64_one a h = ground arith

pub add64_one-ne : (a : ℤ) → InInt64 a → add64 a (pos 1) ≡ a → ⊥
unfolding add64
add64_one-ne a h e = ground arith
