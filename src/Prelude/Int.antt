-- ===== src/Prelude/Int.antt =====
-- Signed integers over the native numbers, and Go's `int64` as the integers with wrap-around.
use Prim.Native.Nat.{ℕ, suc, ◌+◌, ◌-◌, ◌*◌, ◌/◌, ◌%◌, ◌≤◌, ◌<◌}
use mathlib.Core.Path.{◌≡◌}
use mathlib.Core.Bool.{Bool}
use native.Mathlib.Omega.{arith}
use muhiya_workspace.Prelude.Tests.{ltb, leb, ◌==◌, if◌then◌else◌}

-- `negsuc n` is -(n + 1).
pub data ℤ : Type 0 where
  pos : ℕ → ℤ
  negsuc : ℕ → ℤ

abbrev pub pos_part : ℤ → ℕ
pos_part (pos n) = n
pos_part (negsuc n) = 0

abbrev pub neg_part : ℤ → ℕ
neg_part (pos n) = 0
neg_part (negsuc n) = suc n

-- a - b, as an integer.
abbrev pub sub_ℕ : ℕ → ℕ → ℤ
sub_ℕ a b = if leb b a then pos (a - b) else negsuc (b - a - 1)

infixl 65 ◌+ℤ◌ ◌-ℤ◌
infixl 70 ◌*ℤ◌
infix 50 ◌≤ℤ◌ ◌<ℤ◌
unfoldable pub ◌+ℤ◌ : ℤ → ℤ → ℤ
a +ℤ b = sub_ℕ (pos_part a + pos_part b) (neg_part a + neg_part b)

unfoldable pub ◌-ℤ◌ : ℤ → ℤ → ℤ
a -ℤ b = sub_ℕ (pos_part a + neg_part b) (neg_part a + pos_part b)

unfoldable pub ◌*ℤ◌ : ℤ → ℤ → ℤ
a *ℤ b =
    sub_ℕ (pos_part a * pos_part b + neg_part a * neg_part b)
      (pos_part a * neg_part b + neg_part a * pos_part b)

abbrev pub ◌≤ℤ◌ : ℤ → ℤ → Type 0
a ≤ℤ b = pos_part a + neg_part b ≤ pos_part b + neg_part a

abbrev pub ◌<ℤ◌ : ℤ → ℤ → Type 0
a <ℤ b = pos_part a + neg_part b < pos_part b + neg_part a

abbrev pub ltb_ℤ : ℤ → ℤ → Bool
ltb_ℤ a b = ltb (pos_part a + neg_part b) (pos_part b + neg_part a)

abbrev pub leb_ℤ : ℤ → ℤ → Bool
leb_ℤ a b = leb (pos_part a + neg_part b) (pos_part b + neg_part a)

abbrev pub eqb_ℤ : ℤ → ℤ → Bool
eqb_ℤ a b = (pos_part a + neg_part b) == (pos_part b + neg_part a)

-- Go's integer division and remainder, which truncate towards zero.
unfoldable pub quo : ℤ → ℤ → ℤ
quo (pos a) (pos b) = pos (a / b)
quo (pos a) (negsuc b) = sub_ℕ 0 (a / suc b)
quo (negsuc a) (pos b) = sub_ℕ 0 (suc a / b)
quo (negsuc a) (negsuc b) = pos (suc a / suc b)

unfoldable pub rem : ℤ → ℤ → ℤ
rem (pos a) (pos b) = pos (a % b)
rem (pos a) (negsuc b) = pos (a % suc b)
rem (negsuc a) (pos b) = sub_ℕ 0 (suc a % b)
rem (negsuc a) (negsuc b) = sub_ℕ 0 (suc a % suc b)

pub +ℤ_parts :
    (a b : ℤ)
    → pos_part (a +ℤ b) + neg_part a + neg_part b ≡ neg_part (a +ℤ b) + pos_part a + pos_part b
unfolding ◌+ℤ◌
+ℤ_parts a b = ground arith

pub -ℤ_parts :
    (a b : ℤ)
    → pos_part (a -ℤ b) + neg_part a + pos_part b ≡ neg_part (a -ℤ b) + pos_part a + neg_part b
unfolding ◌-ℤ◌
-ℤ_parts a b = ground arith

pub eq_of_parts : (a b : ℤ) → pos_part a + neg_part b ≡ pos_part b + neg_part a → a ≡ b
eq_of_parts a b h = ground arith

pub ruleset int_laws = (arith, +ℤ_parts, -ℤ_parts, eq_of_parts)

pub pos-+ℤ : (a b : ℕ) → pos a +ℤ pos b ≡ pos (a + b)
pos-+ℤ a b = omega int_laws

pub pos-*ℤ : (a b : ℕ) → pos a *ℤ pos b ≡ pos (a * b)
unfolding ◌*ℤ◌
pos-*ℤ a b = ground arith

-- `math.MaxInt64` and `math.MinInt64`
abbrev pub max_int64 : ℤ
max_int64 = pos 9223372036854775807

abbrev pub min_int64 : ℤ
min_int64 = negsuc 9223372036854775807

abbrev pub Fits64 : ℤ → Type 0
Fits64 z = (pos_part z ≤ 9223372036854775807) × (neg_part z ≤ 9223372036854775808)

-- The bit pattern of an integer in two's complement, and the integer of a bit pattern.
unfoldable pub to_word : ℤ → ℕ
to_word (pos n) = n % 18446744073709551616
to_word (negsuc n) = 18446744073709551615 - n % 18446744073709551616

unfoldable pub of_word : ℕ → ℤ
of_word w = if ltb w 9223372036854775808 then pos w else negsuc (18446744073709551615 - w)

unfoldable pub wrap64 : ℤ → ℤ
unfolding to_word of_word
wrap64 z = of_word (to_word z)

pub wrap64_lem : (z : ℤ) → Fits64 z → wrap64 z ≡ z
unfolding wrap64
wrap64_lem (pos n) h = ground arith
wrap64_lem (negsuc n) h = ground arith

pub wrap64-Fits64 : (z : ℤ) → Fits64 (wrap64 z)
unfolding wrap64
wrap64-Fits64 (pos n) = ground arith
wrap64-Fits64 (negsuc n) = ground arith

-- `a + b` and `a - b` on `int64`.
infixl 65 ◌+64◌ ◌-64◌
unfoldable pub ◌+64◌ : ℤ → ℤ → ℤ
a +64 b = wrap64 (a +ℤ b)

unfoldable pub ◌-64◌ : ℤ → ℤ → ℤ
a -64 b = wrap64 (a -ℤ b)

pub +64_lem : (a b : ℤ) → Fits64 (a +ℤ b) → a +64 b ≡ a +ℤ b
unfolding ◌+64◌
+64_lem a b h = wrap64_lem (a +ℤ b) h

pub -64_lem : (a b : ℤ) → Fits64 (a -ℤ b) → a -64 b ≡ a -ℤ b
unfolding ◌-64◌
-64_lem a b h = wrap64_lem (a -ℤ b) h
