-- ===== src/Prelude/Int.antt =====
-- Integers over the native numbers, with the order, the steps and the wrap-around of machine integers.
use Prim.Native.Nat.{ℕ, zero, suc, compare, Ordering, ◌+◌, ◌-◌, ◌%◌, ◌^◌, ◌<◌}
use mathlib.Core.Path.{◌≡◌, refl}
use mathlib.Core.Bool.{Bool, true, false}
use native.Mathlib.Omega.{arith}
use dekit.Prelude.Tests.{leb, ltb, if◌then◌else◌}

pub data ℤ : Type 0 where
  pos negsuc : ℕ → ℤ

unfoldable pub cmp : ℤ → ℤ → Ordering
cmp (pos a) (pos b) = compare a b
cmp (pos a) (negsuc b) = Ordering.gt
cmp (negsuc a) (pos b) = Ordering.lt
cmp (negsuc a) (negsuc b) = compare b a

abbrev pub is_lt : Ordering → Bool
is_lt Ordering.lt = true
is_lt Ordering.eq = false
is_lt Ordering.gt = false

abbrev pub is_eq : Ordering → Bool
is_eq Ordering.lt = false
is_eq Ordering.eq = true
is_eq Ordering.gt = false

abbrev pub is_le : Ordering → Bool
is_le Ordering.lt = true
is_le Ordering.eq = true
is_le Ordering.gt = false

abbrev pub swap : Ordering → Ordering
swap Ordering.lt = Ordering.gt
swap Ordering.eq = Ordering.eq
swap Ordering.gt = Ordering.lt

pub cmp-swap : (a b : ℤ) → cmp b a ≡ swap (cmp a b)
unfolding cmp
cmp-swap (pos a) (pos b) = ground arith
cmp-swap (pos a) (negsuc b) = refl
cmp-swap (negsuc a) (pos b) = refl
cmp-swap (negsuc a) (negsuc b) = ground arith

pub cmp-eq : (a b : ℤ) → cmp a b ≡ Ordering.eq → a ≡ b
unfolding cmp
cmp-eq (pos a) (pos b) e = ground arith
cmp-eq (pos a) (negsuc b) e = absurd (cc)
cmp-eq (negsuc a) (pos b) e = absurd (cc)
cmp-eq (negsuc a) (negsuc b) e = ground arith

-- `+ 1`, `- 1`, `-n` and `a - b`, all without bounds
abbrev pub up_one : ℤ → ℤ
up_one (pos n) = pos (suc n)
up_one (negsuc zero) = pos 0
up_one (negsuc (suc n)) = negsuc n

abbrev pub down_one : ℤ → ℤ
down_one (pos zero) = negsuc 0
down_one (pos (suc n)) = pos n
down_one (negsuc n) = negsuc (suc n)

abbrev pub minus : ℕ → ℤ
minus zero = pos 0
minus (suc n) = negsuc n

abbrev pub difference : ℕ → ℕ → ℤ
difference a b = if leb b a then pos (a - b) else minus (b - a)

abbrev pub negate : ℤ → ℤ
negate (pos n) = minus n
negate (negsuc n) = pos (suc n)

abbrev pub subtract : ℤ → ℤ → ℤ
subtract (pos a) (pos b) = difference a b
subtract (pos a) (negsuc b) = pos (a + suc b)
subtract (negsuc a) (pos b) = negsuc (a + b)
subtract (negsuc a) (negsuc b) = difference b a

-- `!n`
abbrev pub complement : ℤ → ℤ
complement (pos n) = negsuc n
complement (negsuc n) = pos n

-- `n as i32` of an unsigned integer: its low 32 bits.
unfoldable pub as_i32 : ℕ → ℤ
as_i32 n = let low = n % 2 ^ 32 in if ltb low (2 ^ 31) then pos low else minus (2 ^ 32 - low)

-- The result of an operation on `i32`, wrapped around.
unfoldable pub wrap_i32 : ℤ → ℤ
wrap_i32 (pos n) = as_i32 n
wrap_i32 (negsuc n) = complement (as_i32 n)

abbrev pub IsI32 : ℤ → Type 0
IsI32 (pos n) = n < 2 ^ 31
IsI32 (negsuc n) = n < 2 ^ 31

pub as_i32_exact : (n : ℕ) → n < 2 ^ 31 → as_i32 n ≡ pos n
unfolding as_i32
as_i32_exact n h = ground arith

pub wrap_i32_exact : (z : ℤ) → IsI32 z → wrap_i32 z ≡ z
unfolding wrap_i32
wrap_i32_exact (pos n) h = as_i32_exact n h
wrap_i32_exact (negsuc n) h = rw (as_i32_exact n h) refl

wraps :
    (as_i32 2147483648 ≡ negsuc 2147483647)
    × (wrap_i32 (pos 2147483648) ≡ negsuc 2147483647)
    × (wrap_i32 (negsuc 2147483648) ≡ pos 2147483647)
unfolding as_i32 wrap_i32
wraps = (refl, refl, refl)
