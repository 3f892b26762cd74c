-- ===== src/Base/Int.antt =====
-- Go's `int` and `time.Duration`: 64-bit integers, held as integers in range.
use Prim.Native.Nat.{ℕ, zero, suc, ◌+◌, ◌-◌, ◌%◌, ◌≤◌, ◌<◌}
use mathlib.Core.Bool.{Bool, false, ◌&&◌}
use health_go.Base.Tests.{if◌then◌else◌, ltb, leb, eqb}

-- `negsuc n` is -(n + 1).
pub data ℤ : Type 0 where
  pos : ℕ → ℤ
  negsuc : ℕ → ℤ

abbrev pub pos_part : ℤ → ℕ
pos_part (pos n) = n
pos_part (negsuc n) = 0

abbrev pub neg_part : ℤ → ℕ
neg_part (pos n) = 0
neg_part (negsuc n) = suc n

abbrev pub max_int : ℕ
max_int = 9223372036854775807

-- a - b, as an integer
abbrev pub sub_ℕ : ℕ → ℕ → ℤ
sub_ℕ a b = if leb b a then pos (a - b) else negsuc (b - a - 1)

abbrev pub leb_ℤ : ℤ → ℤ → Bool
leb_ℤ a b = leb (pos_part a + neg_part b) (pos_part b + neg_part a)

abbrev pub ltb_ℤ : ℤ → ℤ → Bool
ltb_ℤ a b = ltb (pos_part a + neg_part b) (pos_part b + neg_part a)

infix 50 ◌≤ℤ◌ ◌<ℤ◌
abbrev pub ◌≤ℤ◌ : ℤ → ℤ → Type 0
a ≤ℤ b = pos_part a + neg_part b ≤ pos_part b + neg_part a

abbrev pub ◌<ℤ◌ : ℤ → ℤ → Type 0
a <ℤ b = pos_part a + neg_part b < pos_part b + neg_part a

abbrev pub is_zero : ℤ → Bool
is_zero (pos n) = eqb n 0
is_zero (negsuc n) = false

abbrev pub eq_ℤ : ℤ → ℤ → Bool
eq_ℤ a b = leb_ℤ a b && leb_ℤ b a

-- `x++`, which wraps from the greatest `int` to the least
abbrev pub inc : ℤ → ℤ
inc (pos n) = if eqb n max_int then negsuc max_int else pos (suc n)
inc (negsuc zero) = pos 0
inc (negsuc (suc n)) = negsuc n

-- `cmp.Or(x, d)` on integers: the first that is not zero
abbrev pub cmp_or : ℤ → ℤ → ℤ
cmp_or x d = if is_zero x then d else x

-- the result of `time.Time.Sub` stops at the ends of `Duration`
abbrev pub clamp : ℤ → ℤ
clamp (pos n) = if leb n max_int then pos n else pos max_int
clamp (negsuc n) = if leb n max_int then negsuc n else negsuc max_int

-- `now.Sub(t)` of two times, as a `Duration`
abbrev pub since : ℕ → ℕ → ℤ
since now t = clamp (sub_ℕ now t)

-- a number as the `int64` that it wraps to
unfoldable pub wrap_int64 : ℕ → ℤ
wrap_int64 n =
    let m = n % 18446744073709551616 in
    if leb m max_int then pos m else negsuc (18446744073709551615 - m)
