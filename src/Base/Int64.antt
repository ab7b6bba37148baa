-- ===== src/Base/Int64.antt =====
-- Go's 64-bit integers as bit patterns: a number below 2 ^ 64 stands for an `int64` in two's
-- complement, and for the `uint64` of the same bits.
use Prim.Native.Nat.{bit_and, bit_or, bit_xor}
use dast_lang.Base.{
  ℕ, ◌+◌, ◌-◌, ◌*◌, ◌/◌, ◌%◌, ◌^◌, ◌<◌, Bool, true, false, not, ltb, leb, if◌then◌else◌,
}

abbrev pub two64 : ℕ
two64 = 2 ^ 64

abbrev pub two63 : ℕ
two63 = 2 ^ 63

abbrev pub IsInt64 : ℕ → Type 0
IsInt64 a = a < two64

-- `a < 0`.
abbrev pub is_negative : ℕ → Bool
is_negative a = leb two63 a

unfoldable pub add64 : ℕ → ℕ → ℕ
add64 a b = (a + b) % two64

unfoldable pub sub64 : ℕ → ℕ → ℕ
sub64 a b = (a + (two64 - b)) % two64

unfoldable pub mul64 : ℕ → ℕ → ℕ
mul64 a b = a * b % two64

unfoldable pub neg64 : ℕ → ℕ
neg64 a = (two64 - a) % two64

-- The absolute value, as an unsigned number.
abbrev pub magnitude : ℕ → ℕ
magnitude a = if is_negative a then two64 - a else a

abbrev same_sign : ℕ → ℕ → Bool
same_sign a b = if is_negative a then is_negative b else not (is_negative b)

-- Signed division rounds towards zero; the least number by -1 wraps.
unfoldable pub div64 : ℕ → ℕ → ℕ
unfolding neg64
div64 a b = let q = magnitude a / magnitude b in if same_sign a b then q else neg64 q

-- The sign of the remainder is that of the dividend.
unfoldable pub rem64 : ℕ → ℕ → ℕ
unfolding neg64
rem64 a b = let r = magnitude a % magnitude b in if is_negative a then neg64 r else r

-- `a < b` and `a <= b` on signed numbers.
unfoldable pub lt64 : ℕ → ℕ → Bool
lt64 a b =
    if is_negative a
    then (if is_negative b then ltb a b else true)
    else (if is_negative b then false else ltb a b)

unfoldable pub le64 : ℕ → ℕ → Bool
unfolding lt64
le64 a b = not (lt64 b a)

unfoldable pub shl64 : ℕ → ℕ → ℕ
shl64 a k = if leb 64 k then 0 else a * 2 ^ k % two64

unfoldable pub shr_u64 : ℕ → ℕ → ℕ
shr_u64 a k = if leb 64 k then 0 else a / 2 ^ k

-- An arithmetic shift rounds down.
unfoldable pub shr64 : ℕ → ℕ → ℕ
unfolding shr_u64
shr64 a k = if is_negative a then two64 - 1 - shr_u64 (two64 - 1 - a) k else shr_u64 a k

unfoldable pub and64 : ℕ → ℕ → ℕ
and64 a b = bit_and a b

unfoldable pub or64 : ℕ → ℕ → ℕ
or64 a b = bit_or a b

unfoldable pub xor64 : ℕ → ℕ → ℕ
xor64 a b = bit_xor a b
