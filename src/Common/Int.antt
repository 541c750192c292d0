-- ===== src/Common/Int.antt =====
-- Go's int64 values as integers, over the native numbers.
use Prim.Native.Nat.{ℕ, zero, suc, ◌+◌, ◌-◌, ◌*◌, ◌/◌, ◌^◌, ◌<◌}
use mathlib.Core.Path.{◌≡◌}
use mathlib.Core.Bool.{Bool, true, false}
use native.Mathlib.Omega.{arith}
use eidovela_open.Common.Tests.{leb, ◌==◌, if◌then◌else◌}

-- `negsuc n` is -(n + 1).
pub data ℤ : Type 0 where
  pos : ℕ → ℤ
  negsuc : ℕ → ℤ

-- `a <= b`
abbrev pub leb_ℤ : ℤ → ℤ → Bool
leb_ℤ (pos a) (pos b) = leb a b
leb_ℤ (pos a) (negsuc b) = false
leb_ℤ (negsuc a) (pos b) = true
leb_ℤ (negsuc a) (negsuc b) = leb b a

-- `a == b`
abbrev pub eq_ℤ : ℤ → ℤ → Bool
eq_ℤ (pos a) (pos b) = a == b
eq_ℤ (pos a) (negsuc b) = false
eq_ℤ (negsuc a) (pos b) = false
eq_ℤ (negsuc a) (negsuc b) = a == b

infix 50 ◌≤ℤ◌ ◌<ℤ◌
abbrev pub ◌≤ℤ◌ : ℤ → ℤ → Type 0
a ≤ℤ b = leb_ℤ a b ≡ true

abbrev pub ◌<ℤ◌ : ℤ → ℤ → Type 0
a <ℤ b = leb_ℤ b a ≡ false

-- `a + n` for a duration, far from the bounds of int64
abbrev pub add_ℕ : ℤ → ℕ → ℤ
add_ℕ (pos a) n = pos (a + n)
add_ℕ (negsuc a) n = if leb (suc a) n then pos (n - suc a) else negsuc (a - n)

-- `a - n`
abbrev pub sub_ℕ : ℤ → ℕ → ℤ
sub_ℕ (pos a) n = if leb n a then pos (a - n) else negsuc (n - suc a)
sub_ℕ (negsuc a) n = negsuc (a + n)

-- `a++` on an int64, which wraps around
abbrev pub inc64 : ℤ → ℤ
inc64 (pos n) = if n == 2 ^ 63 - 1 then negsuc (2 ^ 63 - 1) else pos (n + 1)
inc64 (negsuc zero) = pos 0
inc64 (negsuc (suc n)) = negsuc n

-- The conversion uint64(a).
abbrev pub to_uint64 : ℤ → ℕ
to_uint64 (pos n) = n
to_uint64 (negsuc n) = 2 ^ 64 - suc n

-- Times are in nanoseconds since 1970: the zero time.Time, and Time.Unix.
abbrev pub zero_time : ℤ
zero_time = negsuc (62135596800 * 10 ^ 9 - 1)

abbrev pub unix : ℤ → ℤ
unix (pos n) = pos (n / 10 ^ 9)
unix (negsuc n) = negsuc (n / 10 ^ 9)

pub <ℤ-add : (a : ℤ) (n : ℕ) → 0 < n → a <ℤ add_ℕ a n
<ℤ-add (pos a) n h = ground arith
<ℤ-add (negsuc a) n h = ground arith
