-- ===== src/Json/Number.antt =====
-- Numbers of a decoded document as int64: the conversion of a float64, which drops the fraction,
-- and strconv.ParseInt for a json.Number.
use eidovela_open.Common.{
  ℕ, zero, suc, ◌+◌, ◌-◌, ◌*◌, ◌/◌, ◌^◌, ◌≡◌, refl, ℤ, pos, negsuc, Bool, true, false, ◌&&◌, [],
  ◌∷◌, ltb, leb, ◌==◌, if◌then◌else◌,
}
use eidovela_open.Text.{Text, text}
use eidovela_open.Json.{Float64}

-- The magnitude without its fraction.
abbrev pub magnitude : ℕ → ℤ → ℕ
magnitude m (pos e) = m * 2 ^ e
magnitude m (negsuc e) = m / 2 ^ suc e

abbrev negate : ℕ → ℤ
negate zero = pos 0
negate (suc n) = negsuc n

-- int64(f). Out of range the result depends on the platform, and is the first argument.
unfoldable pub to_int64 : (Float64 → ℤ) → Float64 → ℤ
to_int64 overflow f =
    let m = magnitude f.mantissa f.exponent in
    if f.negative
    then (if leb m (2 ^ 63) then negate m else overflow f)
    else if ltb m (2 ^ 63)
    then pos m
    else overflow f

pub data Scan : Type 0 where
  scanned : ℕ → Scan
  bad_syntax out_of_range : Scan

-- The loop of strconv.ParseUint at base 10.
scan_digits : ℕ → Text → Scan
scan_digits n [] = scanned n
scan_digits n (c ∷ s) =
    let rest = scan_digits (n * 10 + (c - 48)) s in
    if leb 48 c && leb c 57
    then (if leb (2 ^ 64) (n * 10 + (c - 48)) then out_of_range else rest)
    else bad_syntax

-- strconv.ParseUint(s, 10, 64)
unfoldable pub parse_uint : Text → Scan
unfolding scan_digits
parse_uint [] = bad_syntax
parse_uint (c ∷ s) = scan_digits 0 (c ∷ s)

abbrev in_range : Bool → Scan → ℤ × Bool
in_range _ bad_syntax = (pos 0, false)
in_range false out_of_range = (pos (2 ^ 63 - 1), false)
in_range true out_of_range = (negsuc (2 ^ 63 - 1), false)
in_range false (scanned n) = if leb (2 ^ 63) n then (pos (2 ^ 63 - 1), false) else (pos n, true)
in_range true (scanned n) =
    if ltb (2 ^ 63) n then (negsuc (2 ^ 63 - 1), false) else (negate n, true)

-- strconv.ParseInt(s, 10, 64), with `err == nil`
unfoldable pub parse_int : Text → ℤ × Bool
unfolding parse_uint
parse_int [] = (pos 0, false)
parse_int (c ∷ s) =
    if c == b'-'
    then in_range true (parse_uint s)
    else if c == b'+'
    then in_range false (parse_uint s)
    else in_range false (parse_uint (c ∷ s))

parse_int_tests :
    (parse_int (text "-9223372036854775808") ≡ (negsuc (2 ^ 63 - 1), true))
    × (parse_int (text "9223372036854775808") ≡ (pos (2 ^ 63 - 1), false))
    × (parse_int (text "+12") ≡ (pos 12, true))
    × (parse_int (text "1.5") ≡ (pos 0, false))
unfolding parse_int
parse_int_tests = (refl, refl, refl, refl)
