-- ===== src/Decimal.antt =====
-- Decimal numbers as strconv.Itoa and the verb %08d of package fmt write them.
use eidovela_open.Common.{
  All, Bool-cases, inl, inr, ltb→lt, ◌≤◌, ℕ, zero, suc, ◌+◌, ◌-◌, ◌*◌, ◌/◌, ◌%◌, ◌<◌, ◌≡◌, refl, ap,
  ◌∙◌, sym, ℤ, pos, negsuc, [], ◌∷◌, ◌++◌, length, replicate, ltb, if◌then◌else◌, arith,
}
use eidovela_open.Text.{Text, text}

-- The digits of the number in front of the given text; the fuel bounds their count.
digits_from : ℕ → ℕ → Text → Text
digits_from zero n acc = acc
digits_from (suc f) n acc =
    let higher = digits_from f (n / 10) ((48 + n % 10) ∷ acc) in
    if ltb n 10 then (48 + n) ∷ acc else higher

-- The fuel is enough, since each round divides the number by ten.
unfoldable pub digits : ℕ → Text
unfolding digits_from
digits n = digits_from (suc n) n []

-- strconv.Itoa
unfoldable pub itoa : ℤ → Text
unfolding digits
itoa (pos n) = digits n
itoa (negsuc n) = b'-' ∷ digits (suc n)

unfoldable pub pad : ℕ → Text → Text
pad width s = replicate (width - length s) 48 ++ s

-- fmt.Sprintf("%08d", n): a sign counts for the width.
unfoldable pub format_08d : ℤ → Text
unfolding digits pad
format_08d (pos n) = pad 8 (digits n)
format_08d (negsuc n) = b'-' ∷ pad 7 (digits (suc n))

value_from : ℕ → Text → ℕ
value_from n [] = n
value_from n (c ∷ s) = value_from (n * 10 + (c - 48)) s

value-digits_from :
    (f n : ℕ) (acc : Text) → n < f → value_from 0 (digits_from f n acc) ≡ value_from n acc
unfolding digits_from value_from
value-digits_from zero n acc h = absurd (omega arith)
value-digits_from (suc f) n acc h =
    ground (arith, value-digits_from f (n / 10) ((48 + n % 10) ∷ acc))

value-zeros : (k : ℕ) (s : Text) → value_from 0 (replicate k 48 ++ s) ≡ value_from 0 s
unfolding value_from
value-zeros zero s = refl
value-zeros (suc k) s = value-zeros k s

value-format : (n : ℕ) → value_from 0 (format_08d (pos n)) ≡ n
unfolding format_08d
value-format n =
    value-zeros (8 - length (digits n)) (digits n)
    ∙ value-digits_from (suc n) n [] (omega arith)
    ∙ (unfold value_from in refl)

-- Padded decimals of natural numbers are told apart.
pub format_08d-injective : (a b : ℕ) → format_08d (pos a) ≡ format_08d (pos b) → a ≡ b
format_08d-injective a b e = sym (value-format a) ∙ ap (value_from 0) e ∙ value-format b

-- A decimal is made of digits.
abbrev pub IsDigit : ℕ → Type 0
IsDigit c = (48 ≤ c) × (c < 58)

digits_from-All : (f n : ℕ) (acc : Text) → All IsDigit acc → All IsDigit (digits_from f n acc)
unfolding digits_from
digits_from-All zero n acc h = h
digits_from-All (suc f) n acc h = elim (Bool-cases (ltb n 10)) [
  | inl e ↦ rw e ((omega arith, omega (arith, ltb→lt n 10 e)), h)
  | inr e ↦ rw e (digits_from-All f (n / 10) ((48 + n % 10) ∷ acc) ((omega arith, omega arith), h))
]

pub itoa-All : (n : ℕ) → All IsDigit (itoa (pos n))
unfolding itoa
itoa-All n = digits_from-All (suc n) n [] tt

format_tests :
    (format_08d (pos 7) ≡ text "00000007")
    × (format_08d (pos 123456789) ≡ text "123456789")
    × (format_08d (negsuc 6) ≡ text "-0000007")
    × (itoa (negsuc 9) ≡ text "-10")
unfolding format_08d itoa
format_tests = (refl, refl, refl, refl)
