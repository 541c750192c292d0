-- ===== src/Text/Space.antt =====
-- White space in UTF-8, and strings.TrimSpace.
use mathlib.Core.List.{reverse}
use eidovela_open.Common.{
  ℕ, zero, suc, ◌≡◌, refl, Bool, true, false, ◌&&◌, ◌||◌, [], ◌∷◌, leb, ◌==◌, if◌then◌else◌,
}
use eidovela_open.Text.{Text, text}

abbrev pub is_ascii_space : ℕ → Bool
is_ascii_space c = (leb 9 c && leb c 13) || c == 32

-- U+0085, U+00A0
abbrev pub is_space_2 : ℕ → ℕ → Bool
is_space_2 a b = a == 194 && (b == 133 || b == 160)

-- U+1680, U+2000 to U+200A, U+2028, U+2029, U+202F, U+205F, U+3000
abbrev pub is_space_3 : ℕ → ℕ → ℕ → Bool
is_space_3 a b c =
    (a == 225 && b == 154 && c == 128)
    || (a == 226 && b == 128 && ((leb 128 c && leb c 138) || c == 168 || c == 169 || c == 175))
    || (a == 226 && b == 129 && c == 159)
    || (a == 227 && b == 128 && c == 128)

-- The bytes of the white space that the text starts with, without the first one, or none of it
abbrev pub width : Text → ℕ × Bool
width [] = (0, false)
width (a ∷ []) = (0, is_ascii_space a)
width (a ∷ b ∷ []) = if is_space_2 a b then (1, true) else (0, is_ascii_space a)
width (a ∷ b ∷ c ∷ _) =
    if is_space_2 a b
    then (1, true)
    else if is_space_3 a b c
    then (2, true)
    else (0, is_ascii_space a)

-- The same at the end of a text, which is read backwards
abbrev width_back : Text → ℕ × Bool
width_back [] = (0, false)
width_back (a ∷ []) = (0, is_ascii_space a)
width_back (b ∷ a ∷ []) = if is_space_2 a b then (1, true) else (0, is_ascii_space b)
width_back (c ∷ b ∷ a ∷ _) =
    if is_space_2 b c
    then (1, true)
    else if is_space_3 a b c
    then (2, true)
    else (0, is_ascii_space c)

-- The number of bytes still to pass over stands before the text.
drop_space : (Text → ℕ × Bool) → ℕ → Text → Text
drop_space measure n [] = []
drop_space measure (suc n) (c ∷ s) = drop_space measure n s
drop_space measure zero (c ∷ s) =
    let (n, space) = measure (c ∷ s) in
    let rest = drop_space measure n s in if space then rest else c ∷ s

-- strings.TrimSpace
unfoldable pub trim_space : Text → Text
unfolding drop_space
trim_space s = reverse (drop_space width_back 0 (reverse (drop_space width 0 s)))

trim_space_tests :
    (trim_space (32 ∷ 226 ∷ 128 ∷ 131 ∷ b'a' ∷ 32 ∷ b'b' ∷ 194 ∷ 160 ∷ 10 ∷ []) ≡ text "a b")
    × (trim_space (text "  ") ≡ [])
unfolding trim_space
trim_space_tests = (refl, refl)
