-- ===== src/Sdk/Presentation/Blank.antt =====
-- strings.TrimSpace(s) == "": the text is white space, in UTF-8.
use eidovela_open.Common.{ℕ, zero, suc, ◌≡◌, refl, Bool, true, false, ◌&&◌, [], ◌∷◌}
use eidovela_open.Text.{Text, text}
use eidovela_open.Text.Space.{width}

-- The number of bytes still to pass over stands first.
blank_from : ℕ → Text → Bool
blank_from n [] = true
blank_from (suc n) (c ∷ s) = blank_from n s
blank_from zero (c ∷ s) = let (n, space) = width (c ∷ s) in space && blank_from n s

unfoldable pub is_blank : Text → Bool
unfolding blank_from
is_blank s = blank_from 0 s

is_blank_tests :
    (is_blank (32 ∷ 226 ∷ 128 ∷ 131 ∷ 10 ∷ []) ≡ true) × (is_blank (text " a ") ≡ false)
unfolding is_blank
is_blank_tests = (refl, refl)
