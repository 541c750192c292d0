-- ===== src/Text.antt =====
-- Go's strings as their bytes, and the functions of package strings that the program calls.
pub mod Laws
pub mod Split
pub mod Cut
pub mod Url
pub mod Space
use Prim.Native.Char.{code}
use Prim.Native.String.{String}
use eidovela_open.Common.{
  ℕ, suc, ◌≡◌, refl, Bool, true, false, ◌&&◌, ◌||◌, List, [], ◌∷◌, ◌++◌, Option, none, some, ◌==◌,
  if◌then◌else◌,
}

abbrev pub Text : Type 0
Text = List ℕ

-- A literal; those of the program are ASCII, so that code points are bytes.
abbrev pub text : String → Text
text String.[] = []
text (String.◌∷◌ c s) = code c ∷ text s

-- `a == b`
unfoldable pub text_eq : Text → Text → Bool
text_eq [] [] = true
text_eq [] (_ ∷ _) = false
text_eq (_ ∷ _) [] = false
text_eq (a ∷ s) (b ∷ t) = a == b && text_eq s t

abbrev pub is_empty : Text → Bool
is_empty [] = true
is_empty (_ ∷ _) = false

-- What is left of the second text behind the first one.
unfoldable pub strip_prefix : Text → Text → Option Text
strip_prefix [] s = some s
strip_prefix (_ ∷ _) [] = none
strip_prefix (p ∷ ps) (c ∷ s) = let rest = strip_prefix ps s in if p == c then rest else none

-- strings.HasPrefix(s, p)
unfoldable pub has_prefix : Text → Text → Bool
has_prefix s p = elim (strip_prefix p s) [ none ↦ false | some _ ↦ true ]

-- strings.TrimPrefix(s, p)
unfoldable pub trim_prefix : Text → Text → Text
trim_prefix s p = elim (strip_prefix p s) [ none ↦ s | some rest ↦ rest ]

-- What is left of the text before the suffix.
unfoldable pub strip_suffix : Text → Text → Option Text
strip_suffix p [] = if text_eq [] p then some [] else none
strip_suffix p (c ∷ s) =
    let shorter = strip_suffix p s in
    if text_eq (c ∷ s) p
    then some []
    else (elim shorter [ none ↦ none | some rest ↦ some (c ∷ rest) ])

-- strings.HasSuffix(s, p)
unfoldable pub has_suffix : Text → Text → Bool
has_suffix s p = elim (strip_suffix p s) [ none ↦ false | some _ ↦ true ]

-- strings.TrimSuffix(s, p)
unfoldable pub trim_suffix : Text → Text → Text
trim_suffix s p = elim (strip_suffix p s) [ none ↦ s | some rest ↦ rest ]
