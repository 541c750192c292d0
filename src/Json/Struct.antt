-- ===== src/Json/Struct.antt =====
-- json.Unmarshal of a parsed document into a struct of strings. A member's name stands for a field
-- whose name is equal to it under case folding; a null leaves the field, and any other value that
-- is no string is an error.
use eidovela_open.Common.{
  ℕ, zero, suc, ◌+◌, ◌≡◌, refl, Bool, true, ◌&&◌, [], ◌∷◌, Option, none, some, leb, if◌then◌else◌,
}
use eidovela_open.Text.{Text, text, text_eq, strip_prefix}
use eidovela_open.Base64.{◌>>=◌}
use eidovela_open.Json.{Value, null, string, object, Claims, entries, end}

-- KELVIN SIGN and LATIN SMALL LETTER LONG S, which fold to ASCII letters
abbrev kelvin : Text
kelvin = 226 ∷ 132 ∷ 170 ∷ []

abbrev long_s : Text
long_s = 197 ∷ 191 ∷ []

abbrev lower : ℕ → ℕ
lower c = if leb b'A' c && leb c b'Z' then c + 32 else c

-- The number of bytes still to pass over stands first.
fold_from : ℕ → Text → Text
fold_from n [] = []
fold_from (suc n) (c ∷ s) = fold_from n s
fold_from zero (c ∷ s) = elim (strip_prefix kelvin (c ∷ s)) [
  | some _ ↦ b'k' ∷ fold_from 2 s
  | none ↦ elim (strip_prefix long_s (c ∷ s)) [
    | some _ ↦ b's' ∷ fold_from 1 s
    | none ↦ lower c ∷ fold_from 0 s
  ]
]

-- The test of a member's name against the ASCII name of a field.
unfoldable pub names_field : Text → Text → Bool
unfolding fold_from strip_prefix text_eq
names_field name field = text_eq (fold_from 0 name) (fold_from 0 field)

abbrev pub assign_text : Text → Value → Option Text
assign_text old (string s) = some s
assign_text old null = some old
assign_text old _ = none

string_from : Text → Text → Claims → Option Text
string_from field old [] = some old
string_from field old ((name, v) ∷ ms) = do
  new ← (if names_field name field then assign_text old v else some old)
  string_from field new ms

-- The field of type string, or none where a member of its name has another type.
unfoldable pub string_field : Claims → Text → Option Text
unfolding string_from
string_field ms field = string_from field [] ms

-- The members of the document: a null fills nothing.
unfoldable pub struct_members : Value → Option Claims
struct_members null = some []
struct_members (object ms) = some (entries ms)
struct_members _ = none

folded :
    (names_field (text "ALg") (text "Alg") ≡ true)
    × (string_field
          ((text "kId", string (text "a")) ∷ (226 ∷ 132 ∷ 170 ∷ text "id", null) ∷ [])
          (text "kid")
        ≡ some (text "a"))
    × (string_field ((226 ∷ 132 ∷ 170 ∷ text "id", object end) ∷ []) (text "kid") ≡ none)
unfolding string_field names_field
folded = (refl, refl, refl)
