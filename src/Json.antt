-- ===== src/Json.antt =====
-- Go's `any` values as package encoding/json makes and reads them: what a decoded document holds,
-- and the int64 values that only a document to encode holds. A float64 is a finite one, as every
-- number of a JSON document is.
pub mod Number
pub mod Struct
pub mod Fields
use eidovela_open.Common.{ℕ, ℤ, Bool, true, false, List, [], ◌∷◌, Option, none, some, if◌then◌else◌}
use eidovela_open.Text.{Text, text_eq, text, is_empty}

-- (-1)^negative * mantissa * 2^exponent
pub record Float64 : Type 0 where
  pub negative : Bool
  pub mantissa : ℕ
  pub exponent : ℤ

mutual
  pub data Value : Type 0 where
    null : Value
    bool : Bool → Value
    float64 : Float64 → Value
    json_number : Text → Value
    int64 : ℤ → Value
    string : Text → Value
    array : Values → Value
    object : Members → Value

  pub data Values : Type 0 where
    nil : Values
    cons : Value → Values → Values

  pub data Members : Type 0 where
    end : Members
    member : Text → Value → Members → Members

abbrev pub elements : Values → List Value
elements nil = []
elements (cons v vs) = v ∷ elements vs

abbrev pub values : List Value → Values
values [] = nil
values (v ∷ vs) = cons v (values vs)

abbrev pub entries : Members → List (Text × Value)
entries end = []
entries (member k v ms) = (k, v) ∷ entries ms

abbrev pub members : List (Text × Value) → Members
members [] = end
members ((k, v) ∷ ms) = member k v (members ms)

abbrev pub Claims : Type 0
Claims = List (Text × Value)

-- The entry of a map that was filled in order, so that the last one of a name counts.
unfoldable pub find : Claims → Text → Option Value
find [] k = none
find ((j, v) ∷ m) k =
    let later = find m k in
    elim later [ some w ↦ some w | none ↦ if text_eq j k then some v else none ]

-- `m[k]`: a missing entry is nil, and so is a null.
unfoldable pub get : Claims → Text → Value
unfolding find
get m k = elim (find m k) [ none ↦ null | some v ↦ v ]

-- `v.(string)` with its second result
abbrev pub as_string? : Value → Option Text
as_string? (string s) = some s
as_string? _ = none

-- `s, _ := v.(string)`
abbrev pub as_string : Value → Text
as_string (string s) = s
as_string _ = []

-- `m, _ := v.(map[string]any)`
abbrev pub as_map : Value → Claims
as_map (object ms) = entries ms
as_map _ = []

-- json.Unmarshal of a parsed document into a map[string]any
unfoldable pub to_map : Value → Option Claims
to_map null = some []
to_map (object ms) = some (entries ms)
to_map _ = none
