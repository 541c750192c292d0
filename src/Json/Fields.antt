-- ===== src/Json/Fields.antt =====
-- json.Unmarshal of a parsed document into structs with booleans, int64 values, lists and pointers. A
-- document that is decoded into a struct keeps its numbers as they are written.
use eidovela_open.Common.{
  ℕ, ltb, ℤ, pos, Bool, false, List, [], ◌∷◌, Option, none, some, if◌then◌else◌,
}
use eidovela_open.Text.{Text}
use eidovela_open.Base64.{◌>>=◌}
use eidovela_open.Json.{Value, null, bool, json_number, array, Claims, elements}
use eidovela_open.Json.Number.{parse_int, parse_uint, scanned}
use eidovela_open.Json.Struct.{names_field}

-- A field, from its old value and what the document says of it.
unfoldable pub field_from : {A : Type 0} → (A → Value → Option A) → Text → A → Claims → Option A
field_from assign name old [] = some old
field_from assign name old ((k, v) ∷ ms) = do
  new ← (if names_field k name then assign old v else some old)
  field_from assign name new ms

abbrev assign_bool : Bool → Value → Option Bool
assign_bool old (bool b) = some b
assign_bool old null = some old
assign_bool old _ = none

abbrev assign_pointer : Option Bool → Value → Option (Option Bool)
assign_pointer old (bool b) = some (some b)
assign_pointer old null = some none
assign_pointer old _ = none

abbrev pub assign_int : ℤ → Value → Option ℤ
assign_int old (json_number s) = let (n, known) = parse_int s in if known then some n else none
assign_int old null = some old
assign_int old _ = none

-- A number without a sign that is below the bound
assign_uint : ℕ → ℕ → Value → Option ℕ
assign_uint bound old (json_number s) = elim (parse_uint s) [
  | scanned n ↦ if ltb n bound then some n else none
  | _ ↦ none
]
assign_uint bound old null = some old
assign_uint bound old _ = none

each : {A : Type 0} → (Value → Option A) → List Value → Option (List A)
each read [] = some []
each read (v ∷ vs) = let rest = each read vs in do a ← read v; as' ← rest; some (a ∷ as')

assign_list : {A : Type 0} → (Value → Option A) → List A → Value → Option (List A)
unfolding each
assign_list read old (array vs) = each read (elements vs)
assign_list read old null = some []
assign_list read old _ = none

unfoldable pub bool_field : Claims → Text → Option Bool
bool_field ms name = field_from assign_bool name false ms

-- A *bool
unfoldable pub bool_pointer : Claims → Text → Option (Option Bool)
bool_pointer ms name = field_from assign_pointer name none ms

unfoldable pub int_field : Claims → Text → Option ℤ
int_field ms name = field_from assign_int name (pos 0) ms

-- A uint64, or a uint32 by the smaller bound
unfoldable pub uint_field : ℕ → Claims → Text → Option ℕ
unfolding assign_uint
uint_field bound ms name = field_from (assign_uint bound) name 0 ms

unfoldable pub list_field : {A : Type 0} → (Value → Option A) → Claims → Text → Option (List A)
unfolding assign_list
list_field read ms name = field_from (assign_list read) name [] ms
