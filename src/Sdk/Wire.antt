-- ===== src/Sdk/Wire.antt =====
-- The fields of the clients' structs, read from a document and written to one.
pub mod RoundTrip
use eidovela_open.Common.{
  ℕ, ℤ, pos, zero, suc, Bool, true, false, List, [], ◌∷◌, map, Option, none, some, ◌^◌,
  if◌then◌else◌, zero_time,
}
use eidovela_open.Text.{Text}
use eidovela_open.Base64.{◌>>=◌}
use eidovela_open.Dict.{insert}
use eidovela_open.Json.{
  Value, null, bool, int64, string, array, object, Claims, elements, entries, members, values,
}
use eidovela_open.Json.Struct.{struct_members}
use eidovela_open.Json.Fields.{field_from}
use eidovela_open.Sdk.Http.{Net}

abbrev pub u64 : ℕ
u64 = 2 ^ 64

abbrev pub u32 : ℕ
u32 = 2 ^ 32

abbrev pub assign_time : Net → ℤ → Value → Option ℤ
assign_time net old (string s) = net.time_of_json s
assign_time net old null = some old
assign_time net old _ = none

-- A time.Time
unfoldable pub time_field : Net → Claims → Text → Option ℤ
time_field net ms name = field_from (assign_time net) name zero_time ms

-- An element of a list, or an entry of a map; a null is the zero value.
abbrev pub to_text : Value → Option Text
to_text (string s) = some s
to_text null = some []
to_text _ = none

unfoldable pub each_text : List Value → Option (List Text)
each_text [] = some []
each_text (v ∷ vs) = let rest = each_text vs in do s ← to_text v; ss ← rest; some (s ∷ ss)

abbrev pub assign_strings : Option (List Text) → Value → Option (Option (List Text))
assign_strings old (array vs) = do ss ← each_text (elements vs); some (some ss)
assign_strings old null = some none
assign_strings old _ = none

-- A []string; nil is none.
unfoldable pub strings_field : Claims → Text → Option (Option (List Text))
unfolding each_text
strings_field ms name = field_from assign_strings name none ms

-- The entries go into the map that is there.
unfoldable pub entries_into : List (Text × Text) → Claims → Option (List (Text × Text))
entries_into old [] = some old
entries_into old ((k, v) ∷ ms) = do s ← to_text v; entries_into (insert k s old) ms

abbrev pub or_empty : Option (List (Text × Text)) → List (Text × Text)
or_empty none = []
or_empty (some m) = m

abbrev pub assign_map : Option (List (Text × Text)) → Value → Option (Option (List (Text × Text)))
assign_map old (object ms) = do m ← entries_into (or_empty old) (entries ms); some (some m)
assign_map old null = some none
assign_map old _ = none

-- A map[string]string; nil is none.
unfoldable pub map_field : Claims → Text → Option (Option (List (Text × Text)))
unfolding entries_into
map_field ms name = field_from assign_map name none ms

-- The member `name` of an answer, which the struct around it holds alone.
abbrev pub enveloped : {A : Type 0} → (Claims → Text → Option A) → Text → Value → Option A
enveloped field name v = do ms ← struct_members v; field ms name

abbrev pub strings_json : Option (List Text) → Value
strings_json none = null
strings_json (some ss) = array (values (map string ss))

abbrev pub string_entries : List (Text × Text) → Claims
string_entries [] = []
string_entries ((k, s) ∷ m) = (k, string s) ∷ string_entries m

abbrev pub map_json : Option (List (Text × Text)) → Value
map_json none = null
map_json (some m) = object (members (string_entries m))

-- Fields with omitempty, in front of the others.
abbrev pub optional : Text → Text → Claims → Claims
optional name [] rest = rest
optional name (c ∷ s) rest = (name, string (c ∷ s)) ∷ rest

abbrev pub optional_strings : Text → Option (List Text) → Claims → Claims
optional_strings name (some (s ∷ ss)) rest = (name, strings_json (some (s ∷ ss))) ∷ rest
optional_strings name _ rest = rest

abbrev pub optional_map : Text → Option (List (Text × Text)) → Claims → Claims
optional_map name (some (e ∷ m)) rest = (name, map_json (some (e ∷ m))) ∷ rest
optional_map name _ rest = rest

abbrev pub optional_number : Text → ℕ → Claims → Claims
optional_number name zero rest = rest
optional_number name (suc n) rest = (name, int64 (pos (suc n))) ∷ rest

abbrev pub optional_bool : Text → Bool → Claims → Claims
optional_bool name true rest = (name, bool true) ∷ rest
optional_bool name false rest = rest
