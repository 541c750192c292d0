-- ===== src/Sdk/Wire/RoundTrip.antt =====
-- Reading what was written: lists of texts and maps from texts to texts.
use mathlib.Core.List.{append_assoc, append-nil}
use eidovela_open.Common.{
  Option, ◌≡◌, ◌≢◌, refl, List, [], ◌∷◌, ◌++◌, map, none, some, All, arith, ◌∙◌,
}
use eidovela_open.Text.{Text}
use eidovela_open.Text.Laws.{text_eq_iff}
use eidovela_open.Dict.{lookup, insert, keys}
use eidovela_open.Dict.Keys.{Distinct, insert_new, lookup-insert}
use eidovela_open.Json.{Claims, string, elements, values, entries, members}
use eidovela_open.Sdk.Wire.{
  each_text, entries_into, string_entries, assign_strings, assign_map, strings_json, map_json,
}

pub elements-values-texts :
    (ss : List Text) → each_text (elements (values (map string ss))) ≡ some ss
unfolding each_text
elements-values-texts [] = refl
elements-values-texts (s ∷ ss) = rw (elements-values-texts ss) refl

pub entries-members : (ms : Claims) → entries (members ms) ≡ ms
entries-members [] = refl
entries-members ((k, v) ∷ ms) = rw (entries-members ms) refl

abbrev IsNew : List (Text × Text) → Text → Type 0
IsNew acc k = lookup acc k ≡ none

IsNew-insert :
    (acc : List (Text × Text)) (k v j : Text) → j ≢ k → IsNew acc j → IsNew (insert k v acc) j
IsNew-insert acc k v j n h = ground (arith, lookup-insert k j v acc, text_eq_iff k j)

IsNew-insert-All :
    (acc : List (Text × Text)) (k v : Text) (ks : List Text)
    → All (λ j. j ≢ k) ks
    → All (IsNew acc) ks
    → All (IsNew (insert k v acc)) ks
IsNew-insert-All acc k v [] a n = tt
IsNew-insert-All acc k v (j ∷ ks) (p, a) (h, n) =
    (IsNew-insert acc k v j p h, IsNew-insert-All acc k v ks a n)

IsNew-nil : (ks : List Text) → All (IsNew []) ks
unfolding lookup
IsNew-nil [] = tt
IsNew-nil (k ∷ ks) = (refl, IsNew-nil ks)

entries_into_lem :
    (acc m : List (Text × Text))
    → All (IsNew acc) (keys m)
    → Distinct (keys m)
    → entries_into acc (string_entries m) ≡ some (acc ++ m)
unfolding entries_into
entries_into_lem acc [] n d = rw (append-nil acc) refl
entries_into_lem acc ((k, v) ∷ m) (h, n) (a, d) =
    entries_into_lem (insert k v acc) m (IsNew-insert-All acc k v (keys m) a n) d
    ∙ rw (insert_new k v acc h, append_assoc acc ((k, v) ∷ []) m) refl

pub entries_into-string_entries :
    (m : List (Text × Text))
    → Distinct (keys m)
    → entries_into [] (entries (members (string_entries m))) ≡ some m
entries_into-string_entries m d =
    rw (entries-members (string_entries m)) (entries_into_lem [] m (IsNew-nil (keys m)) d)

-- What is put into a nil list or map.
pub assign-strings_json :
    (ss : Option (List Text)) → assign_strings none (strings_json ss) ≡ some ss
assign-strings_json none = refl
assign-strings_json (some ss) = rw (elements-values-texts ss) refl

-- No name is mapped twice.
abbrev pub IsMapping : Option (List (Text × Text)) → Type 0
IsMapping none = Unit
IsMapping (some m) = Distinct (keys m)

pub assign-map_json :
    (m : Option (List (Text × Text))) → IsMapping m → assign_map none (map_json m) ≡ some m
assign-map_json none d = refl
assign-map_json (some m) d = rw (entries_into-string_entries m d) refl
