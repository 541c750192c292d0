-- ===== src/Dict.antt =====
-- Go's maps with string keys, as lists of entries; a new key is put at the end. The program never
-- depends on the order in which it walks a map.
pub mod Keys
use eidovela_open.Common.{Bool, List, [], ◌∷◌, Option, none, some, if◌then◌else◌}
use eidovela_open.Text.{Text, text_eq}

module _ {ℓ} {V : Type ℓ} where
  -- `v, ok := m[k]`
  unfoldable pub lookup : List (Text × V) → Text → Option V
  lookup [] k = none
  lookup ((j, v) ∷ m) k = let later = lookup m k in if text_eq j k then some v else later

  -- `m[k] = v`
  unfoldable pub insert : Text → V → List (Text × V) → List (Text × V)
  insert k v [] = (k, v) ∷ []
  insert k v ((j, w) ∷ m) =
      let later = insert k v m in if text_eq j k then (j, v) ∷ m else (j, w) ∷ later

  abbrev pub keys : List (Text × V) → List Text
  keys [] = []
  keys ((k, v) ∷ m) = k ∷ keys m
