-- ===== src/Dict/Keys.antt =====
-- Lookup after insertion, and what insertion does to the keys.
use eidovela_open.Common.{
  ◌+◌, ◌≡◌, ◌≢◌, refl, List, [], ◌∷◌, ◌++◌, none, some, All, length, arith, Bool-cases, inl, inr,
  if◌then◌else◌,
}
use eidovela_open.Text.{Text, text_eq}
use eidovela_open.Text.Laws.{text_eq_iff, text_eq_sound}
use eidovela_open.Dict.{lookup, insert, keys}

-- No key stands twice.
abbrev pub Distinct : List Text → Type 0
Distinct [] = Unit
Distinct (k ∷ ks) = All (λ j. j ≢ k) ks × Distinct ks

module _ {V : Type 0} where
  -- A key that is not there is put at the end.
  pub insert_new :
      (k : Text) (v : V) (m : List (Text × V))
      → lookup m k ≡ none
      → insert k v m ≡ m ++ ((k, v) ∷ [])
  unfolding lookup insert
  insert_new k v [] h = refl
  insert_new k v ((i, u) ∷ m) h = ground (arith, insert_new k v m)

  pub lookup-insert :
      (k j : Text) (v : V) (m : List (Text × V))
      → lookup (insert k v m) j ≡ (if text_eq k j then some v else lookup m j)
  unfolding lookup insert
  lookup-insert k j v [] = refl
  lookup-insert k j v ((i, w) ∷ m) =
      ground (arith, text_eq_iff k j, text_eq_iff i k, text_eq_iff i j, lookup-insert k j v m)

  -- A key that is there keeps its place.
  pub keys-insert_old :
      (k : Text) (v w : V) (m : List (Text × V))
      → lookup m k ≡ some w
      → keys (insert k v m) ≡ keys m
  unfolding lookup insert
  keys-insert_old k v w [] h = cc
  keys-insert_old k v w ((i, u) ∷ m) h = ground (arith, keys-insert_old k v w m)

  -- A key that is not there comes last.
  pub keys-insert_new :
      (k : Text) (v : V) (m : List (Text × V))
      → lookup m k ≡ none
      → keys (insert k v m) ≡ keys m ++ (k ∷ [])
  unfolding lookup insert
  keys-insert_new k v [] h = refl
  keys-insert_new k v ((i, u) ∷ m) h = ground (arith, keys-insert_new k v m)

  -- A key that differs from all keys is not there.
  pub lookup_of_new :
      (k : Text) (m : List (Text × V)) → All (λ j. j ≢ k) (keys m) → lookup m k ≡ none
  unfolding lookup
  lookup_of_new k [] h = refl
  lookup_of_new k ((i, u) ∷ m) (n, h) = ground (arith, text_eq_iff i k, lookup_of_new k m h)

  pub lookup-All :
      (P : Text × V → Type 0) (m : List (Text × V)) (k : Text) (v : V)
      → All P m
      → lookup m k ≡ some v
      → P (k, v)
  unfolding lookup
  lookup-All P [] k v h e = cc
  lookup-All P ((i, u) ∷ m) k v (p, h) e = elim (Bool-cases (text_eq i k)) [
    | inl same ↦ let found : u ≡ v = ground arith in rw (← text_eq_sound i k same, ← found) p
    | inr other ↦ lookup-All P m k v h (ground arith)
  ]

  pub All-insert :
      (P : Text × V → Type 0) (k : Text) (v : V) (m : List (Text × V))
      → All P m
      → P (k, v)
      → All P (insert k v m)
  unfolding insert
  All-insert P k v [] h q = (q, tt)
  All-insert P k v ((i, u) ∷ m) (p, h) q = elim (Bool-cases (text_eq i k)) [
    | inl same ↦ rw same (rw (text_eq_sound i k same) q, h)
    | inr other ↦ rw other (p, All-insert P k v m h q)
  ]

  pub length-insert_old :
      (k : Text) (v w : V) (m : List (Text × V))
      → lookup m k ≡ some w
      → length (insert k v m) ≡ length m
  unfolding lookup insert
  length-insert_old k v w [] h = cc
  length-insert_old k v w ((i, u) ∷ m) h = ground (arith, length-insert_old k v w m)

  pub length-insert_new :
      (k : Text) (v : V) (m : List (Text × V))
      → lookup m k ≡ none
      → length (insert k v m) ≡ length m + 1
  unfolding lookup insert
  length-insert_new k v [] h = refl
  length-insert_new k v ((i, u) ∷ m) h = ground (arith, length-insert_new k v m)
