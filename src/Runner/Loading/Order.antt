-- ===== src/Runner/Loading/Order.antt =====
-- Which fixtures are loaded, and in which order (LoadFixtures of conformance/runner/types.go).
use mathlib.Core.List.{Perm}
use mathlib.Core.List.Perm
use eidovela_open.Common.{
  ◌≡◌, ◌≢◌, refl, true, false, List, [], ◌∷◌, Option, some, ok, >>=-eq-ok, require-eq-ok,
  require-bind-eq-ok, Bool-cases, inl, inr, arith,
}
use eidovela_open.Text.{Text, text, has_suffix}
use eidovela_open.Text.Laws.{text_eq_iff}
use eidovela_open.Platform.{Platform}
use eidovela_open.Runner.Loading.Decode.{Fixture}
use eidovela_open.Runner.Loading.{
  Entry, is_fixture, read_fixture, load_entry, load_entries, text_less, insert_fixture,
  sort_fixtures, load_fixtures,
}

-- A file of this ending that is neither the schema nor the manifest
abbrev pub IsFixture : Entry → Type 0
IsFixture e =
    (e.is_directory ≡ false)
    × (has_suffix e.name (text ".json") ≡ true)
    × (e.name ≢ text "fixture.schema.json")
    × (e.name ≢ text "manifest.json")

is_fixture-true : (e : Entry) → is_fixture e ≡ true → IsFixture e
unfolding is_fixture
is_fixture-true e h = ground (
  arith,
  text_eq_iff e.name (text "fixture.schema.json"),
  text_eq_iff e.name (text "manifest.json"),
)

is_fixture-false : (e : Entry) → is_fixture e ≡ false → ¬ (IsFixture e)
unfolding is_fixture
is_fixture-false e h k = ground (
  arith,
  text_eq_iff e.name (text "fixture.schema.json"),
  text_eq_iff e.name (text "manifest.json"),
)

not_fixture : (e : Entry) → ¬ (IsFixture e) → is_fixture e ≡ false
not_fixture e n = elim (Bool-cases (is_fixture e)) [
  | inl h ↦ absurd (n (is_fixture-true e h))
  | inr h ↦ h
]

a_fixture : (e : Entry) → IsFixture e → is_fixture e ≡ true
a_fixture e k = elim (Bool-cases (is_fixture e)) [
  | inl h ↦ h
  | inr h ↦ absurd (is_fixture-false e h k)
]

-- The fixtures of the entries, in their order
pub data Loaded (p : Platform) : List Entry → List Fixture → Type 0 where
  nothing : Loaded p [] []
  skipped :
      {e : Entry} {es : List Entry} {fs : List Fixture}
      → ¬ (IsFixture e)
      → Loaded p es fs
      → Loaded p (e ∷ es) fs
  loaded :
      {e : Entry} {es : List Entry} {f : Fixture} {fs : List Fixture} {raw : Text}
      → IsFixture e
      → e.raw ≡ some raw
      → read_fixture p raw ≡ some f
      → Loaded p es fs
      → Loaded p (e ∷ es) (f ∷ fs)

load_entries-Loaded :
    (p : Platform) (es : List Entry) (fs : List Fixture)
    → load_entries p es ≡ ok fs
    → Loaded p es fs
unfolding load_entries load_entry
load_entries-Loaded p [] fs h = let same : [] ≡ fs = cc in rw (← same) nothing
load_entries-Loaded p (e ∷ es) fs h = elim (Bool-cases (is_fixture e)) [
  | inl k ↦
      let (f, one, h') = >>=-eq-ok (load_entry p e) _ (rw k at h) in
      let (raw, there, read) = require-bind-eq-ok e.raw _ _ one in
      let (gs, rest, h'') = >>=-eq-ok (load_entries p es) _ h' in
      let same : f ∷ gs ≡ fs = cc in
      rw (← same) (
        loaded (is_fixture-true e k) there (require-eq-ok (read_fixture p raw) _ read)
          (load_entries-Loaded p es gs rest))
  | inr k ↦ skipped (is_fixture-false e k) (load_entries-Loaded p es fs (rw k at h))
]

insert_fixture-Perm : (f : Fixture) (fs : List Fixture) → Perm (insert_fixture f fs) (f ∷ fs)
unfolding insert_fixture
insert_fixture-Perm f [] = Perm.refl (f ∷ [])
insert_fixture-Perm f (g ∷ gs) = elim (Bool-cases (text_less g.id f.id)) [
  | inl e ↦ rw e (Perm.trans (Perm.cons g (insert_fixture-Perm f gs)) (Perm.swap f g gs))
  | inr e ↦ rw e (Perm.refl (f ∷ g ∷ gs))
]

sort_fixtures-Perm : (fs : List Fixture) → Perm (sort_fixtures fs) fs
unfolding sort_fixtures
sort_fixtures-Perm [] = Perm.refl []
sort_fixtures-Perm (f ∷ fs) =
    Perm.trans (insert_fixture-Perm f (sort_fixtures fs)) (Perm.cons f (sort_fixtures-Perm fs))

-- No id is less than the one before it.
abbrev pub IsSorted : List Fixture → Type 0
IsSorted [] = Unit
IsSorted (f ∷ []) = Unit
IsSorted (f ∷ g ∷ gs) = (text_less g.id f.id ≡ false) × IsSorted (g ∷ gs)

text_less_asymm : (s t : Text) → text_less s t ≡ true → text_less t s ≡ false
unfolding text_less
text_less_asymm [] [] h = cc
text_less_asymm [] (b ∷ t) h = refl
text_less_asymm (a ∷ s) [] h = cc
text_less_asymm (a ∷ s) (b ∷ t) h = ground (arith, text_less_asymm s t)

insert_fixture-IsSorted :
    (f : Fixture) (fs : List Fixture) → IsSorted fs → IsSorted (insert_fixture f fs)
unfolding insert_fixture
insert_fixture-IsSorted f [] h = tt
insert_fixture-IsSorted f (g ∷ []) h = elim (Bool-cases (text_less g.id f.id)) [
  | inl e ↦ rw e (text_less_asymm g.id f.id e, tt)
  | inr e ↦ rw e (e, tt)
]
insert_fixture-IsSorted f (g ∷ k ∷ ks) (p, h) = elim (Bool-cases (text_less g.id f.id)) [
  | inr e ↦ rw e (e, (p, h))
  | inl e ↦ elim (Bool-cases (text_less k.id f.id)) [
    | inl e' ↦ rw (e, e') (p, rw e' at (insert_fixture-IsSorted f (k ∷ ks) h))
    | inr e' ↦ rw (e, e') (text_less_asymm g.id f.id e, (e', h))
  ]
]

sort_fixtures-IsSorted : (fs : List Fixture) → IsSorted (sort_fixtures fs)
unfolding sort_fixtures
sort_fixtures-IsSorted [] = tt
sort_fixtures-IsSorted (f ∷ fs) =
    insert_fixture-IsSorted f (sort_fixtures fs) (sort_fixtures-IsSorted fs)

-- Fixtures that are loaded are those of the files of the directory that end in ".json", without the schema
-- and the manifest, each once: every such file was read as a fixture. They are sorted by their ids.
pub load_fixtures-IsSorted :
    (p : Platform) (directory : Option (List Entry)) (fs : List Fixture)
    → load_fixtures p directory ≡ ok fs
    → (entries : List Entry) × (found : List Fixture) × (directory ≡ some entries)
      × Loaded p entries found
      × Perm fs found
      × IsSorted fs
unfolding load_fixtures
load_fixtures-IsSorted p directory fs h =
    let (entries, there, h') = require-bind-eq-ok directory _ _ h in
    let (found, read, h'') = >>=-eq-ok (load_entries p entries) _ h' in
    let same : sort_fixtures found ≡ fs = cc in
    (
      entries,
      found,
      there,
      load_entries-Loaded p entries found read,
      rw same at (sort_fixtures-Perm found),
      rw same at (sort_fixtures-IsSorted found),
    )

load_entries_of_Loaded :
    (p : Platform) {es : List Entry} {fs : List Fixture}
    → Loaded p es fs
    → load_entries p es ≡ ok fs
unfolding load_entries load_entry
load_entries_of_Loaded p nothing = refl
load_entries_of_Loaded p (skipped {e} n l) = rw (not_fixture e n) (load_entries_of_Loaded p l)
load_entries_of_Loaded p (loaded {e} k there read l) =
    rw (a_fixture e k, there, read, load_entries_of_Loaded p l) refl

-- Where every such file is read, loading succeeds.
load_fixtures_of_Loaded :
    (p : Platform) {entries : List Entry} {found : List Fixture}
    → Loaded p entries found
    → load_fixtures p (some entries) ≡ ok (sort_fixtures found)
unfolding load_fixtures
load_fixtures_of_Loaded p l = rw (load_entries_of_Loaded p l) refl
