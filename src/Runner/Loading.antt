-- ===== src/Runner/Loading.antt =====
-- The fixtures of a directory: LoadFixtures of conformance/runner/types.go. Fixtures of one id stand in
-- the order in which they were read.
pub mod Decode
pub mod Order
use eidovela_open.Common.{
  ℕ, ltb, ◌==◌, Bool, true, false, not, ◌&&◌, ◌||◌, List, [], ◌∷◌, Option, none, some, Result, ok,
  err, ◌>>=◌, require, if◌then◌else◌,
}
use eidovela_open.Text.{Text, text, text_eq, has_suffix}
use eidovela_open.Platform.{Platform}
use Decode.{Fixture, decode_fixture}

-- An entry of the directory, with what reading the file gives
pub record Entry : Type 0 where
  pub name : Text
  pub is_directory : Bool
  pub raw : Option Text

pub data LoadError : Type 0 where
  no_directory : LoadError
  unreadable malformed : Text → LoadError

-- The test of an entry, negated
unfoldable pub is_fixture : Entry → Bool
is_fixture e =
    not (e.is_directory || not (has_suffix e.name (text ".json")))
    && not (text_eq e.name (text "fixture.schema.json") || text_eq e.name (text "manifest.json"))

-- json.Unmarshal into a Fixture
unfoldable pub read_fixture : Platform → Text → Option Fixture
read_fixture p raw = elim (p.json_unmarshal raw) [ none ↦ none | some v ↦ decode_fixture v ]

unfoldable pub load_entry : Platform → Entry → Result LoadError Fixture
load_entry p e = do
  raw ← require e.raw (unreadable e.name)
  require (read_fixture p raw) (malformed e.name)

-- The loop over the entries
unfoldable pub load_entries : Platform → List Entry → Result LoadError (List Fixture)
load_entries p [] = ok []
load_entries p (e ∷ es) =
    let rest = load_entries p es in
    if is_fixture e
    then (do fixture ← load_entry p e; fixtures ← rest; ok (fixture ∷ fixtures))
    else rest

-- `a < b` of texts
unfoldable pub text_less : Text → Text → Bool
text_less [] [] = false
text_less [] (b ∷ t) = true
text_less (a ∷ s) [] = false
text_less (a ∷ s) (b ∷ t) = ltb a b || (a == b && text_less s t)

unfoldable pub insert_fixture : Fixture → List Fixture → List Fixture
insert_fixture f [] = f ∷ []
insert_fixture f (g ∷ gs) =
    let rest = insert_fixture f gs in if text_less g.id f.id then g ∷ rest else f ∷ g ∷ gs

-- sort.Slice by the ids
unfoldable pub sort_fixtures : List Fixture → List Fixture
unfolding insert_fixture
sort_fixtures [] = []
sort_fixtures (f ∷ fs) = insert_fixture f (sort_fixtures fs)

-- LoadFixtures, on what os.ReadDir gives
unfoldable pub load_fixtures : Platform → Option (List Entry) → Result LoadError (List Fixture)
load_fixtures p directory = do
  entries ← require directory no_directory
  fixtures ← load_entries p entries
  ok (sort_fixtures fixtures)
