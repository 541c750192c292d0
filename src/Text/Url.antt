-- ===== src/Text/Url.antt =====
-- net/url: QueryEscape and PathEscape, and, to say what they are for, the reading of an escaped text
-- and of a query (unescape and ParseQuery).
pub mod RoundTrip
pub mod Query
use eidovela_open.Common.{
  ℕ, ◌+◌, ◌-◌, ◌*◌, ◌/◌, ◌%◌, ◌≡◌, refl, Bool, true, false, not, ◌&&◌, ◌||◌, List, [], ◌∷◌, ◌++◌,
  Option, none, some, leb, ltb, ◌==◌, if◌then◌else◌,
}
use eidovela_open.Text.{Text, text, is_empty, strip_prefix}
use eidovela_open.Text.Split.{cut, split, contains}
use eidovela_open.Base64.{◌>>=◌}

-- Letters, digits and "-_.~"
unfoldable pub is_unreserved : ℕ → Bool
is_unreserved c =
    (leb b'a' c && leb c b'z')
    || (leb b'A' c && leb c b'Z')
    || (leb b'0' c && leb c b'9')
    || c == b'-'
    || c == b'_'
    || c == b'.'
    || c == b'~'

-- "$&+:=@" stand for themselves in a segment of a path.
unfoldable pub is_segment_byte : ℕ → Bool
unfolding is_unreserved
is_segment_byte c =
    is_unreserved c || c == b'$' || c == b'&' || c == b'+' || c == b':' || c == b'=' || c == b'@'

unfoldable pub hex : ℕ → ℕ
hex v = if ltb v 10 then v + 48 else v + 55

unfoldable pub percent : ℕ → Text
unfolding hex
percent c = b'%' ∷ hex (c / 16) ∷ hex (c % 16) ∷ []

unfoldable pub query_byte : ℕ → Text
unfolding is_unreserved percent
query_byte c = if c == b' ' then b'+' ∷ [] else if is_unreserved c then c ∷ [] else percent c

unfoldable pub segment_byte : ℕ → Text
unfolding is_segment_byte percent
segment_byte c = if is_segment_byte c then c ∷ [] else percent c

-- url.QueryEscape
unfoldable pub query_escape : Text → Text
unfolding query_byte
query_escape [] = []
query_escape (c ∷ s) = query_byte c ++ query_escape s

-- url.PathEscape
unfoldable pub path_escape : Text → Text
unfolding segment_byte
path_escape [] = []
path_escape (c ∷ s) = segment_byte c ++ path_escape s

unfoldable pub unhex : ℕ → Option ℕ
unhex c =
    if leb b'0' c && leb c b'9'
    then some (c - 48)
    else if leb b'a' c && leb c b'f'
    then some (c - 87)
    else if leb b'A' c && leb c b'F'
    then some (c - 55)
    else none

-- Where the reading stands: at a byte, behind a "%", or behind its first digit.
pub data Place : Type 0 where
  start : Place
  high : Place
  low : ℕ → Place

-- The first argument says whether a "+" is a space, as it is in a query.
unfoldable pub unescape_from : Bool → Place → Text → Option Text
unfolding unhex
unescape_from plus start [] = some []
unescape_from plus high [] = none
unescape_from plus (low v) [] = none
unescape_from plus start (c ∷ s) =
    let escaped = unescape_from plus high s in
    let plain = unescape_from plus start s in
    if c == b'%'
    then escaped
    else do rest ← plain; some ((if plus && c == b'+' then b' ' else c) ∷ rest)
unescape_from plus high (c ∷ s) = do v ← unhex c; unescape_from plus (low v) s
unescape_from plus (low v) (c ∷ s) =
    let later = unescape_from plus start s in
    do w ← unhex c; rest ← later; some ((v * 16 + w) ∷ rest)

-- url.QueryUnescape
unfoldable pub query_unescape : Text → Option Text
unfolding unescape_from
query_unescape s = unescape_from true start s

-- url.PathUnescape
unfoldable pub path_unescape : Text → Option Text
unfolding unescape_from
path_unescape s = unescape_from false start s

-- One part of a query: an empty one is passed over, and a text without "=" is a name alone.
unfoldable pub read_part : Text → Option (List (Text × Text))
unfolding query_unescape
read_part s =
    if is_empty s
    then some []
    else if contains s (text ";")
    then none
    else (elim (cut (text "=") s) [
      | none ↦ do k ← query_unescape s; some ((k, []) ∷ [])
      | some (before, behind) ↦ do
        k ← query_unescape before
        v ← query_unescape behind
        some ((k, v) ∷ [])
    ])

unfoldable pub read_parts : List Text → Option (List (Text × Text))
unfolding read_part
read_parts [] = some []
read_parts (s ∷ ss) =
    let later = read_parts ss in do part ← read_part s; rest ← later; some (part ++ rest)

-- url.ParseQuery, with the entries in their order
unfoldable pub parse_query : Text → Option (List (Text × Text))
unfolding read_parts
parse_query q = read_parts (split q b'&')

escape_tests :
    (query_escape (text "a b&c/é=") ≡ text "a+b%26c%2F%E9%3D")
    × (path_escape (text "a b&c/?=") ≡ text "a%20b&c%2F%3F=")
    × (parse_query (text "a=1%2b+&&b") ≡ some ((text "a", text "1+ ") ∷ (text "b", []) ∷ []))
unfolding query_escape path_escape parse_query split cut contains strip_prefix
escape_tests = (refl, refl, refl)
