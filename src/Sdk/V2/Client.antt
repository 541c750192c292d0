-- ===== src/Sdk/V2/Client.antt =====
-- The client of package eidovela, sdk/go/eidovela/client.go: each method as what it asks for. The
-- children hold the methods.
pub mod Agents
pub mod Enrollment
pub mod Trusts
pub mod Events
pub mod Queries
pub mod Lists
pub mod RoundTrip
use eidovela_open.Common.{
  ℤ, pos, leb_ℤ, not, [], ◌∷◌, ◌++◌, List, Option, some, if◌then◌else◌, Bool,
}
use eidovela_open.Text.{Text, text, is_empty}
use eidovela_open.Text.Split.{join}
use eidovela_open.Text.Url.{query_escape}
use eidovela_open.Decimal.{itoa}
use eidovela_open.Base64.{◌>>=◌}
use eidovela_open.Json.{Value}
use eidovela_open.Json.Struct.{string_field, struct_members}
use eidovela_open.Json.Fields.{list_field}

abbrev pub ampersand : Text
ampersand = text "&"

-- `n > 0`
abbrev pub is_positive : ℤ → Bool
is_positive n = not (leb_ℤ n (pos 0))

-- pageQuery
unfoldable pub page_query : Bool → Text → ℤ → ℤ → Text → Text
page_query has_filter filter limit offset cursor =
    join
      ((if has_filter then filter ∷ [] else [])
        ++ ((if is_positive limit then (text "limit=" ++ itoa limit) ∷ [] else [])
            ++ (if not (is_empty cursor)
                then (text "cursor=" ++ query_escape cursor) ∷ []
                else if is_positive offset
                then (text "offset=" ++ itoa offset) ∷ []
                else [])))
      ampersand

-- `if v != "" { params = append(params, name+url.QueryEscape(v)) }`
abbrev pub filter_param : Text → Text → List Text
filter_param name v = if is_empty v then [] else (name ++ query_escape v) ∷ []

-- A page of an answer: its items under their name, and the next cursor.
unfoldable pub decode_page :
    {A : Type 0} → (Value → Option A) → Text → Value → Option (List A × Text)
decode_page read name v = do
  ms ← struct_members v
  items ← list_field read ms name
  next_cursor ← string_field ms (text "next_cursor")
  some (items, next_cursor)
