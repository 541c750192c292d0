-- ===== src/Sdk/V2/Client/Queries.antt =====
-- What the parts of a list's query say: the filters that are given, the limit where it is positive,
-- and the cursor, or the offset where there is no cursor and it is positive.
use mathlib.Core.List.{append_assoc}
use eidovela_open.Common.{
  ℕ, ℤ, pos, negsuc, zero, suc, ◌<◌, ◌≡◌, refl, Bool, true, false, [], ◌∷◌, ◌++◌, List, Option,
  none, some, All-imp, if◌then◌else◌, arith,
}
use eidovela_open.Text.{Text, text, strip_prefix}
use eidovela_open.Text.Split.{cut, join}
use eidovela_open.Text.Url.{query_escape, query_unescape, parse_query, is_unreserved}
use eidovela_open.Text.Url.RoundTrip.{query_escape_of_unreserved}
use eidovela_open.Text.Url.Query.{
  IsName, Says, Says-nil, Says-append, Says-param, parse_query-join, parse_query-join_last, given,
}
use eidovela_open.Base64.RoundTrip.{IsBytes}
use eidovela_open.Decimal.{itoa, IsDigit, itoa-All}
use eidovela_open.Sdk.Http.{Net}
use eidovela_open.Sdk.V2.Client.{page_query, filter_param, is_positive}
use eidovela_open.Sdk.V2.Client.Agents.{}
use eidovela_open.Sdk.V2.Client.Events.{since_param}

pub state-IsName : IsName (text "state")
unfolding query_unescape cut strip_prefix
state-IsName = record { plain = refl; ends = refl; clear = omega arith }

pub limit-IsName : IsName (text "limit")
unfolding query_unescape cut strip_prefix
limit-IsName = record { plain = refl; ends = refl; clear = omega arith }

pub cursor-IsName : IsName (text "cursor")
unfolding query_unescape cut strip_prefix
cursor-IsName = record { plain = refl; ends = refl; clear = omega arith }

pub offset-IsName : IsName (text "offset")
unfolding query_unescape cut strip_prefix
offset-IsName = record { plain = refl; ends = refl; clear = omega arith }

pub status-IsName : IsName (text "status")
unfolding query_unescape cut strip_prefix
status-IsName = record { plain = refl; ends = refl; clear = omega arith }

pub publisher-IsName : IsName (text "publisher")
unfolding query_unescape cut strip_prefix
publisher-IsName = record { plain = refl; ends = refl; clear = omega arith }

pub blueprint_id-IsName : IsName (text "blueprint_id")
unfolding query_unescape cut strip_prefix
blueprint_id-IsName = record { plain = refl; ends = refl; clear = omega arith }

pub event_type-IsName : IsName (text "event_type")
unfolding query_unescape cut strip_prefix
event_type-IsName = record { plain = refl; ends = refl; clear = omega arith }

pub since-IsName : IsName (text "since")
unfolding query_unescape cut strip_prefix
since-IsName = record { plain = refl; ends = refl; clear = omega arith }

abbrev pub number_entry : Text → ℤ → List (Text × Text)
number_entry k n = if is_positive n then (k, itoa n) ∷ [] else []

-- What the page parameters ask for
abbrev pub page_entries : ℤ → ℤ → Text → List (Text × Text)
page_entries limit offset [] =
    number_entry (text "limit") limit ++ number_entry (text "offset") offset
page_entries limit offset (c ∷ cursor) =
    number_entry (text "limit") limit ++ given (text "cursor") (c ∷ cursor)

-- A decimal stands for itself.
pub unreserved_of_IsDigit : (c : ℕ) → IsDigit c → is_unreserved c ≡ true
unfolding is_unreserved
unreserved_of_IsDigit c h = ground arith

pub itoa-unescaped : (n : ℕ) → query_escape (itoa (pos n)) ≡ itoa (pos n)
itoa-unescaped n = query_escape_of_unreserved (itoa (pos n)) (
    All-imp IsDigit (λ c. is_unreserved c ≡ true) (itoa (pos n)) unreserved_of_IsDigit (itoa-All n))

pub itoa-IsBytes : (n : ℕ) → IsBytes (itoa (pos n))
itoa-IsBytes n = All-imp IsDigit (λ c. c < 256) (itoa (pos n)) (λ c h. omega arith) (itoa-All n)

pub Says-number :
    (k : Text) (n : ℤ)
    → IsName k
    → Says (if is_positive n then (k ++ (text "=" ++ itoa n)) ∷ [] else []) (number_entry k n)
Says-number k (pos zero) name = Says-nil
Says-number k (pos (suc n)) name =
    let e : is_positive (pos (suc n)) ≡ true = ground arith in
    rw e (
      rw (itoa-unescaped (suc n)) at
        (Says-param k (itoa (pos (suc n))) name (itoa-IsBytes (suc n))))
Says-number k (negsuc n) name = Says-nil

pub Says-filter :
    (k v : Text) → IsName k → IsBytes v → Says (filter_param (k ++ text "=") v) (given k v)
Says-filter k [] name bytes = Says-nil
Says-filter k (c ∷ v) name bytes =
    rw (append_assoc k (text "=") (query_escape (c ∷ v))) (Says-param k (c ∷ v) name bytes)

-- The page parameters with a filter in front of them.
pub page_query_lem :
    (has : Bool) (filter : Text) (said : List (Text × Text)) (limit offset : ℤ) (cursor : Text)
    → Says (if has then filter ∷ [] else []) said
    → IsBytes cursor
    → parse_query (page_query has filter limit offset cursor)
      ≡ some (said ++ page_entries limit offset cursor)
unfolding page_query
page_query_lem has filter said limit offset [] says bytes =
    let parts = Says-append _ _ says (
      Says-append _ _ (Says-number (text "limit") limit limit-IsName)
        (Says-number (text "offset") offset offset-IsName)) in
    parse_query-join _ (parts.0) (parts.1)
page_query_lem has filter said limit offset (c ∷ cursor) says bytes =
    let parts = Says-append _ _ says (
      Says-append _ _ (Says-number (text "limit") limit limit-IsName)
        (Says-param (text "cursor") (c ∷ cursor) cursor-IsName bytes)) in
    parse_query-join _ (parts.0) (parts.1)

-- The page parameters as the last part of a query.
pub page_query_last :
    (parts : List Text) {said : List (Text × Text)} (limit offset : ℤ) (cursor : Text)
    → Says parts said
    → IsBytes cursor
    → parse_query (join (parts ++ (page_query false [] limit offset cursor ∷ [])) (text "&"))
      ≡ some (said ++ page_entries limit offset cursor)
page_query_last parts limit offset cursor says bytes =
    parse_query-join_last parts _ (says.0) (says.1)
      (page_query_lem false [] [] limit offset cursor Says-nil bytes)

abbrev pub since_entries : Net → Option ℤ → List (Text × Text)
since_entries net none = []
since_entries net (some t) = (text "since", net.platform.format_rfc3339 t) ∷ []

pub since_filter :
    (net : Net) (since : Option ℤ)
    → ((t : ℤ) → IsBytes (net.platform.format_rfc3339 t))
    → Says (since_param net since) (since_entries net since)
since_filter net none h = Says-nil
since_filter net (some t) h =
    Says-param (text "since") (net.platform.format_rfc3339 t) since-IsName (h t)
