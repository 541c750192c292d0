-- ===== src/Sdk/Token/Claims.antt =====
-- The errors of Verify and its helpers on claims (audienceContains and number in
-- sdk/go/eidovela/v3/verify.go).
pub mod Audience
use eidovela_open.Common.{ℕ, ℤ, pos, ◌≡◌, Bool, true, false, List, [], ◌∷◌, ◌||◌}
use eidovela_open.Text.{Text, text_eq}
use eidovela_open.Json.{Value, float64, json_number, string, array, elements, values}
use eidovela_open.Json.Number.{to_int64, parse_int}
use eidovela_open.Platform.{Platform}

-- The package's error values, then the errors of the HTTP client and of the JSON decoder that Verify
-- passes on.
pub data Error : Type 0 where
  inactive pop_mismatch audience_mismatch unknown_key invalid_token : Error
  transport malformed_jwks : Error

-- `item == audience` for an item of type any
abbrev pub item_eq : Value → Text → Bool
item_eq (string s) audience = text_eq s audience
item_eq _ audience = false

unfoldable pub any_item : List Value → Text → Bool
any_item [] audience = false
any_item (v ∷ vs) audience = item_eq v audience || any_item vs audience

unfoldable pub audience_contains : Value → Text → Bool
audience_contains (string s) audience = text_eq s audience
audience_contains (array vs) audience = any_item (elements vs) audience
audience_contains _ audience = false

unfoldable pub number : Platform → Value → ℤ × Bool
number p (float64 f) = (to_int64 p.int64_overflow f, true)
number p (json_number s) = parse_int s
number p _ = (pos 0, false)
