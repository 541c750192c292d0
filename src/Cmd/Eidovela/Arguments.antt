-- ===== src/Cmd/Eidovela/Arguments.antt =====
-- The order of arguments and flags, and the lists of a flag (cmd/eidovela/main.go).
use eidovela_open.Common.{ℤ, ◌≡◌, ◌≢◌, refl, false, List, [], ◌∷◌, Option, All, All-imp, arith}
use eidovela_open.Text.{Text, text, text_eq, has_prefix, strip_prefix}
use eidovela_open.Text.Split.{split, join, Lacks}
use eidovela_open.Text.Space.{trim_space}
use eidovela_open.Text.Url.Query.{split-join}
use eidovela_open.Dict.{lookup}
use eidovela_open.Sdk.Http.{Transport, new_client}
use eidovela_open.Sdk.V2.Client.Trusts
use eidovela_open.Sdk.V2.Client.Enrollment
use eidovela_open.Cmd.Flags.{Flags, string, parsed, parse, string_flag}
use eidovela_open.Cmd.Eidovela.{Tools, csv_items, split_csv, trust_flags, lease_flags}
use eidovela_open.Cmd.Eidovela.Dispatch.{command, main, exit, main_flags, run_plan}

-- An argument that does not begin with "-"
abbrev pub IsPlain : Text → Type 0
IsPlain a = has_prefix a (text "-") ≡ false

-- Parsing stops at such an argument.
parse_of_IsPlain :
    (parse_int : Text → Option ℤ) (flags : Flags) (a : Text) (args : List Text)
    → IsPlain a
    → parse parse_int flags (a ∷ args) ≡ parsed flags (a ∷ args)
unfolding has_prefix strip_prefix parse
parse_of_IsPlain parse_int flags [] args h = refl
parse_of_IsPlain parse_int flags (c ∷ []) args h = refl
parse_of_IsPlain parse_int flags (c ∷ d ∷ s) args h = ground arith

main-command :
    (tools : Tools) (transport : Transport) (name : Text) (args : List Text)
    → IsPlain name
    → main tools transport (name ∷ args)
      ≡ run_plan tools.net
          (new_client (text "http://localhost:1966"))
          transport
          (command tools (name ∷ args))
unfolding main string_flag lookup text_eq
main-command tools transport name args h =
    rw (parse_of_IsPlain tools.parse_int main_flags name args h) refl

-- The order that the usage shows for federation-trust create and instance lease, the issuer or the id
-- before the flags, always ends in the usage, with 2, whatever stands behind, and nothing is sent.
pub main-positional_first :
    (tools : Tools) (transport : Transport) (a x : Text) (xs : List Text)
    → IsPlain a
    → (main tools transport (text "federation-trust" ∷ text "create" ∷ a ∷ x ∷ xs) ≡ exit 2)
      × (main tools transport (text "instance" ∷ text "lease" ∷ a ∷ x ∷ xs) ≡ exit 2)
unfolding command text_eq has_prefix strip_prefix
main-positional_first tools transport a x xs h = (
  rw
      (
        main-command tools transport (text "federation-trust") (text "create" ∷ a ∷ x ∷ xs) refl,
        parse_of_IsPlain tools.parse_int trust_flags a (x ∷ xs) h,
      )
      refl,
  rw
      (
        main-command tools transport (text "instance") (text "lease" ∷ a ∷ x ∷ xs) refl,
        parse_of_IsPlain tools.parse_int lease_flags a (x ∷ xs) h,
      )
      refl,
)

abbrev set_trust_flags : Text → Text → Flags
set_trust_flags uri audiences =
    (text "jwks-uri", string uri)
    ∷ (text "audiences", string audiences)
    ∷ (text "agent-claim", string (text "sub"))
    ∷ (text "status", string (text "active"))
    ∷ []

abbrev pub IsItem : Text → Type 0
IsItem s = (s ≢ []) × (trim_space s ≡ s) × Lacks b',' s

lacking : (items : List Text) → All IsItem items → All (Lacks b',') items
lacking items h = All-imp IsItem (Lacks b',') items (λ s i. i.2) h

csv_items_lem : (items : List Text) → All IsItem items → csv_items items ≡ items
unfolding csv_items
csv_items_lem [] h = refl
csv_items_lem ([] ∷ items) ((n, t, l), h) = absurd (n refl)
csv_items_lem ((c ∷ s) ∷ items) ((n, t, l), h) = rw (t, csv_items_lem items h) refl

-- A list of a flag, joined by commas, is read as its items, if these are set, trimmed, and hold no comma.
pub split_csv-join :
    (items : List Text) → All IsItem items → split_csv (join items (text ",")) ≡ items
unfolding split_csv split join trim_space
split_csv-join [] h = refl
split_csv-join (s ∷ items) h =
    rw (split-join b',' s items (lacking (s ∷ items) h)) (csv_items_lem (s ∷ items) h)
