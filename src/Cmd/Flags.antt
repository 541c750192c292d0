-- ===== src/Cmd/Flags.antt =====
-- Go's package flag, as the commands use it: flags of texts and of numbers, and a flag set that ends the
-- program on an error, with 2, or with 0 where help is asked for.
use eidovela_open.Common.{
  ℕ, ℤ, pos, ◌≡◌, refl, ◌||◌, List, [], ◌∷◌, Option, none, some, ◌==◌, if◌then◌else◌,
}
use eidovela_open.Text.{Text, text, text_eq, strip_prefix}
use eidovela_open.Text.Split.{cut}
use eidovela_open.Dict.{lookup, insert}

pub data FlagValue : Type 0 where
  string : Text → FlagValue
  int : ℤ → FlagValue

-- The flags of a set, with their values
abbrev pub Flags : Type 0
Flags = List (Text × FlagValue)

pub data Parsed : Type 0 where
  parsed : Flags → List Text → Parsed
  exits : ℕ → Parsed

pub data Argument : Type 0 where
  positional terminator malformed : Argument
  named : Text → Option Text → Argument

name_of : Text → Argument
name_of [] = malformed
name_of (c ∷ s) = if c == b'-' || c == b'=' then malformed else (elim (cut (text "=") (c ∷ s)) [
  | none ↦ named (c ∷ s) none
  | some (name, value) ↦ named name (some value)
])

-- What FlagSet.parseOne sees in an argument
unfoldable pub classify : Text → Argument
unfolding name_of
classify [] = positional
classify (c ∷ []) = positional
classify (c ∷ d ∷ s) =
    if c == b'-'
    then (if d == b'-'
        then (elim s [ [] ↦ terminator | e ∷ s' ↦ name_of (e ∷ s') ])
        else name_of (d ∷ s))
    else positional

-- Value.Set, over strconv.ParseInt with the base that the text names
abbrev set_value : (Text → Option ℤ) → FlagValue → Text → Option FlagValue
set_value parse_int (string old) s = some (string s)
set_value parse_int (int old) s = elim (parse_int s) [ none ↦ none | some n ↦ some (int n) ]

abbrev exit_code : Text → ℕ
exit_code name = if text_eq name (text "help") || text_eq name (text "h") then 0 else 2

-- The flag that waits for its value stands before the arguments.
parse_from : (Text → Option ℤ) → Option (Text × FlagValue) → Flags → List Text → Parsed
unfolding classify
parse_from parse_int none flags [] = parsed flags []
parse_from parse_int (some _) flags [] = exits 2
parse_from parse_int (some (name, old)) flags (a ∷ args) = elim (set_value parse_int old a) [
  | none ↦ exits 2
  | some v ↦ parse_from parse_int none (insert name v flags) args
]
parse_from parse_int none flags (a ∷ args) = elim (classify a) [
  | positional ↦ parsed flags (a ∷ args)
  | terminator ↦ parsed flags args
  | malformed ↦ exits 2
  | named name given ↦ elim (lookup flags name) [
    | none ↦ exits (exit_code name)
    | some old ↦ elim given [
      | none ↦ parse_from parse_int (some (name, old)) flags args
      | some s ↦ elim (set_value parse_int old s) [
        | none ↦ exits 2
        | some v ↦ parse_from parse_int none (insert name v flags) args
      ]
    ]
  ]
]

-- FlagSet.Parse: the flags before the first argument that is none
unfoldable pub parse : (Text → Option ℤ) → Flags → List Text → Parsed
unfolding parse_from
parse parse_int flags args = parse_from parse_int none flags args

abbrev text_of : Option FlagValue → Text
text_of (some (string s)) = s
text_of _ = []

abbrev int_of : Option FlagValue → ℤ
int_of (some (int n)) = n
int_of _ = pos 0

-- The values of a flag set after Parse
unfoldable pub string_flag : Flags → Text → Text
string_flag flags name = text_of (lookup flags name)

unfoldable pub int_flag : Flags → Text → ℤ
int_flag flags name = int_of (lookup flags name)

abbrev test_flags : Flags
test_flags = (text "status", string []) ∷ (text "limit", int (pos 0)) ∷ []

parse_tests :
    (parse
        (λ s. some (pos 7))
        test_flags
        (text "-status=a=b" ∷ text "--limit" ∷ text "7" ∷ text "x" ∷ text "-limit" ∷ [])
      ≡ parsed
          ((text "status", string (text "a=b")) ∷ (text "limit", int (pos 7)) ∷ [])
          (text "x" ∷ text "-limit" ∷ []))
    × (parse (λ s. none) test_flags (text "-limit" ∷ text "7" ∷ []) ≡ exits 2)
    × (parse (λ s. none) test_flags (text "-limit" ∷ []) ≡ exits 2)
    × (parse (λ s. none) test_flags (text "-h" ∷ []) ≡ exits 0)
    × (parse (λ s. none) test_flags (text "--" ∷ text "-h" ∷ [])
        ≡ parsed test_flags (text "-h" ∷ []))
unfolding parse cut strip_prefix lookup text_eq insert
parse_tests = (refl, refl, refl, refl, refl)
