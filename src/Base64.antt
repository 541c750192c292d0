-- ===== src/Base64.antt =====
-- encoding/base64: RawURLEncoding, which the SDK and the conformance runner call for every segment
-- of a token, every key and every thumbprint. Six bits to a character, no padding.
pub mod RoundTrip
use eidovela_open.Common.{
  ℕ, ◌+◌, ◌-◌, ◌*◌, ◌/◌, ◌%◌, ◌≡◌, refl, Bool, ◌&&◌, ◌||◌, true, false, [], ◌∷◌, ◌++◌, Option, none,
  some, ltb, leb, ◌==◌, if◌then◌else◌,
}
use eidovela_open.Text.{Text, text}

infixl 5 ◌>>=◌
abbrev pub ◌>>=◌ : {A B : Type 0} → Option A → (A → Option B) → Option B
none >>= k = none
some a >>= k = k a

-- The alphabet: A-Z, a-z, 0-9, '-', '_'.
unfoldable pub digit : ℕ → ℕ
digit v =
    if ltb v 26
    then v + 65
    else if ltb v 52
    then v - 26 + 97
    else if ltb v 62
    then v - 52 + 48
    else if v == 62
    then 45
    else 95

unfoldable pub value : ℕ → Option ℕ
value c =
    if leb 65 c && leb c 90
    then some (c - 65)
    else if leb 97 c && leb c 122
    then some (c - 97 + 26)
    else if leb 48 c && leb c 57
    then some (c - 48 + 52)
    else if c == 45
    then some 62
    else if c == 95
    then some 63
    else none

-- EncodeToString
unfoldable pub encode : Text → Text
encode [] = []
encode (a ∷ []) = digit (a / 4) ∷ digit (a % 4 * 16) ∷ []
encode (a ∷ b ∷ []) = digit (a / 4) ∷ digit (a % 4 * 16 + b / 16) ∷ digit (b % 16 * 4) ∷ []
encode (a ∷ b ∷ c ∷ s) =
    digit (a / 4)
    ∷ digit (a % 4 * 16 + b / 16)
    ∷ digit (b % 16 * 4 + c / 64)
    ∷ digit (c % 64)
    ∷ encode s

-- The decoder passes over line ends.
pub without_line_ends : Text → Text
without_line_ends [] = []
without_line_ends (c ∷ s) =
    let rest = without_line_ends s in if c == 10 || c == 13 then rest else c ∷ rest

-- Four characters to three bytes; a rest of two or three characters is a rest of one or two bytes,
-- whose spare low bits are dropped, and a rest of one character is an error.
pub decode_quanta : Text → Option Text
decode_quanta [] = some []
decode_quanta (a ∷ []) = none
decode_quanta (a ∷ b ∷ []) = do x ← value a; y ← value b; some ((x * 4 + y / 16) ∷ [])
decode_quanta (a ∷ b ∷ c ∷ []) = do
  x ← value a
  y ← value b
  z ← value c
  some ((x * 4 + y / 16) ∷ (y % 16 * 16 + z / 4) ∷ [])
decode_quanta (a ∷ b ∷ c ∷ d ∷ s) =
    let later = decode_quanta s in
    do
      x ← value a
      y ← value b
      z ← value c
      w ← value d
      rest ← later
      some ((x * 4 + y / 16) ∷ (y % 16 * 16 + z / 4) ∷ (z % 4 * 64 + w) ∷ rest)

-- DecodeString
unfoldable pub decode : Text → Option Text
unfolding decode_quanta without_line_ends
decode s = decode_quanta (without_line_ends s)

encode_hello : encode (text "hello, {}?>~") ≡ text "aGVsbG8sIHt9Pz5-"
unfolding encode digit
encode_hello = refl

decode_two : decode (text "aGVs\nbG8") ≡ some (text "hello")
unfolding decode value
decode_two = refl

decode_one_left : decode (text "aGVsb") ≡ none
unfolding decode value
decode_one_left = refl
