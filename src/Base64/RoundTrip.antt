-- ===== src/Base64/RoundTrip.antt =====
-- Decoding what was encoded, and the characters that an encoding is made of.
use eidovela_open.Common.{ℕ, ◌+◌, ◌*◌, ◌/◌, ◌%◌, ◌<◌, ◌≡◌, ◌≢◌, refl, ap, [], ◌∷◌, some, All, arith}
use eidovela_open.Text.{Text}
use eidovela_open.Text.Split.{Lacks}
use eidovela_open.Base64.{digit, value, encode, decode_quanta, without_line_ends, decode}

-- Bytes are numbers below 256.
abbrev pub IsBytes : Text → Type 0
IsBytes s = All (λ b. b < 256) s

value-digit : (v : ℕ) → v < 64 → value (digit v) ≡ some v
unfolding value digit
value-digit v h = ground arith

digit_plain : (v : ℕ) → v < 64 → (digit v ≢ 46) × (digit v ≢ 10) × (digit v ≢ 13) × (digit v < 256)
unfolding digit
digit_plain v h = ground arith

-- What an encoding is made of.
abbrev pub IsPlain : ℕ → Type 0
IsPlain c = (c ≢ 46) × (c ≢ 10) × (c ≢ 13) × (c < 256)

pub encode-IsPlain : (s : Text) → IsBytes s → All IsPlain (encode s)
unfolding encode
encode-IsPlain [] h = tt
encode-IsPlain (a ∷ []) (p, _) =
    (digit_plain (a / 4) (omega arith), (digit_plain (a % 4 * 16) (omega arith), tt))
encode-IsPlain (a ∷ b ∷ []) (p, (q, _)) = (
  digit_plain (a / 4) (omega arith),
  (digit_plain (a % 4 * 16 + b / 16) (omega arith), (digit_plain (b % 16 * 4) (omega arith), tt)),
)
encode-IsPlain (a ∷ b ∷ c ∷ s) (p, (q, (r, h))) = (
  digit_plain (a / 4) (omega arith),
  (
    digit_plain (a % 4 * 16 + b / 16) (omega arith),
    (
      digit_plain (b % 16 * 4 + c / 64) (omega arith),
      (digit_plain (c % 64) (omega arith), encode-IsPlain s h),
    ),
  ),
)

without_line_ends_of_IsPlain : (s : Text) → All IsPlain s → without_line_ends s ≡ s
unfolding without_line_ends
without_line_ends_of_IsPlain [] h = refl
without_line_ends_of_IsPlain (c ∷ s) ((_, p, q, _), h) =
    ground (arith, without_line_ends_of_IsPlain s h)

IsPlain-Lacks : (s : Text) → All IsPlain s → Lacks 46 s
IsPlain-Lacks [] h = tt
IsPlain-Lacks (c ∷ s) ((p, _, _, _), h) = (p, IsPlain-Lacks s h)

decode_quanta-encode : (s : Text) → IsBytes s → decode_quanta (encode s) ≡ some s
unfolding encode decode_quanta
decode_quanta-encode [] h = refl
decode_quanta-encode (a ∷ []) (p, _) =
    rw (value-digit (a / 4) (omega arith), value-digit (a % 4 * 16) (omega arith))
      (ap (λ n. some (n ∷ [])) (omega arith))
decode_quanta-encode (a ∷ b ∷ []) (p, (q, _)) =
    ground (arith, value-digit (a / 4), value-digit (a % 4 * 16 + b / 16), value-digit (b % 16 * 4))
decode_quanta-encode (a ∷ b ∷ c ∷ s) (p, (q, (r, h))) = ground (
  arith,
  value-digit (a / 4),
  value-digit (a % 4 * 16 + b / 16),
  value-digit (b % 16 * 4 + c / 64),
  value-digit (c % 64),
  decode_quanta-encode s h,
)

-- Decoding gives back whatever bytes were encoded.
pub decode-encode : (s : Text) → IsBytes s → decode (encode s) ≡ some s
unfolding decode
decode-encode s h =
    rw (without_line_ends_of_IsPlain (encode s) (encode-IsPlain s h)) (decode_quanta-encode s h)

-- An encoding holds no full stop, the byte that separates the segments of a token.
pub encode-Lacks_dot : (s : Text) → IsBytes s → Lacks 46 (encode s)
encode-Lacks_dot s h = IsPlain-Lacks (encode s) (encode-IsPlain s h)
