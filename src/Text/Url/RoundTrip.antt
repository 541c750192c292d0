-- ===== src/Text/Url/RoundTrip.antt =====
-- Reading an escaped text, and the bytes that an escaped text is made of.
use eidovela_open.Common.{
  ℕ, ◌/◌, ◌%◌, ◌<◌, ◌≡◌, ◌≢◌, refl, Bool, true, false, [], ◌∷◌, ◌++◌, some, All, All-append, arith,
  Bool-cases, inl, inr, ◌==◌, ◌⊎◌,
}
use eidovela_open.Text.{Text}
use eidovela_open.Base64.RoundTrip.{IsBytes}
use eidovela_open.Text.Url.{
  is_unreserved, is_segment_byte, hex, percent, query_byte, segment_byte, query_escape, path_escape,
  unhex, start, unescape_from, query_unescape, path_unescape,
}

unhex-hex : (v : ℕ) → v < 16 → unhex (hex v) ≡ some v
unfolding unhex hex
unhex-hex v h = ground arith

module _ (plus : Bool) (c : ℕ) (s r : Text) (byte : c < 256)
    (behind : unescape_from plus start s ≡ some r) where
  unescape-percent : unescape_from plus start (percent c ++ s) ≡ some (c ∷ r)
  unfolding percent unescape_from
  unescape-percent =
      rw (unhex-hex (c / 16) (omega arith), unhex-hex (c % 16) (omega arith), behind) (ground arith)

  unescape-plain : c ≢ b'%' → c ≢ b'+' → unescape_from plus start (c ∷ s) ≡ some (c ∷ r)
  unfolding unescape_from
  unescape-plain p q = ground arith

  unescape-space : plus ≡ true → unescape_from plus start (b'+' ∷ s) ≡ some (b' ' ∷ r)
  unfolding unescape_from
  unescape-space p = ground arith

query_byte-cases :
    (c : ℕ)
    → ((query_byte c ≡ c ∷ []) × (c ≢ b'%') × (c ≢ b'+'))
      ⊎ ((query_byte c ≡ percent c) ⊎ ((query_byte c ≡ b'+' ∷ []) × (c ≡ b' ')))
unfolding query_byte
query_byte-cases c = elim (Bool-cases (c == b' ')) [
  | inl e ↦ inr (inr (ground arith, ground arith))
  | inr e ↦ elim (Bool-cases (is_unreserved c)) [
    | inl u ↦ inl (rw (e, u) refl, ground arith, ground arith)
    | inr u ↦ inr (inl (rw (e, u) refl))
  ]
]

-- One byte, in a query and in a segment of a path.
module _ (c : ℕ) (s r : Text) (byte : c < 256) where
  unescape-query_byte :
      unescape_from true start s ≡ some r
      → unescape_from true start (query_byte c ++ s) ≡ some (c ∷ r)
  unescape-query_byte h = elim (query_byte-cases c) [
    | inl (e, p, q) ↦ rw e (unescape-plain true c s r byte h p q)
    | inr (inl e) ↦ rw e (unescape-percent true c s r byte h)
    | inr (inr (e, p)) ↦ rw (e, p) (unescape-space true c s r byte h refl)
  ]

  unescape-segment_byte :
      unescape_from false start s ≡ some r
      → unescape_from false start (segment_byte c ++ s) ≡ some (c ∷ r)
  unfolding segment_byte unescape_from
  unescape-segment_byte h = elim (Bool-cases (is_segment_byte c)) [
    | inl e ↦ ground (arith)
    | inr e ↦ ground (arith, unescape-percent false c s r byte h)
  ]

-- Any bytes can be passed in a query, and as a segment of a path.
pub query_unescape-query_escape : (s : Text) → IsBytes s → query_unescape (query_escape s) ≡ some s
unfolding query_unescape query_escape
query_unescape-query_escape [] h = refl
query_unescape-query_escape (c ∷ s) (b, h) =
    unescape-query_byte c (query_escape s) s b (query_unescape-query_escape s h)

pub path_unescape-path_escape : (s : Text) → IsBytes s → path_unescape (path_escape s) ≡ some s
unfolding path_unescape path_escape
path_unescape-path_escape [] h = refl
path_unescape-path_escape (c ∷ s) (b, h) =
    unescape-segment_byte c (path_escape s) s b (path_unescape-path_escape s h)

-- An escaped text holds none of the bytes that end a part of a query or of a path.
abbrev pub IsQueryByte : ℕ → Type 0
IsQueryByte c =
    (c ≢ b'&') × (c ≢ b';') × (c ≢ b'=') × (c ≢ b'#') × (c ≢ b'?') × (c ≢ b' ') × (c < 128)

abbrev pub IsSegmentByte : ℕ → Type 0
IsSegmentByte c = (c ≢ b'/') × (c ≢ b'?') × (c ≢ b'#') × (c ≢ b' ') × (c < 128)

query_byte-All : (c : ℕ) → c < 256 → All IsQueryByte (query_byte c)
unfolding query_byte
query_byte-All c h = ground arith

segment_byte-All : (c : ℕ) → c < 256 → All IsSegmentByte (segment_byte c)
unfolding segment_byte
segment_byte-All c h = ground arith

pub query_escape-All : (s : Text) → IsBytes s → All IsQueryByte (query_escape s)
unfolding query_escape
query_escape-All [] h = tt
query_escape-All (c ∷ s) (b, h) =
    All-append IsQueryByte (query_byte c) (query_escape s) (query_byte-All c b)
      (query_escape-All s h)

pub path_escape-All : (s : Text) → IsBytes s → All IsSegmentByte (path_escape s)
unfolding path_escape
path_escape-All [] h = tt
path_escape-All (c ∷ s) (b, h) =
    All-append IsSegmentByte (segment_byte c) (path_escape s) (segment_byte-All c b)
      (path_escape-All s h)

-- Unreserved bytes stand for themselves.
pub query_escape_of_unreserved :
    (s : Text) → All (λ c. is_unreserved c ≡ true) s → query_escape s ≡ s
unfolding query_escape query_byte
query_escape_of_unreserved [] h = refl
query_escape_of_unreserved (c ∷ s) (u, h) = ground (arith, query_escape_of_unreserved s h)
