-- ===== src/Sdk/Token/Keys.antt =====
-- Keys: the JWK record, the key set document, the search for the signing key, and the RFC 7638
-- thumbprint (JWK, jwks, the loop of Verify, and Thumbprint in sdk/go/eidovela/v3).
pub mod Search
use eidovela_open.Common.{
  ℕ, ◌≡◌, Bool, not, ◌&&◌, ◌||◌, List, [], ◌∷◌, ◌++◌, Option, none, some, length, ◌==◌,
  if◌then◌else◌,
}
use eidovela_open.Text.{Text, text, text_eq}
use eidovela_open.Base64
use eidovela_open.Base64.{◌>>=◌}
use eidovela_open.Json.{Value, null, array, Claims, elements}
use eidovela_open.Json.Struct.{names_field, string_field, struct_members}
use eidovela_open.Platform.{Platform}

pub record Jwk : Type 0 where
  pub kty : Text
  pub crv : Text
  pub x : Text
  pub kid : Text
  pub alg : Text
  pub use' : Text

-- JWKFromPublic
unfoldable pub jwk_from_public : Text → Text → Jwk
jwk_from_public pub' kid = record {
  kty = text "OKP";
  crv = text "Ed25519";
  x = Base64.encode pub';
  kid = kid;
  alg = text "EdDSA";
  use' = text "sig";
}

-- A JWK read from a document.
unfoldable pub to_jwk : Value → Option Jwk
to_jwk v = do
  ms ← struct_members v
  kty ← string_field ms (text "kty")
  crv ← string_field ms (text "crv")
  x ← string_field ms (text "x")
  kid ← string_field ms (text "kid")
  alg ← string_field ms (text "alg")
  use' ← string_field ms (text "use")
  some (record { kty = kty; crv = crv; x = x; kid = kid; alg = alg; use' = use' })

unfoldable pub to_jwks : List Value → Option (List Jwk)
to_jwks [] = some []
to_jwks (v ∷ vs) = let rest = to_jwks vs in do k ← to_jwk v; ks ← rest; some (k ∷ ks)

assign_keys : List Jwk → Value → Option (List Jwk)
assign_keys old null = some []
assign_keys old (array vs) = to_jwks (elements vs)
assign_keys old _ = none

keys_from : List Jwk → Claims → Option (List Jwk)
keys_from old [] = some old
keys_from old ((name, v) ∷ ms) = do
  new ← (if names_field name (text "keys") then assign_keys old v else some old)
  keys_from new ms

-- The key set of a document.
unfoldable pub decode_jwks : Value → Option (List Jwk)
unfolding keys_from assign_keys
decode_jwks v = do ms ← struct_members v; keys_from [] ms

-- ed25519.PublicKeySize
abbrev pub public_key_size : ℕ
public_key_size = 32

-- The key that one entry offers for the token's key id.
unfoldable pub usable_key : Text → Jwk → Option Text
usable_key kid key =
    if not (text_eq key.kid kid)
      || not (text_eq key.kty (text "OKP"))
      || not (text_eq key.crv (text "Ed25519"))
    then none
    else do raw ← Base64.decode key.x; if length raw == public_key_size then some raw else none

-- The loop over the key set: the first entry that offers a key ends it.
unfoldable pub select_key : List Jwk → Text → Option Text
select_key [] kid = none
select_key (key ∷ keys) kid =
    let later = select_key keys kid in elim (usable_key kid key) [ none ↦ later | some k ↦ some k ]

-- Thumbprint
unfoldable pub thumbprint : Platform → Text → Text
thumbprint p pub' = Base64.encode (
    p.sha256
      (text "{\"crv\":\"Ed25519\",\"kty\":\"OKP\",\"x\":\"" ++ (Base64.encode pub' ++ text "\"}")))
