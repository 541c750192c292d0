-- ===== src/Sdk/Presentation/Proof.antt =====
-- The proof of possession of a presented token: SignDPoP of sdk/go/eidovela/v3/presentation.go, and the
-- same text in sdk/go/eidovela/presentation.go.
use eidovela_open.Common.{
  ℕ, ℤ, Bool, not, ◌&&◌, ◌||◌, [], ◌∷◌, ◌++◌, Result, ok, ◌>>=◌, ◌>>◌, guard, require, eq_ℤ, ◌==◌,
  length, zero_time, unix,
}
use eidovela_open.Text.{Text, text, text_eq, is_empty}
use eidovela_open.Base64
use eidovela_open.Json.{Value, object, string, int64, members}
use eidovela_open.Platform.{Platform}
use eidovela_open.Sdk.Wire.{optional}
use eidovela_open.Sdk.Token.Keys.{Jwk, jwk_from_public}
use eidovela_open.Sdk.Presentation.{Endpoint, Web, ContextError, invalid_token, set, token_hash_of}

-- ed25519.PrivateKeySize
abbrev pub private_key_size : ℕ
private_key_size = 64

unfoldable pub is_target : Endpoint → Bool
is_target e =
    set e.host
    && not e.has_user
    && is_empty e.opaque
    && (text_eq e.scheme (text "https") || text_eq e.scheme (text "http"))

-- The text of a JWK
unfoldable pub jwk_json : Jwk → Value
jwk_json k = object (
    members (
      (text "kty", string k.kty)
      ∷ (text "crv", string k.crv)
      ∷ (text "x", string k.x)
      ∷ optional (text "kid") k.kid
          (optional (text "alg") k.alg (optional (text "use") k.use' []))))

-- The proof's header and claims
unfoldable pub dpop_header : Platform → Text → Value
dpop_header p key = object (
    members (
      (text "typ", string (text "dpop+jwt"))
      ∷ (text "alg", string (text "EdDSA"))
      ∷ (text "jwk", jwk_json (jwk_from_public (p.ed25519_public key) []))
      ∷ []))

unfoldable pub dpop_claims : Platform → Text → Text → Text → ℤ → Text → Value
dpop_claims p method uri token issued_at random = object (
    members (
      (text "htm", string method)
      ∷ (text "htu", string uri)
      ∷ (text "ath", string (token_hash_of p token))
      ∷ (text "iat", int64 (unix issued_at))
      ∷ (text "jti", string (Base64.encode random))
      ∷ []))

-- SignDPoP, over sixteen random bytes
unfoldable pub sign_dpop : Web → Text → Text → Text → Text → ℤ → Text → Result ContextError Text
sign_dpop web key method target token issued_at random = do
  guard
      ((length key == private_key_size)
        && set method
        && set token
        && not (eq_ℤ issued_at zero_time))
      invalid_token
  e ← require (web.url_parse target) invalid_token
  guard (is_target e) invalid_token
  ok (
      let p = web.platform in
      let header = Base64.encode (p.json_marshal (dpop_header p key)) in
      let claims =
        Base64.encode (p.json_marshal (dpop_claims p method e.bare token issued_at random)) in
      let input = header ++ (b'.' ∷ claims) in
      input ++ (b'.' ∷ Base64.encode (p.ed25519_sign key input)))
