-- ===== src/Sdk/Token/Steps.antt =====
-- What each step of Verify requires, one lemma for a step.
use eidovela_open.Common.{
  ℤ, ◌≡◌, ◌≢◌, ◌↔◌, true, List, [], ◌∷◌, ◌++◌, Option, some, ok, ◌<ℤ◌, arith,
}
use eidovela_open.Text.{Text, text}
use eidovela_open.Text.Laws.{text_eq_iff}
use eidovela_open.Text.Split.{split}
use eidovela_open.Base64
use eidovela_open.Json
use eidovela_open.Json.{Value, string, array, elements, get, as_map, as_string, as_string?}
use eidovela_open.Platform.{Platform, Response}
use eidovela_open.Sdk.Token.Keys.{Jwk, decode_jwks, select_key, thumbprint}
use eidovela_open.Sdk.Token.Claims.{number}
use eidovela_open.Sdk.Token.{
  Segments, three, decode_header, decode_claims, issuer_of, Parsed, parse_token, jwks_url,
  signing_key, signature_ok, expiry, bound_key,
}
use eidovela_open.Sdk.Token.Form.{HasForm}
use eidovela_open.Sdk.Token.Keys.Search.{IsChosen}

-- What Verify requires of a token before it asks for the key set.
pub record IsWellFormed (p : Platform) (token : Text) (t : Parsed) : Type 0 where
  pub form : HasForm token t.segments
  pub header : decode_header p t.segments.header ≡ some (record { alg = text "EdDSA"; kid = t.kid })
  pub claims : decode_claims p t.segments.payload ≡ some t.claims
  pub issuer : get t.claims (text "iss") ≡ string t.issuer
  pub issuer_set : t.issuer ≢ []

pub issuer_of_iff :
    (claims : Json.Claims) (issuer : Text)
    → (issuer_of claims ≡ some issuer) ↔ ((get claims (text "iss") ≡ string issuer) × (issuer ≢ []))
unfolding issuer_of
issuer_of_iff claims issuer = ground arith

pub parse_token_iff :
    (p : Platform) (token : Text) (t : Parsed)
    → (parse_token p token ≡ ok t) ↔ (
        (three (split token 46) ≡ some t.segments)
        × (decode_header p t.segments.header ≡ some (record { alg = text "EdDSA"; kid = t.kid }))
        × (decode_claims p t.segments.payload ≡ some t.claims)
        × (issuer_of t.claims ≡ some t.issuer))
unfolding parse_token
parse_token_iff p token t = grind (arith, text_eq_iff)

-- The key set at the issuer's address was answered with status 200 and holds the key.
abbrev pub IsServed : Platform → (Text → Option Response) → Text → Text → Text → Type 0
IsServed p fetch issuer kid public =
    (response : Response) × (fetch (jwks_url issuer) ≡ some response)
    × (response.status ≡ 200)
    × ((keys : List Jwk) × (Base64.◌>>=◌ (p.json_decode response.body) decode_jwks ≡ some keys)
        × IsChosen keys kid public)

pub signing_key_sound :
    (p : Platform) (fetch : Text → Option Response) (issuer kid public : Text)
    → signing_key p fetch issuer kid ≡ ok public
    → (response : Response) × (fetch (jwks_url issuer) ≡ some response)
      × (response.status ≡ 200)
      × ((keys : List Jwk) × (Base64.◌>>=◌ (p.json_decode response.body) decode_jwks ≡ some keys)
          × (select_key keys kid ≡ some public))
unfolding signing_key
signing_key_sound p fetch issuer kid public h = ground arith

pub signing_key_complete :
    (p : Platform) (fetch : Text → Option Response) (issuer kid public : Text) (response : Response)
    (keys : List Jwk)
    → fetch (jwks_url issuer) ≡ some response
    → response.status ≡ 200
    → Base64.◌>>=◌ (p.json_decode response.body) decode_jwks ≡ some keys
    → select_key keys kid ≡ some public
    → signing_key p fetch issuer kid ≡ ok public
unfolding signing_key
signing_key_complete p fetch issuer kid public response keys a b c d = ground arith

-- The signature segment is one of the key over the header and the payload as they stand.
abbrev pub IsSigned : Platform → Segments → Text → Type 0
IsSigned p s public =
    (raw : Text) × (Base64.decode s.signature ≡ some raw)
    × (p.ed25519_verify public (s.header ++ (46 ∷ s.payload)) raw ≡ true)

pub signature_ok_iff :
    (p : Platform) (s : Segments) (public : Text)
    → (signature_ok p s public ≡ true) ↔ IsSigned p s public
unfolding signature_ok
signature_ok_iff p s public = ground arith

pub expiry_iff :
    (p : Platform) (now : ℤ) (claims : Json.Claims) (exp : ℤ)
    → (expiry p now claims ≡ some exp)
      ↔ ((number p (get claims (text "exp")) ≡ (exp, true)) × (now <ℤ exp))
unfolding expiry
expiry_iff p now claims exp = ground arith

pub bound_key_iff :
    (p : Platform) (proof_key : Text) (claims : Json.Claims) (jkt : Text)
    → (bound_key p proof_key claims ≡ some jkt) ↔ (
        (as_string (get (as_map (get claims (text "cnf"))) (text "jkt")) ≡ jkt)
        × (jkt ≢ [])
        × (jkt ≡ thumbprint p proof_key))
unfolding bound_key
bound_key_iff p proof_key claims jkt = ground (
  arith,
  text_eq_iff (as_string (get (as_map (get claims (text "cnf"))) (text "jkt")))
      (thumbprint p proof_key),
)
