-- ===== src/Sdk/Token.antt =====
-- Verification of an identity token, sdk/go/eidovela/v3/verify.go, up to the point where the two
-- versions of the SDK part: signature, audience, expiry and the binding to the proof key.
pub mod Keys
pub mod Claims
pub mod Form
pub mod Steps
pub mod Authentic
use eidovela_open.Common.{
  ℕ, ℤ, Bool, true, false, not, List, [], ◌∷◌, ◌++◌, Option, none, some, Result, ok, err, ◌>>=◌,
  ◌>>◌, guard, require, leb_ℤ, ◌==◌, ◌&&◌, ◌||◌, if◌then◌else◌,
}
use eidovela_open.Text.{Text, text, text_eq, is_empty}
use eidovela_open.Text.Split.{split, split_first}
use eidovela_open.Base64
use eidovela_open.Json.{Value, to_map, get, as_string?, as_string, as_map}
use eidovela_open.Json
use eidovela_open.Json.Struct.{string_field, struct_members}
use eidovela_open.Platform.{Platform, Response}
use Keys.{Jwk, decode_jwks, select_key, thumbprint}
use Claims.{
  Error, inactive, pop_mismatch, audience_mismatch, unknown_key, invalid_token, transport,
  malformed_jwks, audience_contains, number,
}

pub record Segments : Type 0 where
  pub header : Text
  pub payload : Text
  pub signature : Text

-- `len(parts) != 3`
unfoldable pub three : List Text → Option Segments
three (a ∷ b ∷ c ∷ []) = some (record { header = a; payload = b; signature = c })
three _ = none

-- The closure `decode`, before the document is stored: a segment's document.
unfoldable pub document : Platform → Text → Option Value
document p segment = Base64.◌>>=◌ (Base64.decode segment) p.json_unmarshal

pub record Header : Type 0 where
  pub alg : Text
  pub kid : Text

unfoldable pub decode_header : Platform → Text → Option Header
decode_header p segment = Base64.◌>>=◌ (document p segment) λ v.
    Base64.◌>>=◌ (struct_members v) λ ms. Base64.◌>>=◌ (string_field ms (text "alg")) λ alg.
      Base64.◌>>=◌ (string_field ms (text "kid")) λ kid. some (record { alg = alg; kid = kid })

unfoldable pub decode_claims : Platform → Text → Option Json.Claims
decode_claims p segment = Base64.◌>>=◌ (document p segment) to_map

-- `issuer, ok := claims["iss"].(string)`, not empty
unfoldable pub issuer_of : Json.Claims → Option Text
issuer_of claims = elim (as_string? (get claims (text "iss"))) [
  | none ↦ none
  | some s ↦ if is_empty s then none else some s
]

pub record Parsed : Type 0 where
  pub segments : Segments
  pub kid : Text
  pub claims : Json.Claims
  pub issuer : Text

-- Verify up to the request for the key set.
unfoldable pub parse_token : Platform → Text → Result Error Parsed
parse_token p token = do
  s ← require (three (split token b'.')) invalid_token
  header ← require (decode_header p s.header) invalid_token
  claims ← require (decode_claims p s.payload) invalid_token
  guard (text_eq header.alg (text "EdDSA")) invalid_token
  issuer ← require (issuer_of claims) invalid_token
  ok (record { segments = s; kid = header.kid; claims = claims; issuer = issuer })

unfoldable pub jwks_url : Text → Text
jwks_url issuer = split_first issuer (text "/t/") ++ text "/jwks.json"

-- The request for the key set, and the search in it.
unfoldable pub signing_key : Platform → (Text → Option Response) → Text → Text → Result Error Text
signing_key p fetch issuer kid = do
  response ← require (fetch (jwks_url issuer)) transport
  guard (response.status == 200) unknown_key
  keys ← require (Base64.◌>>=◌ (p.json_decode response.body) decode_jwks) malformed_jwks
  require (select_key keys kid) unknown_key

-- `err != nil || !ed25519.Verify(…)`, negated
unfoldable pub signature_ok : Platform → Segments → Text → Bool
signature_ok p s public = elim (Base64.decode s.signature) [
  | none ↦ false
  | some raw ↦ p.ed25519_verify public (s.header ++ (b'.' ∷ s.payload)) raw
]

pub record Authenticated : Type 0 where
  pub claims : Json.Claims
  pub issuer : Text
  pub expires_at : ℤ
  pub jkt : Text
  pub agent_id : Text

-- `exp, ok := number(claims["exp"])`, and not expired; `now` is Unix time in seconds.
unfoldable pub expiry : Platform → ℤ → Json.Claims → Option ℤ
expiry p now claims =
    let (exp, known) = number p (get claims (text "exp")) in
    if not known || leb_ℤ exp now then none else some exp

-- The claim cnf.jkt, if it is set and names the proof key.
unfoldable pub bound_key : Platform → Text → Json.Claims → Option Text
bound_key p proof_key claims =
    let jkt = as_string (get (as_map (get claims (text "cnf"))) (text "jkt")) in
    if is_empty jkt || not (text_eq jkt (thumbprint p proof_key)) then none else some jkt

-- Verify from its start to the agent id.
unfoldable pub authenticate :
    Platform → (Text → Option Response) → ℤ → Text → Text → Text → Result Error Authenticated
authenticate p fetch now token audience proof_key = do
  t ← parse_token p token
  public ← signing_key p fetch t.issuer t.kid
  guard (signature_ok p t.segments public) invalid_token
  guard (audience_contains (get t.claims (text "aud")) audience) audience_mismatch
  exp ← require (expiry p now t.claims) inactive
  jkt ← require (bound_key p proof_key t.claims) pop_mismatch
  agent_id ← require (as_string? (get t.claims (text "sub"))) invalid_token
  ok (record {
    claims = t.claims;
    issuer = t.issuer;
    expires_at = exp;
    jkt = jkt;
    agent_id = agent_id;
  })
