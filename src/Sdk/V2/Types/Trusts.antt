-- ===== src/Sdk/V2/Types/Trusts.antt =====
-- Federation trusts and signing keys: structs of sdk/go/eidovela/client.go,
-- their reading from a document, and where a document is made of them, its writing.
use eidovela_open.Common.{ℤ, Bool, List, [], ◌∷◌, Option, some}
use eidovela_open.Text.{Text, text}
use eidovela_open.Base64.{◌>>=◌}
use eidovela_open.Json.{Value, string, object, members}
use eidovela_open.Json.Struct.{string_field, struct_members}
use eidovela_open.Json.Fields.{bool_field, int_field}
use eidovela_open.Sdk.Http.{Net}
use eidovela_open.Sdk.Wire.{time_field, strings_field, map_field, strings_json, map_json, optional}

pub record FederationTrust : Type 0 where
  pub tenant_id : Text
  pub issuer : Text
  pub jwks_uri : Text
  pub allowed_audiences : Option (List Text)
  pub claim_mappings : Option (List (Text × Text))
  pub status : Text
  pub created_at : ℤ

unfoldable pub decode_federation_trust : Net → Value → Option FederationTrust
decode_federation_trust net v = do
  ms ← struct_members v
  tenant_id ← string_field ms (text "tenant_id")
  issuer ← string_field ms (text "issuer")
  jwks_uri ← string_field ms (text "jwks_uri")
  allowed_audiences ← strings_field ms (text "allowed_audiences")
  claim_mappings ← map_field ms (text "claim_mappings")
  status ← string_field ms (text "status")
  created_at ← time_field net ms (text "created_at")
  some (record {
    tenant_id = tenant_id;
    issuer = issuer;
    jwks_uri = jwks_uri;
    allowed_audiences = allowed_audiences;
    claim_mappings = claim_mappings;
    status = status;
    created_at = created_at;
  })

unfoldable pub encode_federation_trust : Net → FederationTrust → Option Value
encode_federation_trust net f = do
  created_at ← net.time_json f.created_at
  some (
      object (
        members (
          optional (text "tenant_id") f.tenant_id (
            (text "issuer", string f.issuer)
            ∷ optional (text "jwks_uri") f.jwks_uri (
                (text "allowed_audiences", strings_json f.allowed_audiences)
                ∷ (text "claim_mappings", map_json f.claim_mappings)
                ∷ (text "status", string f.status)
                ∷ (text "created_at", string created_at)
                ∷ [])))))

pub record FederationTrustStatus : Type 0 where
  pub issuer : Text
  pub status : Text
  pub success : ℤ
  pub deny : ℤ

unfoldable pub decode_federation_trust_status : Value → Option FederationTrustStatus
decode_federation_trust_status v = do
  ms ← struct_members v
  issuer ← string_field ms (text "issuer")
  status ← string_field ms (text "status")
  success ← int_field ms (text "success")
  deny ← int_field ms (text "deny")
  some (record { issuer = issuer; status = status; success = success; deny = deny })

pub record KeyStatus : Type 0 where
  pub active_kid : Text
  pub kids : Option (List Text)
  pub overlap : Bool

unfoldable pub decode_key_status : Value → Option KeyStatus
decode_key_status v = do
  ms ← struct_members v
  active_kid ← string_field ms (text "active_kid")
  kids ← strings_field ms (text "kids")
  overlap ← bool_field ms (text "overlap")
  some (record { active_kid = active_kid; kids = kids; overlap = overlap })
