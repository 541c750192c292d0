-- ===== src/Sdk/V2/Client/RoundTrip.antt =====
-- A federation trust is read back as it was written, and a service that answers with what it is sent
-- makes CreateFederationTrust return it (sdk/go/eidovela/client.go).
use eidovela_open.Common.{ℕ, ℤ, ◌≤◌, ◌<◌, ◌≡◌, refl, [], ◌∷◌, ◌++◌, List, Option, none, some, ok}
use eidovela_open.Text.{Text, text}
use eidovela_open.Json.{Value, Claims, string, object, members}
use eidovela_open.Json.Struct.{string_field, struct_members, names_field}
use eidovela_open.Json.Fields.{field_from}
use eidovela_open.Sdk.Http.{Net, Client, Transport, post_request, perform}
use eidovela_open.Sdk.Http.Laws.{perform_iff}
use eidovela_open.Sdk.Wire.{time_field, strings_field, map_field, strings_json, map_json, optional}
use eidovela_open.Sdk.Wire.RoundTrip.{assign-strings_json, assign-map_json, IsMapping}
use eidovela_open.Sdk.V2.Types.Trusts.{
  FederationTrust, encode_federation_trust, decode_federation_trust,
}
use eidovela_open.Sdk.V2.Client.Trusts.{create_federation_trust}

module _ (net : Net) (audiences : Option (List Text)) (mappings : Option (List (Text × Text)))
    (issuer status written : Text) (created_at : ℤ) (mapping : IsMapping mappings)
    (time : net.time_of_json written ≡ some created_at) where
  rest_of : Text → Claims
  rest_of jwks_uri = optional (text "jwks_uri") jwks_uri (
      (text "allowed_audiences", strings_json audiences)
      ∷ (text "claim_mappings", map_json mappings)
      ∷ (text "status", string status)
      ∷ (text "created_at", string written)
      ∷ [])

  read_back :
      (tenant_id jwks_uri : Text)
      → decode_federation_trust net (
          object (
            members (
              optional
                (text "tenant_id")
                tenant_id
                ((text "issuer", string issuer) ∷ rest_of jwks_uri))))
        ≡ some (record {
          tenant_id = tenant_id;
          issuer = issuer;
          jwks_uri = jwks_uri;
          allowed_audiences = audiences;
          claim_mappings = mappings;
          status = status;
          created_at = created_at;
        })
  unfolding rest_of decode_federation_trust string_field strings_field map_field time_field
      field_from names_field struct_members
  read_back [] [] = rw (assign-strings_json audiences, assign-map_json mappings mapping, time) refl
  read_back [] (d ∷ j) =
      rw (assign-strings_json audiences, assign-map_json mappings mapping, time) refl
  read_back (c ∷ s) [] =
      rw (assign-strings_json audiences, assign-map_json mappings mapping, time) refl
  read_back (c ∷ s) (d ∷ j) =
      rw (assign-strings_json audiences, assign-map_json mappings mapping, time) refl

document_of : FederationTrust → Text → Value
unfolding rest_of
document_of t written = object (
    members (
      optional (text "tenant_id") t.tenant_id (
        (text "issuer", string t.issuer)
        ∷ optional (text "jwks_uri") t.jwks_uri (
            (text "allowed_audiences", strings_json t.allowed_audiences)
            ∷ (text "claim_mappings", map_json t.claim_mappings)
            ∷ (text "status", string t.status)
            ∷ (text "created_at", string written)
            ∷ []))))

-- A service that answers with this status and with the body of the request.
abbrev pub echo : ℕ → Text → Transport
echo code line req = ok (record { status_code = code; status = line; body = body_of req.body })
  where
    body_of : Option Text → Text
    body_of none = []
    body_of (some b) = b

-- A trust that is posted to a service that answers with what it is sent, and with a status from 200 to
-- 299, is returned as it was: no field is lost on either way. Its mappings name no claim twice, and the
-- codecs of the document and of its time read back what they wrote.
pub create_federation_trust-echo :
    (net : Net) (c : Client) (t : FederationTrust) (written line : Text) (code : ℕ)
    → 200 ≤ code
    → code < 300
    → net.request_error (c.base_url ++ text "/v1/federation/trusts") ≡ none
    → net.time_json t.created_at ≡ some written
    → net.time_of_json written ≡ some t.created_at
    → ((v : Value)
        → encode_federation_trust net t ≡ some v
        → net.platform.json_decode (net.platform.json_marshal v) ≡ some v)
    → IsMapping t.claim_mappings
    → perform net c (echo code line) (create_federation_trust net t) ≡ ok t
unfolding create_federation_trust encode_federation_trust
create_federation_trust-echo net c t written line code low high address out back codec mapping =
    (perform_iff net c (echo code line) (create_federation_trust net t) t).1 (
      post_request net c (text "/v1/federation/trusts") (document_of t written),
      (document_of t written, (unfold document_of in rw out refl), refl),
      (
        address,
        (
          record {
            status_code = code;
            status = line;
            body = net.platform.json_marshal (document_of t written);
          },
          refl,
          (
            low,
            high,
            (
              document_of t written,
              codec (document_of t written) (unfold document_of in rw out refl),
              unfold document_of rest_of in
                  read_back net t.allowed_audiences t.claim_mappings t.issuer t.status written
                    t.created_at mapping back t.tenant_id t.jwks_uri,
            ),
          ),
        ),
      ),
    )
