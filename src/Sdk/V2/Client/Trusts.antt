-- ===== src/Sdk/V2/Client/Trusts.antt =====
-- Federation trusts and signing keys: CreateFederationTrust to DisableFederationTrust,
-- FederationTrustStatuses, KeyStatus and RotateSigningKey of sdk/go/eidovela/client.go.
use eidovela_open.Common.{[], ◌∷◌, ◌++◌, List, some}
use eidovela_open.Text.{Text, text}
use eidovela_open.Text.Url.{query_escape}
use eidovela_open.Json.{Value, null, string, object, members}
use eidovela_open.Json.Fields.{list_field}
use eidovela_open.Sdk.Http.{Net, Operation, posting, getting}
use eidovela_open.Sdk.Wire.{enveloped}
use eidovela_open.Sdk.V2.Types.Trusts.{
  FederationTrust, decode_federation_trust, encode_federation_trust, FederationTrustStatus,
  decode_federation_trust_status, KeyStatus, decode_key_status,
}

unfoldable pub create_federation_trust : Net → FederationTrust → Operation FederationTrust
create_federation_trust net trust =
    posting (text "/v1/federation/trusts") (encode_federation_trust net trust)
      (decode_federation_trust net)

unfoldable pub list_federation_trusts : Net → Operation (List FederationTrust)
list_federation_trusts net =
    getting (text "/v1/federation/trusts")
      (enveloped (list_field (decode_federation_trust net)) (text "trusts"))

unfoldable pub get_federation_trust : Net → Text → Operation FederationTrust
get_federation_trust net issuer =
    getting (text "/v1/federation/trusts?issuer=" ++ query_escape issuer)
      (decode_federation_trust net)

-- federationTrustStatusRequest
abbrev pub status_request : Text → Value
status_request issuer = object (members ((text "issuer", string issuer) ∷ []))

unfoldable pub enable_federation_trust : Net → Text → Operation FederationTrust
enable_federation_trust net issuer =
    posting (text "/v1/federation/trusts/enable") (some (status_request issuer))
      (decode_federation_trust net)

unfoldable pub disable_federation_trust : Net → Text → Operation FederationTrust
disable_federation_trust net issuer =
    posting (text "/v1/federation/trusts/disable") (some (status_request issuer))
      (decode_federation_trust net)

unfoldable pub federation_trust_statuses : Operation (List FederationTrustStatus)
federation_trust_statuses =
    getting (text "/v1/federation/trusts/status")
      (enveloped (list_field decode_federation_trust_status) (text "trusts"))

unfoldable pub key_status : Operation KeyStatus
key_status = getting (text "/v1/ops/keys") decode_key_status

unfoldable pub rotate_signing_key : Operation KeyStatus
rotate_signing_key = posting (text "/v1/ops/keys/rotate") (some null) decode_key_status
