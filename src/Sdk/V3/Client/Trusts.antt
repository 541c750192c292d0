-- ===== src/Sdk/V3/Client/Trusts.antt =====
-- Federation trusts, credentials and authentication states: CreateFederationTrust to GetAttestation of
-- sdk/go/eidovela/v3/client.go.
use eidovela_open.Common.{Bool, [], ◌∷◌, ◌++◌, List, some, if◌then◌else◌}
use eidovela_open.Text.{Text, text}
use eidovela_open.Text.Url.{query_escape, path_escape}
use eidovela_open.Json.{Value, null, string, object, members}
use eidovela_open.Json.Fields.{list_field}
use eidovela_open.Sdk.Http.{Net, Operation, posting, getting, ignoring}
use eidovela_open.Sdk.Wire.{enveloped, optional}
use eidovela_open.Sdk.V3.Types.Trusts.{
  FederationTrust, decode_federation_trust, encode_federation_trust, FederationTrustStatus,
  decode_federation_trust_status,
}
use eidovela_open.Sdk.V3.Types.States.{
  Credential, decode_credential, AuthenticationRecord, decode_authentication_record,
  AttestationResult, decode_attestation_result,
}

unfoldable pub create_federation_trust : Net → FederationTrust → Operation FederationTrust
create_federation_trust net trust =
    posting (text "/v1/federation/trusts") (encode_federation_trust net trust)
      (decode_federation_trust net)

unfoldable pub federation_trusts : Net → Operation (List FederationTrust)
federation_trusts net =
    getting (text "/v1/federation/trusts")
      (enveloped (list_field (decode_federation_trust net)) (text "trusts"))

unfoldable pub set_federation_trust_status : Net → Text → Bool → Operation FederationTrust
set_federation_trust_status net issuer enable =
    posting (text "/v1/federation/trusts/" ++ (if enable then text "enable" else text "disable"))
      (some (object (members ((text "issuer", string issuer) ∷ [])))) (decode_federation_trust net)

unfoldable pub federation_trust_statuses : Operation (List FederationTrustStatus)
federation_trust_statuses =
    getting (text "/v1/federation/trusts/status")
      (enveloped (list_field decode_federation_trust_status) (text "trusts"))

unfoldable pub list_credentials : Text → Operation (List Credential)
list_credentials agent_id =
    getting (text "/v1/credentials?agentId=" ++ query_escape agent_id)
      (enveloped (list_field decode_credential) (text "credentials"))

unfoldable pub revoke_credential : Text → Text → Text → Operation (Unit {0})
revoke_credential agent_id kid reason =
    posting (text "/v1/credential-revocations")
      (some (
        object (
          members (
            (text "agentId", string agent_id)
            ∷ (text "kid", string kid)
            ∷ optional (text "reason") reason []))))
      ignoring

-- `if reason != "" { body = … }`, else nil
abbrev reason_body : Text → Value
reason_body [] = null
reason_body (c ∷ s) = object (members ((text "reason", string (c ∷ s)) ∷ []))

unfoldable pub set_authentication_state : Net → Text → Text → Text → Operation AuthenticationRecord
set_authentication_state net agent_id op reason =
    posting (text "/v1/authentication-state/" ++ (path_escape agent_id ++ (text "/" ++ op)))
      (some (reason_body reason)) (decode_authentication_record net)

unfoldable pub get_attestation : Net → Text → Operation AttestationResult
get_attestation net ref =
    getting (text "/v1/attestations/" ++ path_escape ref) (decode_attestation_result net)
