-- ===== src/Sdk/V3/Client/Enrollment.antt =====
-- Enrollment and tokens: CreateChallenge to BrokerIssue of sdk/go/eidovela/v3/client.go. The members of
-- a posted map stand in the order of the code.
use eidovela_open.Common.{ℤ, Bool, [], ◌∷◌, List, Option, none, some, Result, ok, ◌>>=◌}
use eidovela_open.Text.{Text, text}
use eidovela_open.Json.{Value, string, object, Claims, members}
use eidovela_open.Json.Fields.{bool_field}
use eidovela_open.Platform.{Platform}
use eidovela_open.Sdk.Http.{Net, ClientError, Operation, posting}
use eidovela_open.Sdk.Presentation.Proof.{jwk_json}
use eidovela_open.Sdk.Token.Keys.{jwk_from_public}
use eidovela_open.Sdk.Wire.{map_json, enveloped}
use eidovela_open.Sdk.Proofs.{enrollment_proof, token_proof}
use eidovela_open.Sdk.V3.Types.Enrollment.{
  Challenge, decode_challenge, Instance, decode_instance, WorkloadAttestation,
  encode_workload_attestation, TokenResponse, decode_token_response,
}

unfoldable pub create_challenge : Net → Text → Text → Operation Challenge
create_challenge net agent_id workload_registration_id =
    posting (text "/v1/enrollments")
      (some (
        object (
          members (
            (text "agentId", string agent_id)
            ∷ (text "workloadRegistrationId", string workload_registration_id)
            ∷ []))))
      (decode_challenge net)

-- JWKFromPublic(privateKey.Public(), "")
abbrev pub public_jwk : Platform → Text → Value
public_jwk p private = jwk_json (jwk_from_public (p.ed25519_public private) [])

abbrev attestation_entry : Option WorkloadAttestation → Claims
attestation_entry none = []
attestation_entry (some a) = elim (encode_workload_attestation a) [
  | none ↦ []
  | some v ↦ (text "attestation", v) ∷ []
]

-- The body of the request
unfoldable pub completion :
    Net
    → ℤ
    → Challenge
    → Text
    → Text
    → Text
    → Text
    → Option (List (Text × Text))
    → Option WorkloadAttestation
    → Claims
unfolding encode_workload_attestation
completion net now challenge private runtime workload_id artifact_digest attributes attestation =
    (text "enrollmentId", string challenge.enrollment_id)
    ∷ (
      text "proofJwt",
      string (
          enrollment_proof net.platform now challenge.agent_id challenge.enrollment_id
            challenge.nonce private),
    )
    ∷ (text "publicKey", public_jwk net.platform private)
    ∷ (text "runtime", string runtime)
    ∷ (text "workloadId", string workload_id)
    ∷ (text "artifactDigest", string artifact_digest)
    ∷ (text "workloadAttributes", map_json attributes)
    ∷ attestation_entry attestation

unfoldable pub complete_enrollment_with_attestation :
    Net
    → ℤ
    → Challenge
    → Text
    → Text
    → Text
    → Text
    → Option (List (Text × Text))
    → Option WorkloadAttestation
    → Operation Instance
complete_enrollment_with_attestation net now challenge private runtime workload_id artifact_digest
      attributes attestation =
    posting (text "/v1/enrollments/complete")
      (some (
        object (
          members (
            completion net now challenge private runtime workload_id artifact_digest attributes
              attestation))))
      (decode_instance net)

unfoldable pub complete_enrollment :
    Net
    → ℤ
    → Challenge
    → Text
    → Text
    → Text
    → Text
    → Option (List (Text × Text))
    → Operation Instance
complete_enrollment net now challenge private runtime workload_id artifact_digest attributes =
    complete_enrollment_with_attestation net now challenge private runtime workload_id
      artifact_digest attributes none

-- Token, over sixteen random bytes
unfoldable pub token :
    Net → ℤ → Option Text → Text → Text → Text → Text → Result ClientError (Operation TokenResponse)
token net now random agent_id instance_id audience private = do
  proof ← token_proof net.platform now random agent_id instance_id private
  ok (
      posting (text "/oauth2/token")
        (some (
          object (
            members (
              (text "agentId", string agent_id)
              ∷ (text "instanceId", string instance_id)
              ∷ (text "audience", string audience)
              ∷ (text "publicKey", public_jwk net.platform private)
              ∷ (text "proofJwt", string proof)
              ∷ []))))
        (decode_token_response net))

unfoldable pub exchange : Net → Text → Text → Text → Text → Operation TokenResponse
exchange net subject_token parent_audience requested_audience private =
    posting (text "/v1/token/exchange")
      (some (
        object (
          members (
            (text "subjectToken", string subject_token)
            ∷ (text "parentAudience", string parent_audience)
            ∷ (text "requestedAudience", string requested_audience)
            ∷ (text "publicKey", public_jwk net.platform private)
            ∷ []))))
      (decode_token_response net)

-- The body of Introspect and of BrokerIssue
abbrev key_request : Platform → Text → Text → Text → Value
key_request p token' audience private = object (
    members (
      (text "token", string token')
      ∷ (text "audience", string audience)
      ∷ (text "publicKey", public_jwk p private)
      ∷ []))

unfoldable pub introspect : Net → Text → Text → Text → Operation Bool
introspect net token' audience private =
    posting (text "/v1/introspect") (some (key_request net.platform token' audience private))
      (enveloped bool_field (text "active"))

unfoldable pub broker_issue : Net → Text → Text → Text → Operation TokenResponse
broker_issue net assertion audience private =
    posting (text "/v1/broker/issue") (some (key_request net.platform assertion audience private))
      (decode_token_response net)
