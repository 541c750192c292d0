-- ===== src/Sdk/V2/Client/Enrollment.antt =====
-- Enrollment, instances and tokens: RegisterWorkload to CompleteEnrollmentWithAttestation,
-- LeaseInstance, TerminateInstance, and Token to Introspect and BrokerIssue of
-- sdk/go/eidovela/client.go. The members of a posted map stand in the order of the code.
use eidovela_open.Common.{ℤ, Bool, [], ◌∷◌, ◌++◌, List, Option, none, some, Result, ok, ◌>>=◌}
use eidovela_open.Text.{Text, text}
use eidovela_open.Base64
use eidovela_open.Json.{Value, null, string, object, Claims, members}
use eidovela_open.Json.Fields.{bool_field}
use eidovela_open.Platform.{Platform}
use eidovela_open.Sdk.Http.{Net, ClientError, Operation, posting}
use eidovela_open.Sdk.Presentation.Proof.{jwk_json}
use eidovela_open.Sdk.Token.Keys.{jwk_from_public}
use eidovela_open.Sdk.Wire.{map_json, enveloped}
use eidovela_open.Sdk.Proofs.{enrollment_proof, token_proof}
use eidovela_open.Sdk.V2.Types.Instances.{
  WorkloadRegistrationRequest, encode_workload_registration_request, WorkloadRegistration,
  decode_workload_registration, Challenge, decode_challenge, Instance, decode_instance,
  WorkloadAttestation, encode_workload_attestation, TokenResponse, decode_token_response,
}

unfoldable pub register_workload : WorkloadRegistrationRequest → Operation WorkloadRegistration
register_workload req =
    posting (text "/v1/workload-registrations") (encode_workload_registration_request req)
      decode_workload_registration

unfoldable pub create_challenge : Net → Text → Text → Operation Challenge
create_challenge net agent_id workload_registration_id =
    posting (text "/v1/enrollments")
      (some (
        object (
          members (
            (text "agent_id", string agent_id)
            ∷ (text "workload_registration_id", string workload_registration_id)
            ∷ []))))
      (decode_challenge net)

-- JWKFromPublic(privateKey.Public(), "")
abbrev pub public_jwk : Platform → Text → Value
public_jwk p private = jwk_json (jwk_from_public (p.ed25519_public private) [])

abbrev attestation_entry : Option WorkloadAttestation → Claims
attestation_entry none = []
attestation_entry (some a) = elim (encode_workload_attestation a) [
  | none ↦ []
  | some v ↦ (text "attestation", v) ∷ []
]

-- The body of the request
unfoldable pub completion :
    Net
    → ℤ
    → Challenge
    → Text
    → Text
    → Text
    → Text
    → Option (List (Text × Text))
    → Option WorkloadAttestation
    → Claims
unfolding encode_workload_attestation
completion net now challenge private runtime workload_id artifact_digest attributes attestation =
    (text "enrollment_id", string challenge.id)
    ∷ (
      text "proof_jwt",
      string (
          enrollment_proof net.platform now challenge.agent_id challenge.id challenge.nonce
            private),
    )
    ∷ (text "public_key", public_jwk net.platform private)
    ∷ (text "runtime", string runtime)
    ∷ (text "workload_id", string workload_id)
    ∷ (text "artifact_digest", string artifact_digest)
    ∷ (text "workload_attributes", map_json attributes)
    ∷ attestation_entry attestation

unfoldable pub complete_enrollment_with_attestation :
    Net
    → ℤ
    → Challenge
    → Text
    → Text
    → Text
    → Text
    → Option (List (Text × Text))
    → Option WorkloadAttestation
    → Operation Instance
complete_enrollment_with_attestation net now challenge private runtime workload_id artifact_digest
      attributes attestation =
    posting (text "/v1/enrollments/complete")
      (some (
        object (
          members (
            completion net now challenge private runtime workload_id artifact_digest attributes
              attestation))))
      (decode_instance net)

unfoldable pub complete_enrollment :
    Net
    → ℤ
    → Challenge
    → Text
    → Text
    → Text
    → Text
    → Option (List (Text × Text))
    → Operation Instance
complete_enrollment net now challenge private runtime workload_id artifact_digest attributes =
    complete_enrollment_with_attestation net now challenge private runtime workload_id
      artifact_digest attributes none

-- A time that cannot be written is an error of the encoder.
abbrev lease_request : Net → ℤ → Option Value
lease_request net expires_at = elim (net.time_json expires_at) [
  | none ↦ none
  | some t ↦ some (object (members ((text "lease_expires_at", string t) ∷ [])))
]

unfoldable pub lease_instance : Net → Text → ℤ → Operation Instance
lease_instance net instance_id expires_at =
    posting (text "/v1/instances/" ++ (instance_id ++ text "/lease")) (lease_request net expires_at)
      (decode_instance net)

unfoldable pub terminate_instance : Net → Text → Operation Instance
terminate_instance net instance_id =
    posting (text "/v1/instances/" ++ (instance_id ++ text "/terminate")) (some null)
      (decode_instance net)

-- Token, over sixteen random bytes
unfoldable pub token :
    Net → ℤ → Option Text → Text → Text → Text → Text → Result ClientError (Operation TokenResponse)
token net now random agent_id instance_id audience private = do
  proof ← token_proof net.platform now random agent_id instance_id private
  ok (
      posting (text "/oauth2/token")
        (some (
          object (
            members (
              (text "agent_id", string agent_id)
              ∷ (text "instance_id", string instance_id)
              ∷ (text "audience", string audience)
              ∷ (text "public_key", public_jwk net.platform private)
              ∷ (text "proof_jwt", string proof)
              ∷ []))))
        (decode_token_response net))

unfoldable pub exchange : Net → Text → Text → Text → Text → Operation TokenResponse
exchange net subject_token parent_audience requested_audience private =
    posting (text "/v1/token/exchange")
      (some (
        object (
          members (
            (text "subject_token", string subject_token)
            ∷ (text "parent_audience", string parent_audience)
            ∷ (text "requested_audience", string requested_audience)
            ∷ (text "public_key", public_jwk net.platform private)
            ∷ []))))
      (decode_token_response net)

unfoldable pub introspect : Net → Text → Text → Text → Operation Bool
introspect net token' audience private =
    posting (text "/v1/introspect")
      (some (
        object (
          members (
            (text "token", string token')
            ∷ (text "audience", string audience)
            ∷ (text "public_key", public_jwk net.platform private)
            ∷ []))))
      (enveloped bool_field (text "active"))

unfoldable pub broker_issue : Net → Text → Text → Text → Operation TokenResponse
broker_issue net token' audience public_key =
    posting (text "/v1/broker/issue")
      (some (
        object (
          members (
            (text "token", string token')
            ∷ (text "audience", string audience)
            ∷ (
              text "public_key",
              object (
                  members (
                    (text "kty", string (text "OKP"))
                    ∷ (text "crv", string (text "Ed25519"))
                    ∷ (text "x", string (Base64.encode public_key))
                    ∷ [])),
            )
            ∷ []))))
      (decode_token_response net)
