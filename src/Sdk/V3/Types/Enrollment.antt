-- ===== src/Sdk/V3/Types/Enrollment.antt =====
-- Enrollment and tokens: structs of sdk/go/eidovela/v3/client.go,
-- their reading from a document, and where a document is made of them, its writing.
use eidovela_open.Common.{ℤ, [], ◌∷◌, Option, some}
use eidovela_open.Text.{Text, text}
use eidovela_open.Base64.{◌>>=◌}
use eidovela_open.Json.{Value, string, object, members}
use eidovela_open.Json.Struct.{string_field, struct_members}
use eidovela_open.Sdk.Http.{Net}
use eidovela_open.Sdk.Wire.{time_field, optional}

pub record Challenge : Type 0 where
  pub enrollment_id : Text
  pub agent_id : Text
  pub nonce : Text
  pub expires_at : ℤ

unfoldable pub decode_challenge : Net → Value → Option Challenge
decode_challenge net v = do
  ms ← struct_members v
  enrollment_id ← string_field ms (text "enrollmentId")
  agent_id ← string_field ms (text "agentId")
  nonce ← string_field ms (text "nonce")
  expires_at ← time_field net ms (text "expiresAt")
  some (record {
    enrollment_id = enrollment_id;
    agent_id = agent_id;
    nonce = nonce;
    expires_at = expires_at;
  })

pub record Instance : Type 0 where
  pub instance_id : Text
  pub agent_id : Text
  pub workload_id : Text
  pub artifact_digest : Text
  pub attestation_ref : Text
  pub lease_expires_at : ℤ
  pub status : Text

unfoldable pub decode_instance : Net → Value → Option Instance
decode_instance net v = do
  ms ← struct_members v
  instance_id ← string_field ms (text "instanceId")
  agent_id ← string_field ms (text "agentId")
  workload_id ← string_field ms (text "workloadId")
  artifact_digest ← string_field ms (text "artifactDigest")
  attestation_ref ← string_field ms (text "attestationRef")
  lease_expires_at ← time_field net ms (text "leaseExpiresAt")
  status ← string_field ms (text "status")
  some (record {
    instance_id = instance_id;
    agent_id = agent_id;
    workload_id = workload_id;
    artifact_digest = artifact_digest;
    attestation_ref = attestation_ref;
    lease_expires_at = lease_expires_at;
    status = status;
  })

pub record WorkloadAttestation : Type 0 where
  pub method : Text
  pub certificate_pem : Text
  pub token : Text

unfoldable pub encode_workload_attestation : WorkloadAttestation → Option Value
encode_workload_attestation w = some (
    object (
      members (
        (text "method", string w.method)
        ∷ optional (text "certificatePem") w.certificate_pem
            (optional (text "token") w.token ([])))))

pub record TokenResponse : Type 0 where
  pub token : Text
  pub expires_at : ℤ

unfoldable pub decode_token_response : Net → Value → Option TokenResponse
decode_token_response net v = do
  ms ← struct_members v
  token ← string_field ms (text "token")
  expires_at ← time_field net ms (text "expiresAt")
  some (record { token = token; expires_at = expires_at })
