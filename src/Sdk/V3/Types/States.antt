-- ===== src/Sdk/V3/Types/States.antt =====
-- Credentials, authentication states and attestations: structs of sdk/go/eidovela/v3/client.go,
-- their reading from a document, and where a document is made of them, its writing.
use eidovela_open.Common.{ℤ, Option, some}
use eidovela_open.Text.{Text, text}
use eidovela_open.Base64.{◌>>=◌}
use eidovela_open.Json.{Value}
use eidovela_open.Json.Struct.{string_field, struct_members}
use eidovela_open.Json.Fields.{int_field}
use eidovela_open.Sdk.Http.{Net}
use eidovela_open.Sdk.Wire.{time_field}

pub record Credential : Type 0 where
  pub kid : Text
  pub agent_id : Text
  pub key_thumbprint : Text
  pub status : Text
  pub credential_generation : ℤ

unfoldable pub decode_credential : Value → Option Credential
decode_credential v = do
  ms ← struct_members v
  kid ← string_field ms (text "kid")
  agent_id ← string_field ms (text "agentId")
  key_thumbprint ← string_field ms (text "keyThumbprint")
  status ← string_field ms (text "status")
  credential_generation ← int_field ms (text "credentialGeneration")
  some (record {
    kid = kid;
    agent_id = agent_id;
    key_thumbprint = key_thumbprint;
    status = status;
    credential_generation = credential_generation;
  })

pub record AuthenticationRecord : Type 0 where
  pub agent_id : Text
  pub authentication_state : Text
  pub credential_generation : ℤ
  pub reason : Text
  pub updated_at : ℤ

unfoldable pub decode_authentication_record : Net → Value → Option AuthenticationRecord
decode_authentication_record net v = do
  ms ← struct_members v
  agent_id ← string_field ms (text "agentId")
  authentication_state ← string_field ms (text "authenticationState")
  credential_generation ← int_field ms (text "credentialGeneration")
  reason ← string_field ms (text "reason")
  updated_at ← time_field net ms (text "updatedAt")
  some (record {
    agent_id = agent_id;
    authentication_state = authentication_state;
    credential_generation = credential_generation;
    reason = reason;
    updated_at = updated_at;
  })

pub record AttestationResult : Type 0 where
  pub attestation_ref : Text
  pub agent_id : Text
  pub enrollment_id : Text
  pub method : Text
  pub verifier_identity : Text
  pub evidence_digest : Text
  pub attributes_digest : Text
  pub created_at : ℤ

unfoldable pub decode_attestation_result : Net → Value → Option AttestationResult
decode_attestation_result net v = do
  ms ← struct_members v
  attestation_ref ← string_field ms (text "attestationRef")
  agent_id ← string_field ms (text "agentId")
  enrollment_id ← string_field ms (text "enrollmentId")
  method ← string_field ms (text "method")
  verifier_identity ← string_field ms (text "verifierIdentity")
  evidence_digest ← string_field ms (text "evidenceDigest")
  attributes_digest ← string_field ms (text "attributesDigest")
  created_at ← time_field net ms (text "createdAt")
  some (record {
    attestation_ref = attestation_ref;
    agent_id = agent_id;
    enrollment_id = enrollment_id;
    method = method;
    verifier_identity = verifier_identity;
    evidence_digest = evidence_digest;
    attributes_digest = attributes_digest;
    created_at = created_at;
  })
