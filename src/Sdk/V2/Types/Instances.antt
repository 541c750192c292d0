-- ===== src/Sdk/V2/Types/Instances.antt =====
-- Enrollment, instances and tokens: structs of sdk/go/eidovela/client.go,
-- their reading from a document, and where a document is made of them, its writing.
use eidovela_open.Common.{ℤ, Bool, List, [], ◌∷◌, Option, some}
use eidovela_open.Text.{Text, text}
use eidovela_open.Base64.{◌>>=◌}
use eidovela_open.Json.{Value, string, object, members}
use eidovela_open.Json.Struct.{string_field, struct_members}
use eidovela_open.Json.Fields.{bool_field}
use eidovela_open.Sdk.Http.{Net}
use eidovela_open.Sdk.Wire.{time_field, strings_json, map_json, optional}

pub record WorkloadRegistrationRequest : Type 0 where
  pub platform : Text
  pub selector : Option (List (Text × Text))
  pub trust_domain : Text
  pub allowed_proof_methods : Option (List Text)

unfoldable pub encode_workload_registration_request : WorkloadRegistrationRequest → Option Value
encode_workload_registration_request w = some (
    object (
      members (
        (text "platform", string w.platform)
        ∷ (text "selector", map_json w.selector)
        ∷ (text "trust_domain", string w.trust_domain)
        ∷ (text "allowed_proof_methods", strings_json w.allowed_proof_methods)
        ∷ [])))

pub record WorkloadRegistration : Type 0 where
  pub registration_id : Text

unfoldable pub decode_workload_registration : Value → Option WorkloadRegistration
decode_workload_registration v = do
  ms ← struct_members v
  registration_id ← string_field ms (text "registration_id")
  some (record { registration_id = registration_id })

pub record Challenge : Type 0 where
  pub id : Text
  pub agent_id : Text
  pub nonce : Text
  pub expires_at : ℤ

unfoldable pub decode_challenge : Net → Value → Option Challenge
decode_challenge net v = do
  ms ← struct_members v
  id ← string_field ms (text "enrollment_id")
  agent_id ← string_field ms (text "agent_id")
  nonce ← string_field ms (text "nonce")
  expires_at ← time_field net ms (text "expires_at")
  some (record { id = id; agent_id = agent_id; nonce = nonce; expires_at = expires_at })

pub record Instance : Type 0 where
  pub instance_id : Text
  pub agent_id : Text
  pub workload_id : Text
  pub status : Text
  pub lease_expires_at : ℤ
  pub lease_expired : Bool

unfoldable pub decode_instance : Net → Value → Option Instance
decode_instance net v = do
  ms ← struct_members v
  instance_id ← string_field ms (text "instance_id")
  agent_id ← string_field ms (text "agent_id")
  workload_id ← string_field ms (text "workload_id")
  status ← string_field ms (text "status")
  lease_expires_at ← time_field net ms (text "lease_expires_at")
  lease_expired ← bool_field ms (text "lease_expired")
  some (record {
    instance_id = instance_id;
    agent_id = agent_id;
    workload_id = workload_id;
    status = status;
    lease_expires_at = lease_expires_at;
    lease_expired = lease_expired;
  })

pub record WorkloadAttestation : Type 0 where
  pub method : Text
  pub certificate_pem : Text
  pub token : Text

unfoldable pub encode_workload_attestation : WorkloadAttestation → Option Value
encode_workload_attestation w = some (
    object (
      members (
        (text "method", string w.method)
        ∷ optional (text "certificate_pem") w.certificate_pem
            (optional (text "token") w.token ([])))))

pub record TokenResponse : Type 0 where
  pub token : Text
  pub expires_at : ℤ

unfoldable pub decode_token_response : Net → Value → Option TokenResponse
decode_token_response net v = do
  ms ← struct_members v
  token ← string_field ms (text "token")
  expires_at ← time_field net ms (text "expires_at")
  some (record { token = token; expires_at = expires_at })
