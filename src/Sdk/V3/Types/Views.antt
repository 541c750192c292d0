-- ===== src/Sdk/V3/Types/Views.antt =====
-- Views of the registry: structs of sdk/go/eidovela/v3/client.go,
-- their reading from a document, and where a document is made of them, its writing.
use eidovela_open.Common.{ℤ, Bool, Option, some}
use eidovela_open.Text.{Text, text}
use eidovela_open.Base64.{◌>>=◌}
use eidovela_open.Json.{Value}
use eidovela_open.Json.Struct.{string_field, struct_members}
use eidovela_open.Json.Fields.{bool_field, int_field}

pub record RegistryAgent : Type 0 where
  pub namespace : Text
  pub agent_ref : Text
  pub agent_id : Text
  pub agent_class : Text
  pub agent_state : Text
  pub identity_state : Text
  pub agent_epoch : ℤ
  pub identity_epoch : ℤ
  pub authority_root_ref : Text
  pub sponsor_ref : Text
  pub tokenable : Bool

unfoldable pub decode_registry_agent : Value → Option RegistryAgent
decode_registry_agent v = do
  ms ← struct_members v
  namespace ← string_field ms (text "namespace")
  agent_ref ← string_field ms (text "agentRef")
  agent_id ← string_field ms (text "agentId")
  agent_class ← string_field ms (text "agentClass")
  agent_state ← string_field ms (text "agentState")
  identity_state ← string_field ms (text "identityState")
  agent_epoch ← int_field ms (text "agentEpoch")
  identity_epoch ← int_field ms (text "identityEpoch")
  authority_root_ref ← string_field ms (text "authorityRootRef")
  sponsor_ref ← string_field ms (text "sponsorRef")
  tokenable ← bool_field ms (text "tokenable")
  some (record {
    namespace = namespace;
    agent_ref = agent_ref;
    agent_id = agent_id;
    agent_class = agent_class;
    agent_state = agent_state;
    identity_state = identity_state;
    agent_epoch = agent_epoch;
    identity_epoch = identity_epoch;
    authority_root_ref = authority_root_ref;
    sponsor_ref = sponsor_ref;
    tokenable = tokenable;
  })

pub record RegistryInstance : Type 0 where
  pub instance_id : Text
  pub namespace : Text
  pub agent_id : Text
  pub workload_registration_id : Text
  pub workload_id : Text
  pub artifact_digest : Text
  pub attestation_ref : Text
  pub lease_expires_at : Text
  pub state : Text
  pub generation : ℤ
  pub tokenable : Bool

unfoldable pub decode_registry_instance : Value → Option RegistryInstance
decode_registry_instance v = do
  ms ← struct_members v
  instance_id ← string_field ms (text "instanceId")
  namespace ← string_field ms (text "namespace")
  agent_id ← string_field ms (text "agentId")
  workload_registration_id ← string_field ms (text "workloadRegistrationId")
  workload_id ← string_field ms (text "workloadId")
  artifact_digest ← string_field ms (text "artifactDigest")
  attestation_ref ← string_field ms (text "attestationRef")
  lease_expires_at ← string_field ms (text "leaseExpiresAt")
  state ← string_field ms (text "state")
  generation ← int_field ms (text "generation")
  tokenable ← bool_field ms (text "tokenable")
  some (record {
    instance_id = instance_id;
    namespace = namespace;
    agent_id = agent_id;
    workload_registration_id = workload_registration_id;
    workload_id = workload_id;
    artifact_digest = artifact_digest;
    attestation_ref = attestation_ref;
    lease_expires_at = lease_expires_at;
    state = state;
    generation = generation;
    tokenable = tokenable;
  })
