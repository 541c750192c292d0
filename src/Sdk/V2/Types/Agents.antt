-- ===== src/Sdk/V2/Types/Agents.antt =====
-- Agents and blueprints: structs of sdk/go/eidovela/client.go,
-- their reading from a document, and where a document is made of them, its writing.
use eidovela_open.Common.{ℕ, ℤ, List, [], ◌∷◌, Option, some}
use eidovela_open.Text.{Text, text}
use eidovela_open.Base64.{◌>>=◌}
use eidovela_open.Json.{Value, string, object, members}
use eidovela_open.Json.Struct.{string_field, struct_members}
use eidovela_open.Json.Fields.{uint_field}
use eidovela_open.Sdk.Http.{Net}
use eidovela_open.Sdk.Wire.{
  u64, time_field, strings_field, map_field, optional_strings, optional_map, optional,
}

pub record RegisterAgentRequest : Type 0 where
  pub class : Text
  pub blueprint_id : Text
  pub blueprint_version : Text
  pub binding_type : Text
  pub authority_root_ref : Text
  pub sponsor_ref : Text

unfoldable pub encode_register_agent_request : RegisterAgentRequest → Option Value
encode_register_agent_request r = some (
    object (
      members (
        (text "class", string r.class)
        ∷ optional (text "blueprint_id") r.blueprint_id (
            optional (text "blueprint_version") r.blueprint_version (
              (text "binding_type", string r.binding_type)
              ∷ (text "authority_root_ref", string r.authority_root_ref)
              ∷ optional (text "sponsor_ref") r.sponsor_ref ([]))))))

pub record Agent : Type 0 where
  pub agent_id : Text
  pub state : Text
  pub epoch : ℕ

unfoldable pub decode_agent : Value → Option Agent
decode_agent v = do
  ms ← struct_members v
  agent_id ← string_field ms (text "agent_id")
  state ← string_field ms (text "lifecycle_state")
  epoch ← uint_field u64 ms (text "lifecycle_epoch")
  some (record { agent_id = agent_id; state = state; epoch = epoch })

pub record AgentSummary : Type 0 where
  pub agent_id : Text
  pub agent_class : Text
  pub authority_root : Text
  pub lifecycle_state : Text
  pub epoch : ℕ
  pub created_at : ℤ
  pub updated_at : ℤ

unfoldable pub decode_agent_summary : Net → Value → Option AgentSummary
decode_agent_summary net v = do
  ms ← struct_members v
  agent_id ← string_field ms (text "agent_id")
  agent_class ← string_field ms (text "agent_class")
  authority_root ← string_field ms (text "authority_root_ref")
  lifecycle_state ← string_field ms (text "lifecycle_state")
  epoch ← uint_field u64 ms (text "lifecycle_epoch")
  created_at ← time_field net ms (text "created_at")
  updated_at ← time_field net ms (text "updated_at")
  some (record {
    agent_id = agent_id;
    agent_class = agent_class;
    authority_root = authority_root;
    lifecycle_state = lifecycle_state;
    epoch = epoch;
    created_at = created_at;
    updated_at = updated_at;
  })

pub record Blueprint : Type 0 where
  pub blueprint_id : Text
  pub publisher : Text
  pub version : Text
  pub declared_class : Text
  pub metadata : Option (List (Text × Text))
  pub allowed_enrollment_profiles : Option (List Text)
  pub status : Text
  pub created_at : ℤ

unfoldable pub decode_blueprint : Net → Value → Option Blueprint
decode_blueprint net v = do
  ms ← struct_members v
  blueprint_id ← string_field ms (text "blueprint_id")
  publisher ← string_field ms (text "publisher")
  version ← string_field ms (text "version")
  declared_class ← string_field ms (text "declared_class")
  metadata ← map_field ms (text "metadata")
  allowed_enrollment_profiles ← strings_field ms (text "allowed_enrollment_profiles")
  status ← string_field ms (text "status")
  created_at ← time_field net ms (text "created_at")
  some (record {
    blueprint_id = blueprint_id;
    publisher = publisher;
    version = version;
    declared_class = declared_class;
    metadata = metadata;
    allowed_enrollment_profiles = allowed_enrollment_profiles;
    status = status;
    created_at = created_at;
  })

unfoldable pub encode_blueprint : Net → Blueprint → Option Value
encode_blueprint net b = do
  created_at ← net.time_json b.created_at
  some (
      object (
        members (
          optional (text "blueprint_id") b.blueprint_id (
            (text "publisher", string b.publisher)
            ∷ (text "version", string b.version)
            ∷ (text "declared_class", string b.declared_class)
            ∷ optional_map (text "metadata") b.metadata (
                optional_strings (text "allowed_enrollment_profiles") b.allowed_enrollment_profiles
                  (optional (text "status") b.status
                    ((text "created_at", string created_at) ∷ [])))))))
