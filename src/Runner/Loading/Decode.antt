-- ===== src/Runner/Loading/Decode.antt =====
-- The documents of fixtures: Fixture and what it holds, of conformance/runner/types.go.
use eidovela_open.Common.{List, [], ◌∷◌, Option, none, some}
use eidovela_open.Text.{Text, text}
use eidovela_open.Base64.{◌>>=◌}
use eidovela_open.Json.{Value, null}
use eidovela_open.Json.Struct.{string_field, struct_members}
use eidovela_open.Json.Fields.{bool_field, list_field, field_from}
use eidovela_open.Sdk.Wire.{strings_field, map_field, or_empty}
use eidovela_open.Runner.Registry.{Workload}
use eidovela_open.Runner.Executor.{Attest, FederationSpec, Step}
use eidovela_open.Runner.Executor.Exec.{Scenario}

-- Fixture, without the fields that only readers of the file look at
pub record Fixture : Type 0 where
  pub id : Text
  pub scenario : Scenario

-- A pointer to a struct: null is nil.
abbrev assign_struct : {A : Type 0} → (Value → Option A) → Option A → Value → Option (Option A)
assign_struct read old null = some none
assign_struct read old v = elim (read v) [ none ↦ none | some a ↦ some (some a) ]

abbrev pointer_field :
    {A : Type 0} → (Value → Option A) → List (Text × Value) → Text → Option (Option A)
pointer_field read ms name = field_from (assign_struct read) name none ms

unfoldable pub decode_workload : Value → Option Workload
decode_workload v = do
  ms ← struct_members v
  platform ← string_field ms (text "platform")
  selector ← map_field ms (text "selector")
  trust_domain ← string_field ms (text "trust_domain")
  allowed_proof_methods ← strings_field ms (text "allowed_proof_methods")
  some (record {
    platform = platform;
    selector = selector;
    trust_domain = trust_domain;
    allowed_proof_methods = allowed_proof_methods;
  })

abbrev no_names : Option (List Text) → List Text
no_names none = []
no_names (some names) = names

unfoldable pub decode_attest : Value → Option Attest
decode_attest v = do
  ms ← struct_members v
  method ← string_field ms (text "method")
  spiffe_id ← string_field ms (text "spiffe_id")
  subject_cn ← string_field ms (text "subject_cn")
  dns_names ← strings_field ms (text "dns_names")
  kubernetes_issuer ← string_field ms (text "kubernetes_issuer")
  kubernetes_subject ← string_field ms (text "kubernetes_subject")
  some (record {
    method = method;
    spiffe_id = spiffe_id;
    subject_cn = subject_cn;
    dns_names = no_names dns_names;
    kubernetes_issuer = kubernetes_issuer;
    kubernetes_subject = kubernetes_subject;
  })

-- The key set address is read, and passed over.
unfoldable pub decode_federation_spec : Value → Option FederationSpec
decode_federation_spec v = do
  ms ← struct_members v
  issuer ← string_field ms (text "issuer")
  jwks_uri ← string_field ms (text "jwks_uri")
  allowed_audiences ← strings_field ms (text "allowed_audiences")
  claim_mappings ← map_field ms (text "claim_mappings")
  status ← string_field ms (text "status")
  some (record {
    issuer = issuer;
    allowed_audiences = allowed_audiences;
    claim_mappings = claim_mappings;
    status = status;
  })

-- The fields that no operation looks at are read, and passed over.
abbrev texts_there : List (Text × Value) → List Text → Option (Unit {0})
texts_there ms [] = some tt
texts_there ms (name ∷ names) = do s ← string_field ms name; texts_there ms names

unfoldable pub decode_step : Value → Option Step
unfolding decode_workload decode_attest decode_federation_spec
decode_step v = do
  ms ← struct_members v
  op ← string_field ms (text "op")
  workload ← pointer_field decode_workload ms (text "workload")
  workload_attributes ← map_field ms (text "workload_attributes")
  attestation ← pointer_field decode_attest ms (text "attestation")
  audience ← string_field ms (text "audience")
  requested_audience ← string_field ms (text "requested_audience")
  present_key ← string_field ms (text "present_key")
  federation ← pointer_field decode_federation_spec ms (text "federation")
  federation_issuer ← string_field ms (text "federation_issuer")
  peer_agent ← string_field ms (text "peer_agent")
  expired ← bool_field ms (text "expired")
  expect ← string_field ms (text "expect")
  reason ← string_field ms (text "reason")
  blueprint_version ← string_field ms (text "blueprint_version")
  blueprint_publisher ← string_field ms (text "blueprint_publisher")
  blueprint_class ← string_field ms (text "blueprint_class")
  expect_blueprint_status ← string_field ms (text "expect_blueprint_status")
  unused ← texts_there ms (text "deny_reason" ∷ [])
  some (record {
    op = op;
    workload = workload;
    workload_attributes = or_empty workload_attributes;
    attestation = attestation;
    audience = audience;
    requested_audience = requested_audience;
    present_key = present_key;
    federation = federation;
    federation_issuer = federation_issuer;
    peer_agent = peer_agent;
    expired = expired;
    reason = reason;
    blueprint_version = blueprint_version;
    blueprint_publisher = blueprint_publisher;
    blueprint_class = blueprint_class;
    expect_blueprint_status = expect_blueprint_status;
    expect = expect;
  })

abbrev pub zero_scenario : Scenario
zero_scenario = record { agent_class = []; binding_type = []; authority_root_ref = []; steps = [] }

unfoldable pub decode_scenario : Value → Option Scenario
unfolding decode_step
decode_scenario v = do
  ms ← struct_members v
  agent_class ← string_field ms (text "agent_class")
  binding_type ← string_field ms (text "binding_type")
  authority_root_ref ← string_field ms (text "authority_root_ref")
  steps ← list_field decode_step ms (text "steps")
  some (record {
    agent_class = agent_class;
    binding_type = binding_type;
    authority_root_ref = authority_root_ref;
    steps = steps;
  })

abbrev assign_scenario : Scenario → Value → Option Scenario
assign_scenario old null = some old
assign_scenario old v = decode_scenario v

unfoldable pub decode_fixture : Value → Option Fixture
decode_fixture v = do
  ms ← struct_members v
  id ← string_field ms (text "id")
  scenario ← field_from assign_scenario (text "scenario") zero_scenario ms
  unused ←
      texts_there ms
        (text "description" ∷ text "threat_ref" ∷ text "expectation" ∷ text "deny_reason" ∷ [])
  some (record { id = id; scenario = scenario })
