-- ===== src/Runner/Registry/Http.antt =====
-- The HTTP surface of the fake registry: ServeHTTP and its handlers, with the documents that they
-- answer (conformance/runner/registry.go).
use eidovela_open.Common.{
  zero_time, ℕ, ℤ, pos, List, [], ◌∷◌, map, Option, none, some, eq_ℤ, if◌then◌else◌,
}
use eidovela_open.Text.{Text, text, text_eq}
use eidovela_open.Base64.{}
use eidovela_open.Dict.{lookup}
use eidovela_open.Json.{Value, null, int64, string, array, object, Claims, members, values}
use eidovela_open.Platform.{Platform}
use eidovela_open.Runner.Registry.{FakeRegistry, FakeWorkload, FakeInstance}

pub record Request : Type 0 where
  pub method : Text
  pub path : Text
  pub query : List (Text × Text)
  pub body : Text

-- A status and the document of the body.
pub record Reply : Type 0 where
  pub status : ℕ
  pub document : Value

abbrev pub reply : ℕ → Claims → Reply
reply status ms = record { status = status; document = object (members ms) }

-- url.Values.Get
unfoldable pub query_get : List (Text × Text) → Text → Text
query_get [] k = []
query_get ((j, v) ∷ q) k = let later = query_get q k in if text_eq j k then v else later

-- The body of a refusal.
abbrev pub refusal : ℕ → Text → Text → Reply
refusal status code message = reply status (
    (
      text "error",
      object (members ((text "code", string code) ∷ (text "message", string message) ∷ [])),
    )
    ∷ [])

abbrev pub not_found : Text → Reply
not_found message = refusal 404 (text "not_found") message

-- writeItems
unfoldable pub write_items : List Value → Reply
write_items items = reply 200 ((text "items", array (values items)) ∷ [])

abbrev string_entries : List (Text × Text) → List (Text × Value)
string_entries [] = []
string_entries ((k, v) ∷ m) = (k, string v) ∷ string_entries m

-- A nil map or slice is written as null.
abbrev pub selector_json : Option (List (Text × Text)) → Value
selector_json none = null
selector_json (some m) = object (members (string_entries m))

abbrev pub methods_json : Option (List Text) → Value
methods_json none = null
methods_json (some l) = array (values (map string l))

-- namespaceJSON
unfoldable pub namespace_json : FakeRegistry → Value
namespace_json r = object (
    members (
      (text "namespace", string r.namespace)
      ∷ (text "authorityRootRef", string r.authority_root_ref)
      ∷ (text "status", string (text "active"))
      ∷ (text "namespaceEpoch", int64 (pos 1))
      ∷ []))

-- agentJSON
unfoldable pub agent_json : FakeRegistry → Value
agent_json r = object (
    members (
      (text "agentRef", string r.agent_ref)
      ∷ (text "name", string r.agent_ref)
      ∷ (text "purpose", string (text "conformance"))
      ∷ (text "sponsorRef", string r.sponsor_ref)
      ∷ (text "ownerRef", string r.authority_root_ref)
      ∷ (text "riskClass", string (text "low"))
      ∷ (text "agentClass", string r.agent_class)
      ∷ (text "state", string r.agent_state)
      ∷ (text "agentEpoch", int64 r.agent_epoch)
      ∷ []))

-- identityJSON
unfoldable pub identity_json : FakeRegistry → Value
identity_json r = object (
    members (
      (text "namespace", string r.namespace)
      ∷ (text "agentId", string r.agent_id)
      ∷ (text "agentRef", string r.agent_ref)
      ∷ (text "state", string r.identity_state)
      ∷ (text "identityEpoch", int64 r.identity_epoch)
      ∷ (text "identityType", string r.identity_type)
      ∷ (text "subjectRef", string r.subject_ref)
      ∷ (text "authorityRootRef", string r.authority_root_ref)
      ∷ (text "authorityRootType", string r.authority_root_type)
      ∷ []))

-- The document of a workload registration, as ServeHTTP and registryContext both write it.
unfoldable pub workload_json : FakeRegistry → FakeWorkload → Value
workload_json r w = object (
    members (
      (text "workloadRegistrationId", string w.id)
      ∷ (text "namespace", string r.namespace)
      ∷ (text "platform", string w.platform)
      ∷ (text "selector", selector_json w.selector)
      ∷ (text "trustDomain", string w.trust_domain)
      ∷ (text "allowedProofMethods", methods_json w.methods)
      ∷ (text "status", string w.status)
      ∷ (text "workloadEpoch", int64 w.epoch)
      ∷ []))

abbrev lease_entry : Platform → ℤ → Claims
lease_entry p t =
    if eq_ℤ t zero_time then [] else (text "leaseExpiresAt", string (p.format_rfc3339 t)) ∷ []

-- instanceJSON
unfoldable pub instance_json : Platform → FakeRegistry → FakeInstance → Value
instance_json p r inst = object (
    members (
      (text "instanceId", string inst.id)
      ∷ (text "namespace", string r.namespace)
      ∷ (text "agentId", string inst.agent_id)
      ∷ (text "workloadRegistrationId", string inst.registration_id)
      ∷ (text "workloadId", string inst.workload_id)
      ∷ (text "artifactDigest", string inst.artifact_digest)
      ∷ (text "attestationRef", string inst.attestation_ref)
      ∷ (text "state", string inst.state)
      ∷ (text "generation", int64 inst.generation)
      ∷ lease_entry p inst.lease_expires_at))

-- `r.workloads[id]`, whose zero value has no text
abbrev pub zero_workload : FakeWorkload
zero_workload = record {
  id = [];
  platform = [];
  selector = none;
  trust_domain = [];
  methods = none;
  status = [];
  epoch = pos 0;
}

abbrev pub zero_instance : FakeInstance
zero_instance = record {
  id = [];
  agent_id = [];
  registration_id = [];
  workload_id = [];
  artifact_digest = [];
  attestation_ref = [];
  lease_expires_at = zero_time;
  state = [];
  generation = pos 0;
}

abbrev pub or_zero {ℓ} : {A : Type ℓ} → A → Option A → A
or_zero zero' none = zero'
or_zero zero' (some a) = a

-- The items of GET /v1/workload-registrations
unfoldable pub workload_items : FakeRegistry → List Text → List Value
workload_items r [] = []
workload_items r (id ∷ ids) =
    workload_json r (or_zero zero_workload (lookup r.workloads id)) ∷ workload_items r ids

-- The items of GET /v1/agent-identities/{id}/instances
unfoldable pub instance_items : Platform → FakeRegistry → Text → List Text → List Value
instance_items p r agent_id [] = []
instance_items p r agent_id (id ∷ ids) =
    let inst = or_zero zero_instance (lookup r.instances id) in
    let rest = instance_items p r agent_id ids in
    if text_eq inst.agent_id agent_id then instance_json p r inst ∷ rest else rest
