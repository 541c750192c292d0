-- ===== src/Runner/Registry/Serve.antt =====
-- The routes of the fake registry (ServeHTTP, registryContext and commitInstance in
-- conformance/runner/registry.go).
use eidovela_open.Common.{
  Bool, ◌&&◌, not, [], ◌∷◌, ◌++◌, Option, none, some, Result, ok, err, if◌then◌else◌,
}
use eidovela_open.Text.{
  Text, text, text_eq, is_empty, has_prefix, has_suffix, trim_prefix, trim_suffix,
}
use eidovela_open.Base64.{◌>>=◌}
use eidovela_open.Dict.{lookup}
use eidovela_open.Json.{Claims}
use eidovela_open.Json.Struct.{string_field, struct_members}
use eidovela_open.Platform.{Platform}
use eidovela_open.Runner.Registry.{
  FakeRegistry, FakeInstance, CommitBody, CommitError, unknown_agent, unknown_workload_registration,
  commit_instance,
}
use eidovela_open.Runner.Registry.Http.{
  Request, Reply, reply, query_get, refusal, not_found, write_items, namespace_json, agent_json,
  identity_json, workload_json, instance_json, workload_items, instance_items,
}

-- registryContext behind the instance: the workload registration, then the answer.
unfoldable pub context_workload : FakeRegistry → Claims → Text → Reply
context_workload r body id = if is_empty id then reply 200 body else elim (lookup r.workloads id) [
  | none ↦ not_found (text "unknown workload registration")
  | some w ↦ reply 200 (body ++ ((text "workloadRegistration", workload_json r w) ∷ []))
]

-- registryContext. An instance brings its own workload registration.
unfoldable pub registry_context : Platform → FakeRegistry → Text → Text → Text → Reply
registry_context p r agent_id instance_id registration_id =
    let body =
      (text "namespace", namespace_json r)
      ∷ (text "agent", agent_json r)
      ∷ (text "identity", identity_json r)
      ∷ [] in
    if not (text_eq agent_id r.agent_id)
    then not_found (text "unknown agent")
    else if is_empty instance_id
    then context_workload r body registration_id
    else elim (lookup r.instances instance_id) [
      | none ↦ not_found (text "unknown instance")
      | some inst ↦
          context_workload r (body ++ ((text "instance", instance_json p r inst) ∷ []))
            inst.registration_id
    ]

-- The body of a commit request, or none where it does not decode.
unfoldable pub commit_body : Platform → Text → Option CommitBody
commit_body p body = do
  v ← p.json_decode body
  ms ← struct_members v
  namespace ← string_field ms (text "namespace")
  workload_registration_id ← string_field ms (text "workloadRegistrationId")
  workload_id ← string_field ms (text "workloadId")
  artifact_digest ← string_field ms (text "artifactDigest")
  attestation_ref ← string_field ms (text "attestationRef")
  lease_expires_at ← string_field ms (text "leaseExpiresAt")
  some (record {
    namespace = namespace;
    workload_registration_id = workload_registration_id;
    workload_id = workload_id;
    artifact_digest = artifact_digest;
    attestation_ref = attestation_ref;
    lease_expires_at = lease_expires_at;
  })

-- The answer to a commit, from the registry after it.
abbrev pub commit_reply :
    Platform → FakeRegistry × Result CommitError FakeInstance → FakeRegistry × Reply
commit_reply p (r, ok inst) = (r, record { status = 201; document = instance_json p r inst })
commit_reply p (r, err unknown_agent) = (r, not_found (text "unknown agent"))
commit_reply p (r, err unknown_workload_registration) =
    (r, not_found (text "unknown workload registration"))

-- commitInstance
unfoldable pub handle_commit : Platform → Text → Text → FakeRegistry → FakeRegistry × Reply
handle_commit p agent_id body r = elim (commit_body p body) [
  | none ↦ (r, refusal 400 (text "invalid_request") (p.json_error body))
  | some b ↦ commit_reply p (commit_instance p.parse_rfc3339 agent_id b r)
]

abbrev pub instances_prefix : Text
instances_prefix = text "/v1/agent-identities/"

abbrev pub instances_suffix : Text
instances_suffix = text "/instances"

abbrev is_instances : Text → Bool
is_instances path = has_prefix path instances_prefix && has_suffix path instances_suffix

abbrev instances_agent : Text → Text
instances_agent path = trim_suffix (trim_prefix path instances_prefix) instances_suffix

-- The cases of ServeHTTP for GET.
unfoldable pub serve_get : Platform → Request → Text → FakeRegistry → Reply
serve_get p req path r =
    if text_eq path (text "/v1/namespaces")
    then write_items (namespace_json r ∷ [])
    else if text_eq path (text "/v1/agents")
    then write_items (agent_json r ∷ [])
    else if text_eq path (text "/v1/agent-identities")
    then write_items (identity_json r ∷ [])
    else if text_eq path (text "/v1/workload-registrations")
    then write_items (workload_items r r.workload_order)
    else if text_eq path (text "/v1/registry-context")
    then registry_context p r (query_get req.query (text "agentId"))
        (query_get req.query (text "instanceId"))
        (query_get req.query (text "workloadRegistrationId"))
    else if is_instances path
    then write_items (instance_items p r (instances_agent path) r.instance_order)
    else not_found (text "fake registry: " ++ path)

-- ServeHTTP: every case names its method, GET or POST, and only one case is a POST.
unfoldable pub serve_http : Platform → Request → FakeRegistry → FakeRegistry × Reply
serve_http p req r =
    let path = trim_suffix req.path (text "/") in
    if text_eq req.method (text "GET")
    then (r, serve_get p req path r)
    else if text_eq req.method (text "POST") && is_instances path
    then handle_commit p (instances_agent path) req.body r
    else (r, not_found (text "fake registry: " ++ path))
