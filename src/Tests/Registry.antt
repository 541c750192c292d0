-- ===== src/Tests/Registry.antt =====
-- Examples of the theorems on the fake registry.
use eidovela_open.Common.{
  zero_time, ℕ, pos, ◌+◌, ◌≤◌, ◌≡◌, ◌≢◌, ◌⊎◌, ◌↔◌, refl, List, [], ◌∷◌, none, some, ok, err, arith,
  map, length, inc64, sym, if◌then◌else◌,
}
use eidovela_open.Text.{
  Text, text, text_eq, strip_prefix, strip_suffix, has_prefix, has_suffix, trim_prefix, trim_suffix,
}
use eidovela_open.Dict.{lookup, insert}
use eidovela_open.Runner.Registry.{
  Workload, FakeWorkload, FakeRegistry, FakeInstance, CommitBody, start_fake_registry,
  instance_id_of, new_instance, terminate_instance, lease_instance, instance_is, unknown_instance,
  instance_count, unknown_agent, unknown_workload_registration,
}
use eidovela_open.Runner.Registry.Http.{
  Request, reply, namespace_json, agent_json, identity_json, workload_json, instance_json,
  workload_items, instance_items,
}
use eidovela_open.Runner.Registry.Views.{registry_context_lem, serve_http_changes}
use eidovela_open.Runner.Registry.Serve.{serve_http, registry_context}
use eidovela_open.Runner.Registry.Operations.{
  Operation, seed, add, suspend, revoke, terminate, lease, serve, run,
}
use eidovela_open.Runner.Registry.{
  commit_instance, add_workload, seed_agent, agent_id_of, workload_id_of,
}
use eidovela_open.Runner.Registry.Serve.{handle_commit, commit_body}
use eidovela_open.Runner.Registry.Operations.{step}
use eidovela_open.Json.Struct.{struct_members, string_field, names_field}
use eidovela_open.Decimal.{format_08d, digits, pad}
use eidovela_open.Runner.Registry.Consistent.{IsConsistent}
use eidovela_open.Runner.Registry.Reachable.{run-start-IsConsistent}
use eidovela_open.Runner.Registry.Commit.{commit_instance_cases, commit_instance_adds}
use eidovela_open.Runner.Registry.Lifecycle.{HasEpochs, run-HasEpochs}
use eidovela_open.Runner.Registry.Generations.{IsKept, run-IsKept}
use eidovela_open.Runner.Registry.Listings.{IsIn, listings_lem}
use eidovela_open.Runner.Registry.Ids.{Ascends}
use eidovela_open.Runner.Registry.Phases.{phase, Life, run-Life}
use eidovela_open.Runner.Registry.Terminal.{IsEnded, lease_instance_cases, lease_after_terminate}
use eidovela_open.Tests.Toy.{toy}

abbrev workload : Workload
workload = record {
  platform = text "kubernetes";
  selector = none;
  trust_domain = text "t";
  allowed_proof_methods = none;
}

abbrev agent : Text
agent = text "00000001-0000-0000-0000-000000000000"

abbrev pub commit_request : Request
commit_request = record {
  method = text "POST";
  path = text "/v1/agent-identities/00000001-0000-0000-0000-000000000000/instances";
  query = [];
  body = text "b";
}

abbrev setup : List Operation
setup =
    seed (text "service") (text "owner") (text "root") ∷ add workload ∷ serve commit_request ∷ []

abbrev pub started : FakeRegistry
started = run toy setup (start_fake_registry (text "ns"))

abbrev inst : FakeInstance
inst =
    new_instance (text "inst-00000003") agent
      (record {
        namespace = [];
        workload_registration_id = text "wr-00000002";
        workload_id = [];
        artifact_digest = [];
        attestation_ref = [];
        lease_expires_at = [];
      })
      zero_time

abbrev entry : FakeWorkload
entry = record {
  id = text "wr-00000002";
  platform = text "kubernetes";
  selector = none;
  trust_domain = text "t";
  methods = none;
  status = text "active";
  epoch = pos 1;
}

started_holds :
    (lookup started.instances (text "inst-00000003") ≡ some inst)
    × (lookup started.workloads (text "wr-00000002") ≡ some entry)
    × (started.agent_id ≡ agent)
    × (started.sequence ≡ pos 3)
    × (started.agent_epoch ≡ pos 1)
    × (started.identity_epoch ≡ pos 1)
unfolding run step lookup insert serve_http text_eq has_prefix strip_prefix trim_suffix strip_suffix
    has_suffix handle_commit commit_body struct_members string_field names_field commit_instance
    trim_prefix add_workload seed_agent agent_id_of workload_id_of instance_id_of format_08d digits
    pad start_fake_registry
started_holds = (refl, refl, refl, refl, refl, refl)

run-start-IsConsistent_example :
    (m : ℕ) × (m ≤ 3)
    × (m ≡ 1 + length started.workload_order + length started.instance_order)
    × IsConsistent m started
run-start-IsConsistent_example = run-start-IsConsistent toy (text "ns") setup (omega arith)

-- The registry after the setup, with its sequence.
started-IsConsistent : IsConsistent 3 started
started-IsConsistent =
    let (m, le, counted, c) = run-start-IsConsistent toy (text "ns") setup (omega arith) in
    let same : m ≡ 3 = ground (arith, c.sequence, started_holds.3) in rw (← same) c

abbrev changes : List Operation
changes = suspend ∷ lease (text "inst-00000003") (pos 9) ∷ serve commit_request ∷ revoke ∷ []

run-HasEpochs_example : HasEpochs 3 2 (run toy changes started)
run-HasEpochs_example =
    run-HasEpochs toy changes {a = 1} {i = 1} {r = started} (omega arith) (omega arith)
      (tt, (tt, (tt, (tt, tt)))) (record { agent = started_holds.4; identity = started_holds.5 })

lease_after_terminate_example :
    let s = run toy changes (terminate_instance (text "inst-00000003") started) in
    lease_instance (text "inst-00000003") (pos 20) s
    ≡ (s, err (instance_is (text "inst-00000003") (text "terminated")))
lease_after_terminate_example =
    lease_after_terminate (text "inst-00000003") toy changes (pos 20) {n = 3} {r = started} inst
      (omega arith) started-IsConsistent started_holds.0

run-Life_example :
    Life
      (phase (text "inst-00000003") started)
      4
      (phase (text "inst-00000003") (run toy changes started))
run-Life_example =
    run-Life (text "inst-00000003") toy changes {n = 3} started (omega arith) started-IsConsistent

abbrev body_2 : CommitBody
body_2 = record {
  namespace = [];
  workload_registration_id = text "wr-00000002";
  workload_id = text "wl";
  artifact_digest = [];
  attestation_ref = [];
  lease_expires_at = [];
}

abbrev committed_2 : FakeInstance
committed_2 = new_instance (instance_id_of (inc64 started.sequence)) agent body_2 zero_time

commit_instance_cases_example :
    ((agent ≢ started.agent_id)
      × (commit_instance (λ _. none) agent body_2 started ≡ (started, err unknown_agent)))
    ⊎ (((agent ≡ started.agent_id)
          × (lookup started.workloads body_2.workload_registration_id ≡ none)
          × (commit_instance (λ _. none) agent body_2 started
              ≡ (started, err unknown_workload_registration)))
        ⊎ ((agent ≡ started.agent_id)
            × (lookup started.workloads body_2.workload_registration_id ≢ none)
            × ((commit_instance (λ _. none) agent body_2 started).1 ≡ ok committed_2)))
commit_instance_cases_example = commit_instance_cases (λ _. none) agent body_2 started

commit_instance_adds_example :
    let (r', result) = commit_instance (λ _. none) agent body_2 started in
    (result ≡ ok committed_2)
    × (lookup started.instances committed_2.id ≡ none)
    × (lookup r'.instances (text "inst-00000003") ≡ (
        if text_eq committed_2.id (text "inst-00000003")
        then some committed_2
        else lookup started.instances (text "inst-00000003")))
    × (instance_count r' ≡ instance_count started + 1)
    × (r'.workloads ≡ started.workloads)
commit_instance_adds_example =
    commit_instance_adds (λ _. none) agent body_2 started {n = 3} entry (text "inst-00000003")
      (omega arith) started-IsConsistent (sym started_holds.2) started_holds.1

abbrev endings : List Operation
endings = terminate (text "inst-00000003") ∷ suspend ∷ terminate (text "inst-00000003") ∷ []

run-IsKept_example : IsKept (text "inst-00000003") inst 1 2 (run toy endings started)
unfolding text_eq
run-IsKept_example =
    run-IsKept (text "inst-00000003") toy endings {g = 1} {n = 3} {r = started} inst (omega arith)
      (omega arith) started-IsConsistent started_holds.0 refl

listings_lem_example :
    ((ws : List FakeWorkload) × (workload_items started started.workload_order
        ≡ map (workload_json started) ws)
      × Ascends workload_id_of 0 3 (map (λ w. w.id) ws)
      × ((w : FakeWorkload) → IsIn w ws ↔ (lookup started.workloads w.id ≡ some w)))
    × ((is : List FakeInstance) × (instance_items toy started agent started.instance_order
          ≡ map (instance_json toy started) is)
        × Ascends instance_id_of 0 3 (map (λ i. i.id) is)
        × ((i : FakeInstance)
            → IsIn i is ↔ ((lookup started.instances i.id ≡ some i) × (i.agent_id ≡ agent))))
listings_lem_example = listings_lem toy agent {n = 3} {r = started} started-IsConsistent

registry_context_lem_example :
    (w : FakeWorkload) × (lookup started.workloads (text "wr-00000002") ≡ some w)
    × (registry_context toy started started.agent_id (text "inst-00000003") []
        ≡ reply 200 (
            (text "namespace", namespace_json started)
            ∷ (text "agent", agent_json started)
            ∷ (text "identity", identity_json started)
            ∷ (text "instance", instance_json toy started inst)
            ∷ (text "workloadRegistration", workload_json started w)
            ∷ []))
registry_context_lem_example =
    registry_context_lem toy (text "inst-00000003") [] inst {n = 3} {r = started}
      started-IsConsistent (λ e. cc) started_holds.0

serve_http_changes_example :
    ((serve_http toy commit_request started).0 ≡ started)
    ⊎ ((text "POST" ≡ text "POST") × ((serve_http toy commit_request started).1.status ≡ 201))
serve_http_changes_example = serve_http_changes toy commit_request started

lease_instance_cases_example :
    ((lookup started.instances (text "inst-00000003") ≡ none)
      × (lease_instance (text "inst-00000003") (pos 9) started
          ≡ (started, err (unknown_instance (text "inst-00000003")))))
    ⊎ (((old : FakeInstance) × (lookup started.instances (text "inst-00000003") ≡ some old)
          × IsEnded old
          × (lease_instance (text "inst-00000003") (pos 9) started
              ≡ (started, err (instance_is (text "inst-00000003") old.state))))
        ⊎ ((old : FakeInstance) × (m : List (Text × FakeInstance)) × (lookup started.instances
                (text "inst-00000003")
              ≡ some old)
            × (IsEnded old → ⊥)
            × (lease_instance (text "inst-00000003") (pos 9) started
                ≡ (record started { instances = m }, ok tt))
            × (lookup m (text "inst-00000003") ≡ some (record old { lease_expires_at = pos 9 }))
            × ((j : Text) → j ≢ text "inst-00000003" → lookup m j ≡ lookup started.instances j)))
lease_instance_cases_example = lease_instance_cases (text "inst-00000003") (pos 9) started
