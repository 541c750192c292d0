-- ===== src/Runner/Registry.antt =====
-- The fake NOMIVELA registry of the conformance runner (conformance/runner/registry.go): its state and
-- the operations that the runner calls. An operation that changes the state, and the context request,
-- hold the mutex for all of their reads and writes, so that each is one step. The three listings read
-- the agent's id or the items under it too; GET /v1/namespaces reads without it.
pub mod Http
pub mod Serve
pub mod Ids
pub mod Consistent
pub mod State
pub mod Operations
pub mod Totals
pub mod Reachable
pub mod Commit
pub mod Lifecycle
pub mod Terminal
pub mod Generations
pub mod Phases
pub mod Listings
pub mod Views
use eidovela_open.Common.{
  zero_time, unix, ℕ, ℤ, pos, negsuc, Bool, ◌&&◌, not, ◌||◌, ◌*◌, ◌^◌, ◌-◌, List, [], ◌∷◌, ◌++◌,
  Option, none, some, Result, ok, err, length, inc64, if◌then◌else◌,
}
use eidovela_open.Text.{Text, text, text_eq}
use eidovela_open.Decimal.{itoa, format_08d}
use eidovela_open.Dict.{lookup, insert}

-- Workload of types.go: what a workload registration is made from. A nil map or slice is none.
pub record Workload : Type 0 where
  pub platform : Text
  pub selector : Option (List (Text × Text))
  pub trust_domain : Text
  pub allowed_proof_methods : Option (List Text)

pub record FakeWorkload : Type 0 where
  pub id : Text
  pub platform : Text
  pub selector : Option (List (Text × Text))
  pub trust_domain : Text
  pub methods : Option (List Text)
  pub status : Text
  pub epoch : ℤ

pub record FakeInstance : Type 0 where
  pub id : Text
  pub agent_id : Text
  pub registration_id : Text
  pub workload_id : Text
  pub artifact_digest : Text
  pub attestation_ref : Text
  pub lease_expires_at : ℤ
  pub state : Text
  pub generation : ℤ

-- The listener, the server and its URL are left out.
pub record FakeRegistry : Type 0 where
  pub namespace : Text
  pub agent_ref : Text
  pub agent_class : Text
  pub agent_state : Text
  pub agent_epoch : ℤ
  pub sponsor_ref : Text
  pub agent_id : Text
  pub identity_state : Text
  pub identity_epoch : ℤ
  pub identity_type : Text
  pub subject_ref : Text
  pub authority_root_ref : Text
  pub authority_root_type : Text
  pub workloads : List (Text × FakeWorkload)
  pub workload_order : List Text
  pub instances : List (Text × FakeInstance)
  pub instance_order : List Text
  pub sequence : ℤ

-- StartFakeRegistry: the state of a new registry.
unfoldable pub start_fake_registry : Text → FakeRegistry
unfolding text_eq
start_fake_registry namespace = record {
  namespace =
      if text_eq namespace [] then text "https://registry.example.test/ns/local" else namespace;
  agent_ref = [];
  agent_class = [];
  agent_state = [];
  agent_epoch = pos 0;
  sponsor_ref = [];
  agent_id = [];
  identity_state = [];
  identity_epoch = pos 0;
  identity_type = [];
  subject_ref = [];
  authority_root_ref = [];
  authority_root_type = [];
  workloads = [];
  workload_order = [];
  instances = [];
  instance_order = [];
  sequence = pos 0;
}

unfoldable pub agent_id_of : ℤ → Text
agent_id_of sequence = format_08d sequence ++ text "-0000-0000-0000-000000000000"

unfoldable pub workload_id_of : ℤ → Text
workload_id_of sequence = text "wr-" ++ format_08d sequence

unfoldable pub instance_id_of : ℤ → Text
instance_id_of sequence = text "inst-" ++ format_08d sequence

-- SeedAgent
unfoldable pub seed_agent : Text → Text → Text → FakeRegistry → FakeRegistry × Text
seed_agent class binding_type authority_root_ref r =
    let sequence = inc64 r.sequence in
    (
      record r {
        sequence = sequence;
        agent_ref = text "agent_ref_" ++ itoa sequence;
        agent_class = class;
        agent_state = text "active";
        agent_epoch = pos 1;
        agent_id = agent_id_of sequence;
        identity_state = text "active";
        identity_epoch = pos 1;
        identity_type = [];
        subject_ref = [];
        authority_root_ref = authority_root_ref;
        authority_root_type = binding_type;
      },
      agent_id_of sequence,
    )

-- SetIdentityAttributes
unfoldable pub set_identity_attributes : Text → Text → FakeRegistry → FakeRegistry
set_identity_attributes identity_type subject_ref r = record r {
  identity_type = identity_type;
  subject_ref = subject_ref;
}

-- AddWorkload
unfoldable pub add_workload : Workload → FakeRegistry → FakeRegistry × Text
add_workload w r =
    let sequence = inc64 r.sequence in
    let id = workload_id_of sequence in
    let entry : FakeWorkload = record {
      id = id;
      platform = w.platform;
      selector = w.selector;
      trust_domain = w.trust_domain;
      methods = w.allowed_proof_methods;
      status = text "active";
      epoch = pos 1;
    } in
    (
      record r {
        sequence = sequence;
        workloads = insert id entry r.workloads;
        workload_order = r.workload_order ++ (id ∷ []);
      },
      id,
    )

-- SuspendAgent
unfoldable pub suspend_agent : FakeRegistry → FakeRegistry
suspend_agent r = record r { agent_state = text "suspended"; agent_epoch = inc64 r.agent_epoch }

-- RevokeAgent
unfoldable pub revoke_agent : FakeRegistry → FakeRegistry
revoke_agent r = record r {
  agent_state = text "retired";
  agent_epoch = inc64 r.agent_epoch;
  identity_state = text "revoked";
  identity_epoch = inc64 r.identity_epoch;
}

-- SuspendIdentity
unfoldable pub suspend_identity : FakeRegistry → FakeRegistry
suspend_identity r = record r {
  identity_state = text "suspended";
  identity_epoch = inc64 r.identity_epoch;
}

abbrev pub terminated : FakeInstance → FakeInstance
terminated inst = record inst { state = text "terminated"; generation = inc64 inst.generation }

-- TerminateInstance
unfoldable pub terminate_instance : Text → FakeRegistry → FakeRegistry
terminate_instance id r = elim (lookup r.instances id) [
  | none ↦ r
  | some inst ↦ record r { instances = insert id (terminated inst) r.instances }
]

pub data LeaseError : Type 0 where
  unknown_instance : Text → LeaseError
  instance_is : Text → Text → LeaseError

unfoldable pub is_final : FakeInstance → Bool
is_final inst = text_eq inst.state (text "terminated") || text_eq inst.state (text "expired")

-- LeaseInstance
unfoldable pub lease_instance :
    Text → ℤ → FakeRegistry → FakeRegistry × Result LeaseError (Unit {0})
lease_instance id expires_at r = elim (lookup r.instances id) [
  | none ↦ (r, err (unknown_instance id))
  | some inst ↦ if is_final inst then (r, err (instance_is id inst.state)) else (
    record r { instances = insert id (record inst { lease_expires_at = expires_at }) r.instances },
    ok tt,
  )
]

-- InstanceCount
unfoldable pub instance_count : FakeRegistry → ℕ
instance_count r = length r.instances

-- The body of an instance commit; other fields of the document are passed over.
pub record CommitBody : Type 0 where
  pub namespace : Text
  pub workload_registration_id : Text
  pub workload_id : Text
  pub artifact_digest : Text
  pub attestation_ref : Text
  pub lease_expires_at : Text

pub data CommitError : Type 0 where
  unknown_agent unknown_workload_registration : CommitError

abbrev pub or_zero_time : Option ℤ → ℤ
or_zero_time none = zero_time
or_zero_time (some t) = t

abbrev pub new_instance : Text → Text → CommitBody → ℤ → FakeInstance
new_instance id agent_id body lease = record {
  id = id;
  agent_id = agent_id;
  registration_id = body.workload_registration_id;
  workload_id = body.workload_id;
  artifact_digest = body.artifact_digest;
  attestation_ref = body.attestation_ref;
  lease_expires_at = lease;
  state = text "active";
  generation = pos 1;
}

-- commitInstance behind the decoding of its body
unfoldable pub commit_instance :
    (Text → Option ℤ)
    → Text
    → CommitBody
    → FakeRegistry
    → FakeRegistry × Result CommitError FakeInstance
commit_instance parse_time agent_id body r =
    if not (text_eq agent_id r.agent_id)
    then (r, err unknown_agent)
    else elim (lookup r.workloads body.workload_registration_id) [
      | none ↦ (r, err unknown_workload_registration)
      | some _ ↦
          let sequence = inc64 r.sequence in
          let inst =
            new_instance (instance_id_of sequence) agent_id body
              (or_zero_time (parse_time body.lease_expires_at)) in
          (
            record r {
              sequence = sequence;
              instances = insert inst.id inst r.instances;
              instance_order = r.instance_order ++ (inst.id ∷ []);
            },
            ok inst,
          )
    ]
