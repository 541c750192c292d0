-- ===== src/Runner/Executor/Exec.antt =====
-- The steps of a fixture and the fixture's verdict: outcome, execStep, begin and RunFixture of
-- conformance/runner/executor.go.
use eidovela_open.Common.{
  ℕ, ◌+◌, Bool, true, false, List, [], ◌∷◌, Option, none, some, Result, ok, err, if◌then◌else◌,
}
use eidovela_open.Text.{Text, text, text_eq}
use eidovela_open.Runner.Registry.{
  FakeRegistry, seed_agent, suspend_agent, revoke_agent, suspend_identity, terminate_instance,
}
use eidovela_open.Runner.Peers.{PeerIssuer}
use eidovela_open.Runner.Executor.{Env, Step, World, Failure, unmet, Action, pure, registry_call}
use eidovela_open.Runner.Executor.Enroll.{register_workload, complete_enrollment, instance_lease}
use eidovela_open.Runner.Executor.Tokens.{
  issue_token, introspect, exchange, register_federation_trust, disable_federation_trust,
  broker_issue, issue_peer_token,
}
use eidovela_open.Runner.Executor.Projections.{
  list_agents, evidence_events, agent_detail, evidence_since, instances_lease_projection,
  outbox_status, outbox_events_list,
}

-- outcome
unfoldable pub outcome : Bool → Result Failure (Unit {0}) → Result Failure (Unit {0})
outcome true (ok _) = err (unmet (text "expected deny but operation succeeded"))
outcome true (err _) = ok tt
outcome false r = r

-- The verdict on an introspection, whose errors are never an expected denial.
unfoldable pub introspect_outcome : Bool → Result Failure Bool → Result Failure (Unit {0})
introspect_outcome want_deny (err e) = err e
introspect_outcome true (ok true) =
    err (unmet (text "introspect expected inactive but reported active"))
introspect_outcome true (ok false) = ok tt
introspect_outcome false (ok true) = ok tt
introspect_outcome false (ok false) =
    err (unmet (text "introspect expected active but reported inactive"))

-- The names of the operations
pub data Op : Type 0 where
  register_workload_op complete_enrollment_op activate_op suspend_op revoke_op suspend_identity_op :
      Op
  issue_token_op exchange_op register_trust_op disable_trust_op issue_peer_token_op : Op
  broker_issue_op instance_lease_op instance_terminate_op list_agents_op evidence_events_op : Op
  agent_detail_op evidence_since_op lease_projection_op outbox_status_op outbox_events_op : Op

-- What a step asks for
pub data Command : Type 0 where
  introspection : Command
  operation : Op → Command

abbrev ops : List (Text × Command)
ops =
    (text "register_workload", operation register_workload_op)
    ∷ (text "complete_enrollment", operation complete_enrollment_op)
    ∷ (text "activate", operation activate_op)
    ∷ (text "suspend", operation suspend_op)
    ∷ (text "revoke", operation revoke_op)
    ∷ (text "suspend_identity", operation suspend_identity_op)
    ∷ (text "issue_token", operation issue_token_op)
    ∷ (text "introspect", introspection)
    ∷ (text "exchange", operation exchange_op)
    ∷ (text "register_federation_trust", operation register_trust_op)
    ∷ (text "disable_federation_trust", operation disable_trust_op)
    ∷ (text "issue_peer_token", operation issue_peer_token_op)
    ∷ (text "broker_issue", operation broker_issue_op)
    ∷ (text "instance_lease", operation instance_lease_op)
    ∷ (text "instance_terminate", operation instance_terminate_op)
    ∷ (text "list_agents", operation list_agents_op)
    ∷ (text "evidence_events", operation evidence_events_op)
    ∷ (text "agent_detail", operation agent_detail_op)
    ∷ (text "evidence_since", operation evidence_since_op)
    ∷ (text "instances_lease_projection", operation lease_projection_op)
    ∷ (text "outbox_status", operation outbox_status_op)
    ∷ (text "outbox_events", operation outbox_events_op)
    ∷ []

find_op : List (Text × Command) → Text → Option Command
find_op [] name = none
find_op ((n, op) ∷ rest) name =
    let later = find_op rest name in if text_eq name n then some op else later

-- The labels of the switch in execStep
unfoldable pub op_of : Text → Option Command
unfolding find_op
op_of name = find_op ops name

-- A call of the registry that returns nothing
abbrev pub quiet : {D : Type 0} → (FakeRegistry → FakeRegistry) → Action D (Unit {0})
quiet f = registry_call λ r. (f r, ok tt)

abbrev pub terminate_own : {D : Type 0} → Action D (Unit {0})
terminate_own w = quiet (terminate_instance w.scenario.instance_id) w

-- The operation of a step other than introspect
unfoldable pub operate : {D : Type 0} → Env D → Step → Op → Action D (Unit {0})
operate env step register_workload_op = register_workload env step
operate env step complete_enrollment_op = complete_enrollment env step
operate env step activate_op = pure tt
operate env step suspend_op = quiet suspend_agent
operate env step revoke_op = quiet revoke_agent
operate env step suspend_identity_op = quiet suspend_identity
operate env step issue_token_op = issue_token env step
operate env step exchange_op = exchange env step
operate env step register_trust_op = register_federation_trust env step
operate env step disable_trust_op = disable_federation_trust env step
operate env step issue_peer_token_op = issue_peer_token env step
operate env step broker_issue_op = broker_issue env step
operate env step instance_lease_op = instance_lease env
operate env step instance_terminate_op = terminate_own
operate env step list_agents_op = list_agents env
operate env step evidence_events_op = evidence_events env
operate env step agent_detail_op = agent_detail env
operate env step evidence_since_op = evidence_since env
operate env step lease_projection_op = instances_lease_projection env
operate env step outbox_status_op = outbox_status env
operate env step outbox_events_op = outbox_events_list env

abbrev wants_deny : Step → Bool
wants_deny step = text_eq step.expect (text "deny")

abbrev pub judged :
    {D A B : Type 0}
    → (Result Failure A → Result Failure B)
    → World D × Result Failure A
    → World D × Result Failure B
judged judge (w, r) = (w, judge r)

abbrev pub exec_op : {D : Type 0} → Env D → Step → Option Command → Action D (Unit {0})
exec_op env step none w = (w, err (unmet (text "unknown op")))
exec_op env step (some introspection) w =
    judged (introspect_outcome (wants_deny step)) (introspect env step w)
exec_op env step (some (operation op)) w =
    judged (outcome (wants_deny step)) (operate env step op w)

-- execStep
unfoldable pub exec_step : {D : Type 0} → Env D → Step → Action D (Unit {0})
exec_step env step = exec_op env step (op_of step.op)

-- The loop of RunFixture, from the step of the given index; an error has its step's index.
unfoldable pub run_steps :
    {D : Type 0} → (ℕ → Env D) → ℕ → List Step → World D → World D × Result (ℕ × Failure) (Unit {0})
run_steps env i [] w = (w, ok tt)
run_steps env i (step ∷ steps) w =
    let (w', result) = exec_step (env i) step w in
    elim result [ err e ↦ (w', err (i, e)) | ok _ ↦ run_steps env (i + 1) steps w' ]

-- Scenario of types.go
pub record Scenario : Type 0 where
  pub agent_class : Text
  pub binding_type : Text
  pub authority_root_ref : Text
  pub steps : List Step

-- The two key pairs that begin generates
pub record Keys : Type 0 where
  pub main_pub : Text
  pub main_priv : Text
  pub attacker_pub : Text
  pub attacker_priv : Text

-- begin, where a registry is configured
unfoldable pub begin :
    {D : Type 0} → Keys → Scenario → D → FakeRegistry → Option PeerIssuer → World D
begin keys scenario daemon registry peer =
    let (r, agent_id) =
      seed_agent scenario.agent_class scenario.binding_type scenario.authority_root_ref registry in
    record {
      daemon = daemon;
      registry = r;
      peer = peer;
      scenario = record {
        agent_id = agent_id;
        reg_id = [];
        challenge_id = [];
        nonce = [];
        instance_id = [];
        agent_class = scenario.agent_class;
        binding_type = scenario.binding_type;
        authority_root_ref = scenario.authority_root_ref;
        managed_blueprint_id = [];
        managed_blueprint_version = [];
        main_pub = keys.main_pub;
        main_priv = keys.main_priv;
        attacker_pub = keys.attacker_pub;
        attacker_priv = keys.attacker_priv;
        issued_token = [];
      };
    }

-- RunFixture
unfoldable pub run_fixture :
    {D : Type 0}
    → (ℕ → Env D)
    → Keys
    → Scenario
    → D
    → FakeRegistry
    → Option PeerIssuer
    → World D × Result (ℕ × Failure) (Unit {0})
run_fixture env keys scenario daemon registry peer =
    run_steps env 0 scenario.steps (begin keys scenario daemon registry peer)
