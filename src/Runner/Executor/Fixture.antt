-- ===== src/Runner/Executor/Fixture.antt =====
-- What a fixture can do to the registry: nothing but the registry's own operations and requests.
use eidovela_open.Common.{
  ℕ, ◌+◌, ◌≡◌, Bool, List, [], ◌∷◌, All, Option, none, some, Bool-cases, inl, inr,
}
use eidovela_open.Text.{Text}
use eidovela_open.Platform.{Platform}
use eidovela_open.Runner.Registry.{FakeRegistry}
use eidovela_open.Runner.Registry.Operations.{
  Operation, seed, suspend, revoke, suspend_id, terminate, step, run,
}
use eidovela_open.Runner.Registry.Lifecycle.{IsNoSeed}
use eidovela_open.Runner.Peers.{PeerIssuer}
use eidovela_open.Runner.Executor.{Env, Step, World, registry_call}
use eidovela_open.Runner.Executor.Respects.{
  Reaches, Reaches-refl, Reaches-trans, Reaches-one, UsesRequests, Respects, bind-Respects,
  pure-Respects, fail-Respects, read-Respects, needs-Respects, call-Respects, fetch-Respects,
}
use eidovela_open.Runner.Executor.Projections.{
  list_agents, evidence_events, agent_detail, evidence_since, instances_lease_projection,
  outbox_status, outbox_events_list, holds, tokenable_row, pending_row,
}
use eidovela_open.Runner.Executor.Safety.{
  issue_token-Respects, introspect-Respects, exchange-Respects, broker_issue-Respects,
  register_federation_trust-Respects, disable_federation_trust-Respects, issue_peer_token-Respects,
  register_workload-Respects, complete_enrollment-Respects, instance_lease-Respects,
}
use eidovela_open.Runner.Executor.Exec
use eidovela_open.Runner.Executor.Verdict.{Result-cases}

module _ {D : Type 0} (p : Platform) where
  holds-Respects : (b : Bool) (message : Text) → Respects {D = D} p (holds b message)
  holds-Respects b message = elim (Bool-cases b) [
    | inl e ↦ rw e (pure-Respects p tt)
    | inr e ↦ rw e (fail-Respects p _)
  ]

  tokenable_row-Respects : (row : Option (Text × Bool)) → Respects {D = D} p (tokenable_row row)
  tokenable_row-Respects none = fail-Respects p _
  tokenable_row-Respects (some (id, b)) = holds-Respects b _

  pending_row-Respects : (row : Option (Text × Text × Text)) → Respects {D = D} p (pending_row row)
  pending_row-Respects none = fail-Respects p _
  pending_row-Respects (some (topic, agent, state)) = holds-Respects _ _

  quiet-Respects :
      (f : FakeRegistry → FakeRegistry)
      → ((r : FakeRegistry) → Reaches p r (f r))
      → Respects {D = D} p (Exec.quiet f)
  quiet-Respects f h = call-Respects p _ h

  terminate_own-Respects : Respects {D = D} p Exec.terminate_own
  unfolding step registry_call
  terminate_own-Respects = record {
    go = λ w. Reaches-one p (terminate w.scenario.instance_id) w.registry tt;
  }

  module _ (env : Env D) (uses : UsesRequests p env) where
    list_agents-Respects : Respects p (list_agents env)
    unfolding list_agents
    list_agents-Respects =
        bind-Respects p _ _ (read-Respects p _)
          λ id. bind-Respects p _ _ (fetch-Respects p env uses _ _) λ rows. holds-Respects _ _

    evidence_events-Respects : Respects p (evidence_events env)
    unfolding evidence_events
    evidence_events-Respects =
        bind-Respects p _ _ (fetch-Respects p env uses _ _) λ rows. holds-Respects _ _

    evidence_since-Respects : Respects p (evidence_since env)
    unfolding evidence_since
    evidence_since-Respects =
        bind-Respects p _ _ (fetch-Respects p env uses _ _) λ rows. holds-Respects _ _

    agent_detail-Respects : Respects p (agent_detail env)
    unfolding agent_detail
    agent_detail-Respects =
        bind-Respects p _ _ (read-Respects p _)
          λ id. bind-Respects p _ _ (fetch-Respects p env uses _ _) λ row. holds-Respects _ _

    instances_lease_projection-Respects : Respects p (instances_lease_projection env)
    unfolding instances_lease_projection
    instances_lease_projection-Respects = bind-Respects p _ _ (read-Respects p _) λ state.
        bind-Respects p _ _ (needs-Respects p _ _)
          λ _. bind-Respects p _ _ (fetch-Respects p env uses _ _) λ rows. tokenable_row-Respects _

    outbox_status-Respects : Respects p (outbox_status env)
    unfolding outbox_status
    outbox_status-Respects =
        bind-Respects p _ _ (fetch-Respects p env uses _ _) λ pending. pure-Respects p tt

    outbox_events_list-Respects : Respects p (outbox_events_list env)
    unfolding outbox_events_list
    outbox_events_list-Respects =
        bind-Respects p _ _ (read-Respects p _)
          λ id. bind-Respects p _ _ (fetch-Respects p env uses _ _) λ rows. pending_row-Respects _

    operate-Respects : (s : Step) (op : Exec.Op) → Respects p (Exec.operate env s op)
    unfolding Exec.operate step
    operate-Respects s Exec.register_workload_op = register_workload-Respects p env uses s
    operate-Respects s Exec.complete_enrollment_op = complete_enrollment-Respects p env uses s
    operate-Respects s Exec.activate_op = pure-Respects p tt
    operate-Respects s Exec.suspend_op = quiet-Respects _ λ r. Reaches-one p suspend r tt
    operate-Respects s Exec.revoke_op = quiet-Respects _ λ r. Reaches-one p revoke r tt
    operate-Respects s Exec.suspend_identity_op =
        quiet-Respects _ λ r. Reaches-one p suspend_id r tt
    operate-Respects s Exec.issue_token_op = issue_token-Respects p env uses s
    operate-Respects s Exec.exchange_op = exchange-Respects p env uses s
    operate-Respects s Exec.register_trust_op = register_federation_trust-Respects p env uses s
    operate-Respects s Exec.disable_trust_op = disable_federation_trust-Respects p env uses s
    operate-Respects s Exec.issue_peer_token_op = issue_peer_token-Respects p env uses s
    operate-Respects s Exec.broker_issue_op = broker_issue-Respects p env uses s
    operate-Respects s Exec.instance_lease_op = instance_lease-Respects p env uses
    operate-Respects s Exec.instance_terminate_op = terminate_own-Respects
    operate-Respects s Exec.list_agents_op = list_agents-Respects
    operate-Respects s Exec.evidence_events_op = evidence_events-Respects
    operate-Respects s Exec.agent_detail_op = agent_detail-Respects
    operate-Respects s Exec.evidence_since_op = evidence_since-Respects
    operate-Respects s Exec.lease_projection_op = instances_lease_projection-Respects
    operate-Respects s Exec.outbox_status_op = outbox_status-Respects
    operate-Respects s Exec.outbox_events_op = outbox_events_list-Respects

    exec_op-Respects : (s : Step) (c : Option Exec.Command) → Respects p (Exec.exec_op env s c)
    exec_op-Respects s none = record { go = λ w. Reaches-refl p w.registry }
    exec_op-Respects s (some Exec.introspection) = record {
      go = λ w. (introspect-Respects p env uses s).go w;
    }
    exec_op-Respects s (some (Exec.operation op)) = record {
      go = λ w. (operate-Respects s op).go w;
    }

    exec_step-Respects : (s : Step) → Respects p (Exec.exec_step env s)
    unfolding Exec.exec_step
    exec_step-Respects s = exec_op-Respects s (Exec.op_of s.op)

  run_steps-Reaches :
      (env : ℕ → Env D)
      → ((i : ℕ) → UsesRequests p (env i))
      → (i : ℕ) (steps : List Step) (w : World D)
      → Reaches p w.registry (Exec.run_steps env i steps w).0.registry
  unfolding Exec.run_steps
  run_steps-Reaches env uses i [] w = Reaches-refl p w.registry
  run_steps-Reaches env uses i (s ∷ steps) w =
      let moved = (exec_step-Respects (env i) (uses i) s).go w in
      elim (Result-cases (Exec.exec_step (env i) s w).1) [
        | inl (e, failed) ↦ rw (Exec.run_steps, failed) moved
        | inr (u, fine) ↦
            rw (Exec.run_steps, fine)
              (Reaches-trans moved
                (run_steps-Reaches env uses (i + 1) steps (Exec.exec_step (env i) s w).0))
      ]

-- A fixture moves the registry by one new agent, then by operations that seed no agent, and by
-- nothing else, when the daemon reads and changes the registry by HTTP requests alone. This holds
-- whether the fixture passes or fails.
pub run_fixture-Reaches :
    {D : Type 0} (p : Platform) (env : ℕ → Env D) (keys : Exec.Keys) (scenario : Exec.Scenario)
    (daemon : D) (registry : FakeRegistry) (peer : Option PeerIssuer)
    → ((i : ℕ) → UsesRequests p (env i))
    → (ops : List Operation) × All IsNoSeed ops
      × ((Exec.run_fixture env keys scenario daemon registry peer).0.registry
          ≡ run p
              (seed scenario.agent_class scenario.binding_type scenario.authority_root_ref ∷ ops)
              registry)
unfolding Exec.run_fixture Exec.begin run step
run_fixture-Reaches p env keys scenario daemon registry peer uses =
    let h =
      run_steps-Reaches p env uses 0 scenario.steps
        (Exec.begin keys scenario daemon registry peer) in
    (h.ops, h.no_seed, h.result)
