-- ===== src/Runner/Registry/Lifecycle.antt =====
-- The lifecycle of agents and instances: epochs count the transitions, and a terminated instance is
-- terminated for good.
use eidovela_open.Common.{
  ℕ, ◌+◌, ◌^◌, ◌≤◌, ◌<◌, ◌≡◌, ℤ, pos, List, [], ◌∷◌, All, Option, length, inl, inr, arith,
}
use native.Mathlib.Nat.{add-zero, add_assoc}
use eidovela_open.Text.{Text}
use eidovela_open.Platform.{Platform}
use eidovela_open.Runner.Registry.{
  FakeRegistry, set_identity_attributes, add_workload, suspend_agent, revoke_agent,
  suspend_identity, terminate_instance, lease_instance, commit_instance, CommitBody,
}
use eidovela_open.Runner.Registry.State.{serve_http_state}
use eidovela_open.Runner.Registry.Operations.{
  Operation, seed, suspend, revoke, suspend_id, serve, step, run,
}

-- How an operation moves the two epochs.
abbrev pub agent_bump : Operation → ℕ
agent_bump suspend = 1
agent_bump revoke = 1
agent_bump _ = 0

abbrev pub identity_bump : Operation → ℕ
identity_bump revoke = 1
identity_bump suspend_id = 1
identity_bump _ = 0

abbrev pub total : (Operation → ℕ) → List Operation → ℕ
total f [] = 0
total f (op ∷ ops) = f op + total f ops

abbrev pub IsNoSeed : Operation → Type 0
IsNoSeed (seed _ _ _) = ⊥
IsNoSeed _ = Unit

-- The epochs are those two numbers.
pub record HasEpochs (a i : ℕ) (r : FakeRegistry) : Type 0 where
  pub agent : r.agent_epoch ≡ pos a
  pub identity : r.identity_epoch ≡ pos i

commit_instance-HasEpochs :
    {a i : ℕ} {r : FakeRegistry} (parse_time : Text → Option ℤ) (agent_id : Text)
    (body : CommitBody)
    → HasEpochs a i r
    → HasEpochs a i (commit_instance parse_time agent_id body r).0
unfolding commit_instance
commit_instance-HasEpochs parse_time agent_id body h = ground arith

step-HasEpochs :
    (p : Platform) (op : Operation) {a i : ℕ} {r : FakeRegistry}
    → a + 1 < 2 ^ 63
    → i + 1 < 2 ^ 63
    → IsNoSeed op
    → HasEpochs a i r
    → HasEpochs (a + agent_bump op) (i + identity_bump op) (step p op r)
unfolding step set_identity_attributes add_workload suspend_agent revoke_agent suspend_identity
    terminate_instance lease_instance
step-HasEpochs p (serve req) {a} {i} {r} ra ri n h = elim (serve_http_state p req r) [
  | inl same ↦ rw (same, add-zero, add-zero) h
  | inr (agent_id, body, same) ↦
      rw (same, add-zero, add-zero) (commit_instance-HasEpochs p.parse_rfc3339 agent_id body h)
]
step-HasEpochs p op {a} {i} {r} ra ri n h = ground arith

agent_bump-le : (op : Operation) → agent_bump op ≤ 1
agent_bump-le suspend = omega arith
agent_bump-le revoke = omega arith
agent_bump-le _ = omega arith

identity_bump-le : (op : Operation) → identity_bump op ≤ 1
identity_bump-le revoke = omega arith
identity_bump-le suspend_id = omega arith
identity_bump-le _ = omega arith

-- Over any run without a new agent, the agent epoch grows by one for each suspension or revocation of
-- the agent, and the identity epoch by one for each revocation or suspension of the identity; no
-- request and no other operation moves them.
pub run-HasEpochs :
    (p : Platform) (ops : List Operation) {a i : ℕ} {r : FakeRegistry}
    → a + length ops < 2 ^ 63
    → i + length ops < 2 ^ 63
    → All IsNoSeed ops
    → HasEpochs a i r
    → HasEpochs (a + total agent_bump ops) (i + total identity_bump ops) (run p ops r)
unfolding run
run-HasEpochs p [] {a} {i} {r} ra ri n h = rw (add-zero, add-zero) h
run-HasEpochs p (op ∷ ops) {a} {i} {r} ra ri (n, ns) h =
    rw
      (
        ← add_assoc a (agent_bump op) (total agent_bump ops),
        ← add_assoc i (identity_bump op) (total identity_bump ops),
      )
      (run-HasEpochs p ops {a = a + agent_bump op} {i = i + identity_bump op}
        (omega (arith, agent_bump-le op)) (omega (arith, identity_bump-le op)) ns
        (step-HasEpochs p op (omega arith) (omega arith) n h))
