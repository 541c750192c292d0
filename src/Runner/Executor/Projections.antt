-- ===== src/Runner/Executor/Projections.antt =====
-- The operations that read the daemon's projections: listAgents, evidenceEvents, agentDetail,
-- evidenceSince, instancesLeaseProjection, outboxStatus and outboxEventsList of
-- conformance/runner/executor.go.
use eidovela_open.Common.{
  ℤ, pos, Bool, false, ◌&&◌, ◌||◌, List, [], ◌∷◌, ◌++◌, Option, none, some, leb_ℤ, sub_ℕ,
  if◌then◌else◌,
}
use eidovela_open.Text.{Text, text, text_eq}
use eidovela_open.Base64.{◌>>=◌}
use eidovela_open.Json.{Value, Claims}
use eidovela_open.Json.Struct.{string_field, struct_members}
use eidovela_open.Json.Fields.{bool_field, int_field, list_field}
use eidovela_open.Runner.Executor
use eidovela_open.Runner.Executor.{
  Env, ScenarioState, Failure, unmet, Action, pure, fail, read, needs, seconds,
}
use eidovela_open.Runner.Executor.Http.{fetch}

-- A check behind a read
abbrev pub checked : {D A : Type 0} → Action D A → (A → Action D (Unit {0})) → Action D (Unit {0})
checked m k = Executor.◌>>=◌ m k

abbrev pub holds : {D : Type 0} → Bool → Text → Action D (Unit {0})
holds b message = if b then pure tt else fail (unmet message)

abbrev pub any : {A : Type 0} → (A → Bool) → List A → Bool
any test [] = false
any test (a ∷ as') = test a || any test as'

-- The first item that the test picks
abbrev pub first : {A : Type 0} → (A → Bool) → List A → Option A
first test [] = none
first test (a ∷ as') = if test a then some a else first test as'

abbrev agent_row : Value → Option (Text × ℤ)
agent_row v = do
  ms ← struct_members v
  id ← string_field ms (text "agentId")
  epoch ← int_field ms (text "agentEpoch")
  some (id, epoch)

-- listAgents
unfoldable pub list_agents : {D : Type 0} → Env D → Action D (Unit {0})
list_agents env = checked (read λ s. s.agent_id) λ agent_id.
    checked (fetch env (text "/v1/registry/agents") (λ ms. list_field agent_row ms (text "agents")))
      λ rows.
        holds (any (λ row. text_eq row.0 agent_id && leb_ℤ (pos 1) row.1) rows)
          (text "registry agent not present in /v1/registry/agents view")

abbrev event_type : Value → Option Text
event_type v = do ms ← struct_members v; string_field ms (text "eventType")

abbrev completed : Text
completed = text "identity.enrollment.completed"

-- evidenceEvents
unfoldable pub evidence_events : {D : Type 0} → Env D → Action D (Unit {0})
evidence_events env =
    checked (fetch env (text "/v1/evidence") (λ ms. list_field event_type ms (text "evidence")))
      λ rows.
        holds (any (λ t. text_eq t completed) rows)
          (text "enrollment evidence not present in /v1/evidence projection")

-- evidenceSince
unfoldable pub evidence_since : {D : Type 0} → Env D → Action D (Unit {0})
evidence_since env =
    let since = env.platform.format_rfc3339 (sub_ℕ env.now (seconds 3600)) in
    checked
      (fetch env (text "/v1/evidence?since=" ++ env.query_escape since)
        (λ ms. list_field event_type ms (text "evidence")))
      λ rows.
        holds (any (λ t. text_eq t completed) rows)
          (text "enrollment evidence missing in since-filtered projection")

abbrev detail : Claims → Option (Text × ℤ × ℤ)
detail ms = do
  id ← string_field ms (text "agentId")
  agent_epoch ← int_field ms (text "agentEpoch")
  identity_epoch ← int_field ms (text "identityEpoch")
  _ ← bool_field ms (text "tokenable")
  some (id, agent_epoch, identity_epoch)

-- agentDetail
unfoldable pub agent_detail : {D : Type 0} → Env D → Action D (Unit {0})
agent_detail env = checked (read λ s. s.agent_id) λ agent_id.
    checked
      (fetch env (text "/v1/verified-agent-context?agentId=" ++ env.query_escape agent_id) detail)
      λ (id, agent_epoch, identity_epoch).
        holds (text_eq id agent_id && leb_ℤ (pos 1) agent_epoch && leb_ℤ (pos 1) identity_epoch)
          (text "verified agent context mismatch")

abbrev instance_row : Value → Option (Text × Bool)
instance_row v = do
  ms ← struct_members v
  id ← string_field ms (text "instanceId")
  _ ← string_field ms (text "state")
  tokenable ← bool_field ms (text "tokenable")
  some (id, tokenable)

abbrev pub tokenable_row : {D : Type 0} → Option (Text × Bool) → Action D (Unit {0})
tokenable_row none = fail (unmet (text "instance not present in registry instance view"))
tokenable_row (some (_, tokenable)) =
    holds tokenable (text "freshly leased instance must be tokenable")

-- instancesLeaseProjection
unfoldable pub instances_lease_projection : {D : Type 0} → Env D → Action D (Unit {0})
instances_lease_projection env = checked (read λ s. s) λ s.
    checked
      (needs s.instance_id
        (text "instances_lease_projection requires completed enrollment and lease"))
      λ _.
        checked
          (fetch env (text "/v1/registry/agents/" ++ (s.agent_id ++ text "/instances"))
            (λ ms. list_field instance_row ms (text "instances")))
          λ rows. tokenable_row (first (λ row. text_eq row.0 s.instance_id) rows)

-- outboxStatus
unfoldable pub outbox_status : {D : Type 0} → Env D → Action D (Unit {0})
outbox_status env =
    checked (fetch env (text "/v1/ops/outbox") (λ ms. int_field ms (text "pending"))) λ _. pure tt

-- Topic, agent and state
abbrev outbox_row : Value → Option (Text × Text × Text)
outbox_row v = do
  ms ← struct_members v
  _ ← string_field ms (text "eventId")
  topic ← string_field ms (text "topic")
  agent ← string_field ms (text "agentId")
  state ← string_field ms (text "state")
  some (topic, agent, state)

abbrev pub pending_row : {D : Type 0} → Option (Text × Text × Text) → Action D (Unit {0})
pending_row none = fail (unmet (text "enrollment outbox row missing"))
pending_row (some (_, _, state)) =
    holds (text_eq state (text "pending")) (text "enrollment outbox row is not pending")

abbrev is_enrollment : Text → Text × Text × Text → Bool
is_enrollment agent_id (topic, agent, _) = text_eq topic completed && text_eq agent agent_id

-- outboxEventsList
unfoldable pub outbox_events_list : {D : Type 0} → Env D → Action D (Unit {0})
outbox_events_list env = checked (read λ s. s.agent_id) λ agent_id.
    checked
      (fetch env (text "/v1/ops/outbox/events") (λ ms. list_field outbox_row ms (text "events")))
      λ rows. pending_row (first (is_enrollment agent_id) rows)
