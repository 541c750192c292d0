-- ===== src/Sdk/V3/Client/Views.antt =====
-- Reading views: VerifiedContext to KeyStatus and RotateSigningKey of sdk/go/eidovela/v3/client.go.
use eidovela_open.Common.{[], ◌++◌, List, some, if◌then◌else◌}
use eidovela_open.Text.{Text, text, is_empty}
use eidovela_open.Text.Url.{query_escape, path_escape}
use eidovela_open.Json.{null, Claims, to_map}
use eidovela_open.Json.Fields.{list_field}
use eidovela_open.Sdk.Http.{Net, Operation, posting, getting, ignoring}
use eidovela_open.Sdk.Wire.{enveloped}
use eidovela_open.Sdk.V3.Types.Views.{
  RegistryAgent, decode_registry_agent, RegistryInstance, decode_registry_instance,
}
use eidovela_open.Sdk.V3.Types.Events.{
  EvidenceEvent, decode_evidence_event, OutboxStats, decode_outbox_stats, OutboxEvent,
  decode_outbox_event,
}
use eidovela_open.Sdk.V3.Types.Trusts.{KeyStatus, decode_key_status}

-- url.Values.Encode sorts by the names, as they stand here.
unfoldable pub context_query : Text → Text → Text
context_query agent_id instance_id =
    text "agentId="
    ++ (query_escape agent_id
        ++ (if is_empty instance_id then [] else text "&instanceId=" ++ query_escape instance_id))

unfoldable pub verified_context : Text → Text → Operation Claims
verified_context agent_id instance_id =
    getting (text "/v1/verified-agent-context?" ++ context_query agent_id instance_id) to_map

unfoldable pub list_registry_agents : Operation (List RegistryAgent)
list_registry_agents =
    getting (text "/v1/registry/agents")
      (enveloped (list_field decode_registry_agent) (text "agents"))

unfoldable pub get_registry_agent : Text → Operation RegistryAgent
get_registry_agent agent_id =
    getting (text "/v1/registry/agents/" ++ path_escape agent_id) decode_registry_agent

unfoldable pub list_registry_instances : Text → Operation (List RegistryInstance)
list_registry_instances agent_id =
    getting (text "/v1/registry/agents/" ++ (path_escape agent_id ++ text "/instances"))
      (enveloped (list_field decode_registry_instance) (text "instances"))

unfoldable pub evidence_events : Net → Text → Operation (List EvidenceEvent)
evidence_events net since =
    getting
      (text "/v1/evidence" ++ (if is_empty since then [] else text "?since=" ++ query_escape since))
      (enveloped (list_field (decode_evidence_event net)) (text "evidence"))

unfoldable pub outbox_status : Operation OutboxStats
outbox_status = getting (text "/v1/ops/outbox") decode_outbox_stats

unfoldable pub outbox_events : Net → Operation (List OutboxEvent)
outbox_events net =
    getting (text "/v1/ops/outbox/events")
      (enveloped (list_field (decode_outbox_event net)) (text "events"))

unfoldable pub redrive_outbox_event : Text → Operation (Unit {0})
redrive_outbox_event event_id =
    posting (text "/v1/ops/outbox/events/" ++ (path_escape event_id ++ text "/redrive")) (some null)
      ignoring

unfoldable pub key_status : Operation KeyStatus
key_status = getting (text "/v1/ops/keys") decode_key_status

unfoldable pub rotate_signing_key : Operation KeyStatus
rotate_signing_key = posting (text "/v1/ops/keys/rotate") (some null) decode_key_status
